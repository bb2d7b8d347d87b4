-- ===== src/Core/Conversation.antt =====
-- crates/fomalhaut-core/src/conversation.rs: `AuthConversation` and its operations.
pub mod Steps
pub mod Invariant
pub mod Replay
pub mod Delivery
use fomalhaut.Common.{
  ℕ, ◌+◌, Bool, true, false, not, Option, none, some, List, [], ◌∷◌, ◌++◌, Result, ok, err, leb,
  ◌==◌, if◌then◌else◌,
}
use fomalhaut.Core.Types.{
  Text, PromptId, PromptKind, secret, visible, MessageLevel, AuthState, idle, authenticating,
  waiting_for_secret, waiting_for_visible, authenticated, cancelling, failed, disconnected,
  AuthenticatedIdentity, AuthEvent, prompt, message, authentication_failed, cancelled, CoreError,
  invalid_state, stale_prompt, no_pending_event, prompt_id_exhausted,
}

-- The front of `events` is the front of the `VecDeque`.
pub record AuthConversation : Type 0 where
  pub state : AuthState
  pub events : List AuthEvent
  pub active_prompt : Option PromptId
  pub next_prompt_id : ℕ

abbrev pub u64_max : ℕ
u64_max = 18446744073709551615

unfoldable pub new : AuthConversation
new = record { state = idle; events = []; active_prompt = none; next_prompt_id = 1 }

abbrev pub in_transaction : AuthState → Bool
in_transaction authenticating = true
in_transaction waiting_for_secret = true
in_transaction waiting_for_visible = true
in_transaction authenticated = true
in_transaction _ = false

unfoldable pub needs_cancel : AuthConversation → Bool
needs_cancel c = in_transaction c.state

abbrev pub may_begin : AuthState → Bool
may_begin idle = true
may_begin failed = true
may_begin _ = false

abbrev pub is_waiting : AuthState → Bool
is_waiting waiting_for_secret = true
is_waiting waiting_for_visible = true
is_waiting _ = false

abbrev pub is_authenticating : AuthState → Bool
is_authenticating authenticating = true
is_authenticating _ = false

abbrev pub is_cancelling : AuthState → Bool
is_cancelling cancelling = true
is_cancelling _ = false

abbrev pub may_fail : AuthState → Bool
may_fail authenticating = true
may_fail waiting_for_secret = true
may_fail waiting_for_visible = true
may_fail cancelling = true
may_fail _ = false

-- `matches!(self.active_prompt, Some(prompt))`, as `==` on `Option<PromptId>`.
abbrev pub is_active : Option PromptId → PromptId → Bool
is_active none p = false
is_active (some q) p = q == p

unfoldable pub begin : AuthConversation → AuthConversation × Result (Unit {0}) CoreError
begin c =
    if may_begin c.state
    then (record c { events = []; active_prompt = none; state = authenticating }, ok tt)
    else (c, err (invalid_state "begin authentication" c.state))

unfoldable pub begin_response :
    AuthConversation → PromptId → AuthConversation × Result (Unit {0}) CoreError
begin_response c p =
    if not (is_waiting c.state)
    then (c, err (invalid_state "respond to prompt" c.state))
    else if not (is_active c.active_prompt p)
    then (c, err (stale_prompt c.active_prompt p))
    else (record c { active_prompt = none; state = authenticating }, ok tt)

abbrev pub waiting_for : PromptKind → AuthState
waiting_for secret = waiting_for_secret
waiting_for visible = waiting_for_visible

-- `checked_add` fails at `u64::MAX`, before anything is changed.
unfoldable pub emit_prompt :
    AuthConversation → PromptKind → Text → AuthConversation × Result (Unit {0}) CoreError
emit_prompt c kind text =
    if not (is_authenticating c.state)
    then (c, err (invalid_state "emit an authentication prompt" c.state))
    else if leb u64_max c.next_prompt_id
    then (c, err prompt_id_exhausted)
    else (
      record {
        state = waiting_for kind;
        events = c.events ++ prompt c.next_prompt_id kind text ∷ [];
        active_prompt = some c.next_prompt_id;
        next_prompt_id = c.next_prompt_id + 1;
      },
      ok tt,
    )

unfoldable pub emit_message :
    AuthConversation → MessageLevel → Text → AuthConversation × Result (Unit {0}) CoreError
emit_message c level text =
    if not (is_authenticating c.state)
    then (c, err (invalid_state "emit an authentication message" c.state))
    else (record c { events = c.events ++ message level text ∷ [] }, ok tt)

-- The method `authenticated`.
unfoldable pub authenticate :
    AuthConversation → AuthenticatedIdentity → AuthConversation × Result (Unit {0}) CoreError
authenticate c identity =
    if not (is_authenticating c.state)
    then (c, err (invalid_state "complete authentication" c.state))
    else (
      record c {
        active_prompt = none;
        state = authenticated;
        events = c.events ++ AuthEvent.authenticated identity ∷ [];
      },
      ok tt,
    )

unfoldable pub begin_cancel : AuthConversation → AuthConversation × Result (Unit {0}) CoreError
unfolding needs_cancel
begin_cancel c =
    if not (needs_cancel c)
    then (c, err (invalid_state "cancel authentication" c.state))
    else (record c { active_prompt = none; state = cancelling }, ok tt)

-- The method `cancelled`.
unfoldable pub complete_cancel : AuthConversation → AuthConversation × Result (Unit {0}) CoreError
complete_cancel c =
    if not (is_cancelling c.state)
    then (c, err (invalid_state "complete cancellation" c.state))
    else (record c { state = idle; events = c.events ++ cancelled ∷ [] }, ok tt)

-- The method `authentication_failed`.
unfoldable pub reject : AuthConversation → AuthConversation × Result (Unit {0}) CoreError
reject c =
    if not (may_fail c.state) then (c, err (invalid_state "fail authentication" c.state)) else (
      record c {
        active_prompt = none;
        state = failed;
        events = c.events ++ authentication_failed ∷ [];
      },
      ok tt,
    )

unfoldable pub fail : AuthConversation → AuthConversation
fail c = record c { active_prompt = none; state = failed }

unfoldable pub disconnect : AuthConversation → AuthConversation
disconnect c = record c { active_prompt = none; state = disconnected }

abbrev pub pop_front :
    List AuthEvent → AuthConversation → AuthConversation × Result AuthEvent CoreError
pop_front [] c = (c, err no_pending_event)
pop_front (e ∷ es) c = (record c { events = es }, ok e)

unfoldable pub next_event : AuthConversation → AuthConversation × Result AuthEvent CoreError
next_event c = pop_front c.events c
