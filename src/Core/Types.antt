-- ===== src/Core/Types.antt =====
-- The types of crates/fomalhaut-core/src: state.rs, event.rs, error.rs, identity.rs, session.rs.
-- A Rust `String` is the list of its UTF-8 bytes; clearing memory (zeroize) is not modelled.
use fomalhaut.Common.{ℕ, String, List, Option, Result, ok, err, is_empty, if◌then◌else◌}

abbrev pub Text : Type 0
Text = List ℕ

-- A `PromptId` is the u64 that it wraps.
abbrev pub PromptId : Type 0
PromptId = ℕ

pub data AuthState : Type 0 where
  disconnected idle authenticating waiting_for_secret waiting_for_visible : AuthState
  authenticated cancelling failed : AuthState

pub data PromptKind : Type 0 where
  secret visible : PromptKind

pub data MessageLevel : Type 0 where
  info error : MessageLevel

pub record AuthenticatedIdentity : Type 0 where
  pub account_name : Text

pub data AuthEvent : Type 0 where
  prompt : PromptId → PromptKind → Text → AuthEvent
  message : MessageLevel → Text → AuthEvent
  authenticated : AuthenticatedIdentity → AuthEvent
  authentication_failed cancelled : AuthEvent

-- `invalid_state` names the operation and the state that refused it; `stale_prompt` holds the
-- prompt expected and the one received.
pub data CoreError : Type 0 where
  invalid_state : String → AuthState → CoreError
  stale_prompt : Option PromptId → PromptId → CoreError
  no_pending_event prompt_id_exhausted empty_session_command empty_identity : CoreError

pub data BackendError : Type 0 where
  core : CoreError → BackendError
  unavailable protocol service : BackendError

pub record SessionCommand : Type 0 where
  pub command : List Text
  pub environment : List Text

-- `AuthenticatedIdentity::new`.
unfoldable pub new_identity : Text → Result AuthenticatedIdentity CoreError
new_identity account_name =
    if is_empty account_name
    then err empty_identity
    else ok (record { account_name = account_name })

-- `SessionCommand::new`.
unfoldable pub new_command : List Text → List Text → Result SessionCommand CoreError
new_command command environment =
    if is_empty command
    then err empty_session_command
    else ok (record { command = command; environment = environment })

-- `SessionCommand::into_parts`.
unfoldable pub into_parts : SessionCommand → List Text × List Text
into_parts c = (c.command, c.environment)
