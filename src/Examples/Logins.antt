-- ===== src/Examples/Logins.antt =====
-- A login over greetd: a message, a password, success, and the session.
use fomalhaut.Common.{true, false, none, some, List, [], ◌∷◌, ok, ◌≡◌, refl}
use mathlib.Core.List.{get_last?}
use fomalhaut.Core.Types.{Text, AuthState, AuthEvent, SessionCommand}
use fomalhaut.Greetd.Types.{Operation, Request, Response, Reply, AuthMessageType, ErrorType}
use fomalhaut.Greetd.Client.{
  GreeterClient, Wire, with_transport, send, react, drive, create_session,
}
use fomalhaut.Greetd.Client
use fomalhaut.Greetd.Client.Invariant.{IsSound}
use fomalhaut.Greetd.Client.Calls.{Call, expecting, apply, run, run-IsSound, start_session, respond}
use fomalhaut.Greetd.Client.Progress.{
  settles, returns, returns-drive, EndsExternal, drive-EndsExternal,
}
use fomalhaut.Greetd.Client.Login.{create_session-Announces, respond-Announces}
use fomalhaut.Greetd.Client.Start.{Started, run-Started}

abbrev alice : Text
alice = b'a' ∷ b'l' ∷ []

abbrev shell : SessionCommand
shell = record { command = (b's' ∷ b'h' ∷ []) ∷ []; environment = [] }

abbrev fresh : Wire
fresh = record { replies = []; sent = [] }

abbrev greeting : List Reply
greeting =
    ok (Response.auth_message AuthMessageType.info [])
    ∷ ok (Response.auth_message AuthMessageType.secret [])
    ∷ []

abbrev yes_reply : List Reply
yes_reply = ok Response.success ∷ []

abbrev session : List (List Reply × Call)
session =
    (greeting, Call.create_session alice)
    ∷ (yes_reply, respond 1 alice)
    ∷ (yes_reply, start_session shell)
    ∷ []

session_starts : (run (with_transport fresh) session).session_started ≡ true
unfolding run apply Client.create_session Client.respond Client.start_session drive react
    with_transport
session_starts = refl

run-IsSound_example : IsSound (run (with_transport fresh) session)
run-IsSound_example = run-IsSound fresh session

run-Started_example : Started (with_transport fresh) session
unfolding with_transport
run-Started_example = run-Started (with_transport fresh) session refl session_starts

-- Authenticated, with greetd's answer to come.
abbrev ready : GreeterClient
ready = record {
  transport = record { replies = yes_reply; sent = [] };
  conversation = record {
    state = AuthState.authenticated;
    events = [];
    active_prompt = none;
    next_prompt_id = 2;
  };
  pending_identity = none;
  starting_session = false;
  session_started = false;
}

abbrev waiting_for_alice : GreeterClient
waiting_for_alice = record {
  transport = record { replies = yes_reply; sent = [] };
  conversation = record {
    state = AuthState.waiting_for_secret;
    events = [];
    active_prompt = some 1;
    next_prompt_id = 2;
  };
  pending_identity = some (record { account_name = alice });
  starting_session = false;
  session_started = false;
}

respond-Announces_example :
    get_last? (Client.respond waiting_for_alice 1 []).0.conversation.events
    ≡ some (AuthEvent.authenticated (record { account_name = alice }))
unfolding Client.respond drive react
respond-Announces_example =
    respond-Announces waiting_for_alice 1 [] (record { account_name = alice }) (λ e. cc) refl refl

create_session-Announces_example :
    get_last?
      (create_session (expecting yes_reply (with_transport fresh)) alice).0.conversation.events
    ≡ some (AuthEvent.authenticated (record { account_name = alice }))
unfolding create_session drive react with_transport
create_session-Announces_example =
    create_session-Announces (expecting yes_reply (with_transport fresh)) alice (λ e. cc) refl

-- Between two rounds of the loop.
abbrev driving : GreeterClient
driving = record {
  transport = record { replies = []; sent = [] };
  conversation = record {
    state = AuthState.authenticating;
    events = [];
    active_prompt = none;
    next_prompt_id = 1;
  };
  pending_identity = some (record { account_name = alice });
  starting_session = false;
  session_started = false;
}

driving-IsSound : IsSound driving
driving-IsSound = record { exclusive = refl; starting = refl; identified = refl }

-- Rejected, and then the cancellation is confirmed.
abbrev rejection : List Reply
rejection = ok (Response.error ErrorType.auth_error []) ∷ ok Response.success ∷ []

returns-drive_example :
    returns (drive rejection driving (Request.create_session alice) Operation.authenticate).1
    ≡ settles Operation.authenticate rejection
returns-drive_example =
    returns-drive rejection driving (Request.create_session alice) Operation.authenticate refl

drive-EndsExternal_example :
    EndsExternal (drive rejection driving (Request.create_session alice) Operation.authenticate).1
drive-EndsExternal_example =
    drive-EndsExternal rejection driving (Request.create_session alice) Operation.authenticate
      driving-IsSound refl
