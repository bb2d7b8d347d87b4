-- ===== src/Examples/Workers.antt =====
-- Transactions of the lock screen with its worker.
use fomalhaut.Common.{ℕ, none, some, [], ◌∷◌, ok, ◌≡◌, refl}
use fomalhaut.Core.Types.{Text, AuthState, authenticated}
use fomalhaut.Pam.Ipc.{WorkerMessage}
use fomalhaut.Pam.Transport.{CurrentUserIdentity, WorkerTransport}
use fomalhaut.Pam.Backend.{
  PamReauthBackend, drive_worker_for, round, begin_transaction, answer_prompt,
}
use fomalhaut.Pam.Backend.Invariant.{IsSound, Settles}
use fomalhaut.Pam.Backend.Calls.{begin_transaction-Settles, answer_prompt-Settles}
use fomalhaut.Pam.Backend.Verdict.{IsVouched}
use fomalhaut.Pam.Backend.Vouched.{answer_prompt-IsVouched}

abbrev pub alice : Text
alice = b'a' ∷ b'l' ∷ []

abbrev pub who : CurrentUserIdentity
who = record { uid = 1000; username = alice; display_name = alice }

-- Asks once, and is content.
abbrev pub asker : WorkerTransport
asker = record {
  begun = ok tt;
  answered = ok tt ∷ [];
  messages = ok WorkerMessage.authenticated ∷ [];
  exit = ok tt;
  sent = [];
}

abbrev pub waiting : PamReauthBackend
waiting = record {
  identity = who;
  conversation = record {
    state = AuthState.waiting_for_secret;
    events = [];
    active_prompt = some 1;
    next_prompt_id = 2;
  };
  factory = [];
  worker = some asker;
  worker_prompt = some 5;
  received_frames = 1;
}

pub waiting-IsSound : IsSound waiting
waiting-IsSound = record {
  prompted = refl;
  manned = refl;
  freed = refl;
  settled = refl;
  named = refl;
}

abbrev idle : PamReauthBackend
idle = record waiting {
  conversation = record {
    state = AuthState.idle;
    events = [];
    active_prompt = none;
    next_prompt_id = 1;
  };
  worker_prompt = none;
}

idle-IsSound : IsSound idle
idle-IsSound = record { prompted = refl; manned = refl; freed = refl; settled = refl; named = refl }

abbrev done : ℕ → PamReauthBackend
done next = record waiting {
  conversation = record {
    state = AuthState.authenticated;
    events = authenticated (record { account_name = alice }) ∷ [];
    active_prompt = none;
    next_prompt_id = next;
  };
  worker = none;
  worker_prompt = none;
  received_frames = next;
}

answer_accepted : answer_prompt waiting 1 [] ≡ some (done 2, ok tt)
unfolding answer_prompt drive_worker_for round
answer_accepted = refl

begin_accepted : begin_transaction idle ≡ some (done 1, ok tt)
unfolding begin_transaction drive_worker_for round
begin_accepted = refl

answer_prompt-IsVouched_example : IsVouched asker alice (done 2)
answer_prompt-IsVouched_example =
    answer_prompt-IsVouched waiting 1 [] asker refl (λ e. cc) answer_accepted refl

begin_transaction-Settles_example : Settles (begin_transaction idle)
begin_transaction-Settles_example = begin_transaction-Settles idle idle-IsSound

answer_prompt-Settles_example : Settles (answer_prompt waiting 1 [])
answer_prompt-Settles_example = answer_prompt-Settles waiting 1 [] waiting-IsSound
