-- ===== src/Examples/Transactions.antt =====
-- A transaction of the PAM worker.
use fomalhaut.Common.{◌≤◌, true, false, [], ◌∷◌, ok, err, ◌≡◌, refl, ◌⊎◌, arith}
use fomalhaut.Pam.Bytes.{
  Bytes, other, Reader, Writer, read_exact, from_be_bytes, write_all, to_be_bytes, flush,
}
use fomalhaut.Pam.Ipc.{
  WorkerPromptKind, read_parent_message, read_frame, decode_parent, decode_text, validate_text,
  write_worker_message, write_frame, decode_answer,
}
use fomalhaut.Pam.Worker.{
  PamCall, done, ask, Stack, WorkerConversation, prompt, call, run_pam_worker_with,
}
use fomalhaut.Pam.Worker.Verdict.{Ended, run_pam_worker_with-Ended}
use fomalhaut.Pam.Worker.Sticky.{call-limited}
use fomalhaut.Pam.Worker.Answers.{spent, Answered, prompt-Answered}

-- It asks for a password, and takes what it is given.
abbrev asks : PamCall
asks = ask WorkerPromptKind.secret (b'P' ∷ []) (λ r. done (elim r [ ok x ↦ ok tt | err e ↦ err e ]))

abbrev stack : Stack
stack = record { context = λ _. true; authenticates = λ _. asks; manages = λ _. done (ok tt) }

abbrev answer_frame : Bytes
answer_frame = 3 ∷ 0 ∷ 0 ∷ 0 ∷ 10 ∷ 0 ∷ 0 ∷ 0 ∷ 0 ∷ 0 ∷ 0 ∷ 0 ∷ 1 ∷ b'p' ∷ b'w' ∷ []

-- PREPARE u, BEGIN, and an answer.
abbrev reader : Reader
reader = record {
  bytes = 1 ∷ 0 ∷ 0 ∷ 0 ∷ 1 ∷ b'u' ∷ 2 ∷ 0 ∷ 0 ∷ 0 ∷ 0 ∷ answer_frame;
  ending = other;
}

abbrev writer : Writer
writer = record { written = []; room = 1000; ending = other; flushes = ok tt }

-- READY, PROMPT_SECRET, AUTHENTICATED.
abbrev said : Writer
said = record {
  written =
      16 ∷ 0 ∷ 0 ∷ 0 ∷ 0 ∷ 17 ∷ 0 ∷ 0 ∷ 0 ∷ 9 ∷ 0 ∷ 0 ∷ 0 ∷ 0 ∷ 0 ∷ 0 ∷ 0 ∷ 1 ∷ b'P' ∷ 21 ∷ 0 ∷ 0
      ∷ 0 ∷ 0 ∷ [];
  room = 976;
  ending = other;
  flushes = ok tt;
}

worker_runs : run_pam_worker_with stack reader writer ≡ (said, ok tt)
unfolding run_pam_worker_with read_parent_message read_frame read_exact from_be_bytes decode_parent
    decode_text validate_text write_worker_message write_frame write_all to_be_bytes flush
    decode_answer
worker_runs = refl

run_pam_worker_with-Ended_example : Ended stack reader writer said
run_pam_worker_with-Ended_example = run_pam_worker_with-Ended stack reader writer said worker_runs

abbrev before : WorkerConversation
before = record {
  reader = record { bytes = answer_frame; ending = other };
  writer = writer;
  next_prompt = 1;
  frames = 2;
  failed = false;
}

abbrev after : WorkerConversation
after = record {
  reader = record { bytes = []; ending = other };
  writer = record {
    written = 17 ∷ 0 ∷ 0 ∷ 0 ∷ 9 ∷ 0 ∷ 0 ∷ 0 ∷ 0 ∷ 0 ∷ 0 ∷ 0 ∷ 1 ∷ b'P' ∷ [];
    room = 986;
    ending = other;
    flushes = ok tt;
  };
  next_prompt = 2;
  frames = 4;
  failed = false;
}

prompts : prompt before (b'P' ∷ []) WorkerPromptKind.secret ≡ (after, ok (b'p' ∷ b'w' ∷ []))
unfolding prompt read_parent_message read_frame read_exact from_be_bytes decode_parent validate_text
    write_worker_message write_frame write_all to_be_bytes flush decode_answer
prompts = refl

prompt-Answered_example :
    (before.failed ≡ false)
    × Answered 1 WorkerPromptKind.secret (b'P' ∷ []) (spent before) after (b'p' ∷ b'w' ∷ [])
prompt-Answered_example =
    prompt-Answered before after (b'P' ∷ []) (b'p' ∷ b'w' ∷ []) WorkerPromptKind.secret prompts

-- A conversation that failed.
abbrev broken : WorkerConversation
broken = record before { failed = true }

call-limited_example :
    ((call asks before).0.frames ≤ 128)
    ⊎ (((call asks before).0.failed ≡ true) × ((call asks before).0.frames ≤ 129))
call-limited_example = call-limited asks before (omega arith)
