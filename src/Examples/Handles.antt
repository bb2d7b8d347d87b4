-- ===== src/Examples/Handles.antt =====
-- The handles of the locker's worker, over a queue that is full once.
use fomalhaut.Common.{true, List, [], ◌∷◌, Result, ok, err, ◌≡◌, refl}
use fomalhaut.Core.Conversation.Replay.{Increasing}
use fomalhaut.Lock.Worker.Commands.{register, detach, request, shutdown}
use fomalhaut.Lock.Handle.{TrySendError, full, spawn, Call, registers, submits, closes, stops, run}
use fomalhaut.Lock.Handle.Numbers.{registered, run-Increasing}
use fomalhaut.Examples.Hosts.{output}
use fomalhaut.Examples.Controllers.{answers}

abbrev queue : List (Result (Unit {0}) TrySendError)
queue = ok tt ∷ err full ∷ ok tt ∷ ok tt ∷ ok tt ∷ []

abbrev calls : List Call
calls =
    registers output
    ∷ registers output
    ∷ registers output
    ∷ closes 0
    ∷ closes 0
    ∷ submits 0 3 answers
    ∷ submits 1 4 answers
    ∷ stops true
    ∷ stops true
    ∷ []

sends :
    (run (spawn queue) calls).sent
    ≡ register 1 output ∷ register 2 output ∷ detach 1 ∷ request 2 4 answers ∷ shutdown ∷ []
unfolding run
sends = refl

run-Increasing_example : Increasing 1 (registered (run (spawn queue) calls).sent)
run-Increasing_example = run-Increasing queue calls
