-- ===== src/Examples/Frames.antt =====
-- Frames between the lock screen and its worker.
use fomalhaut.Common.{[], ◌∷◌, ◌++◌, ok, err, ◌≡◌, refl, arith}
use fomalhaut.Pam.Bytes.{
  Bytes, Reader, Writer, other, to_be_bytes, from_be_bytes, is_utf8, read_exact, write_all, flush,
}
use fomalhaut.Pam.Ipc.{
  ParentMessage, answer, prepare, WorkerMessage, prompt, secret, write_parent_message,
  read_parent_message, write_worker_message, read_worker_message, validate_text, write_frame,
  read_frame, decode_parent, decode_worker, decode_answer, decode_prompt, decode_text,
  limit_exceeded,
}
use fomalhaut.Pam.Ipc.Frames.{frame}
use fomalhaut.Pam.Ipc.Parent
use fomalhaut.Pam.Ipc.Parent.{read-write_parent_message}
use fomalhaut.Pam.Ipc.ParentCanonical.{read_parent_message-Decoded}
use fomalhaut.Pam.Ipc.Worker
use fomalhaut.Pam.Ipc.Worker.{read-write_worker_message}
use fomalhaut.Pam.Ipc.WorkerCanonical.{read_worker_message-Decoded}

abbrev sink : Writer
sink = record { written = []; room = 1000; ending = other; flushes = ok tt }

abbrev secret_answer : ParentMessage
secret_answer = answer 42 (b'o' ∷ b'k' ∷ [])

abbrev question : WorkerMessage
question = prompt 7 secret (b'P' ∷ b':' ∷ [])

abbrev answer_frame : Bytes
answer_frame = 3 ∷ 0 ∷ 0 ∷ 0 ∷ 10 ∷ 0 ∷ 0 ∷ 0 ∷ 0 ∷ 0 ∷ 0 ∷ 0 ∷ 42 ∷ b'o' ∷ b'k' ∷ []

abbrev question_frame : Bytes
question_frame = 17 ∷ 0 ∷ 0 ∷ 0 ∷ 10 ∷ 0 ∷ 0 ∷ 0 ∷ 0 ∷ 0 ∷ 0 ∷ 0 ∷ 7 ∷ b'P' ∷ b':' ∷ []

write_answer :
    write_parent_message sink secret_answer
    ≡ ok (record sink { written = answer_frame; room = 985 })
unfolding write_parent_message write_frame write_all flush to_be_bytes
write_answer = refl

write_question :
    write_worker_message sink question ≡ ok (record sink { written = question_frame; room = 985 })
unfolding write_worker_message write_frame write_all flush to_be_bytes validate_text is_utf8
write_question = refl

-- A name with a NUL is not sent.
write_nul : write_parent_message sink (prepare (b'a' ∷ 0 ∷ [])) ≡ err limit_exceeded
unfolding write_parent_message validate_text
write_nul = refl

abbrev input : Bytes → Reader
input bytes = record { bytes = bytes; ending = other }

read_answer :
    read_parent_message (input (answer_frame ++ 9 ∷ [])) ≡ ok (secret_answer, input (9 ∷ []))
unfolding read_parent_message read_frame read_exact from_be_bytes decode_parent decode_answer
read_answer = refl

read_question :
    read_worker_message (input (question_frame ++ 9 ∷ [])) ≡ ok (question, input (9 ∷ []))
unfolding read_worker_message read_frame read_exact from_be_bytes decode_worker decode_prompt
    decode_text validate_text is_utf8
read_question = refl

read-write_parent_message_example :
    (bytes : Bytes) × (answer_frame ≡ [] ++ bytes)
    × (read_parent_message (input (bytes ++ 9 ∷ [])) ≡ ok (secret_answer, input (9 ∷ [])))
read-write_parent_message_example =
    read-write_parent_message sink secret_answer (9 ∷ []) other (omega arith) write_answer

read-write_worker_message_example :
    (bytes : Bytes) × (question_frame ≡ [] ++ bytes)
    × (read_worker_message (input (bytes ++ 9 ∷ [])) ≡ ok (question, input (9 ∷ [])))
read-write_worker_message_example =
    read-write_worker_message sink question (9 ∷ []) other (omega arith) write_question

read_parent_message-Decoded_example :
    (answer_frame ++ 9 ∷ []
      ≡ frame (Parent.tag_of secret_answer) (Parent.payload_of secret_answer) ++ 9 ∷ [])
    × Parent.Carries secret_answer
    × Parent.IsU64 secret_answer
read_parent_message-Decoded_example =
    read_parent_message-Decoded (input (answer_frame ++ 9 ∷ [])) (omega arith) read_answer

read_worker_message-Decoded_example :
    (question_frame ++ 9 ∷ []
      ≡ frame (Worker.tag_of question) (Worker.payload_of question) ++ 9 ∷ [])
    × Worker.Carries question
    × Worker.IsU64 question
read_worker_message-Decoded_example =
    read_worker_message-Decoded (input (question_frame ++ 9 ∷ [])) (omega arith) read_question
