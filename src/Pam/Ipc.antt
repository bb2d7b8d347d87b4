-- ===== src/Pam/Ipc.antt =====
-- crates/fomalhaut-pam/src/ipc.rs: the frames between the lock screen and its PAM worker.
-- A payload that is wiped after use (`fill(0)`) is not kept.
pub mod Frames
pub mod Texts
pub mod Parent
pub mod ParentCanonical
pub mod Worker
pub mod WorkerCanonical
use fomalhaut.Common.{
  ℕ, ◌+◌, ◌-◌, ◌^◌, Bool, true, false, not, ◌&&◌, ◌||◌, List, [], ◌∷◌, ◌++◌, Result, ok, err, ◌>=>◌,
  map_err, ltb, leb, ◌==◌, if◌then◌else◌, length, is_empty, take, drop, contains,
}
use fomalhaut.Pam.Bytes.{
  Bytes, ErrorKind, unexpected_eof, broken_pipe, connection_reset, other, Reader, Writer,
  to_be_bytes, from_be_bytes, is_utf8, read_exact, write_all, flush,
}

abbrev pub max_username_bytes : ℕ
max_username_bytes = 256

abbrev pub max_prompt_bytes : ℕ
max_prompt_bytes = 4096

abbrev pub max_answer_bytes : ℕ
max_answer_bytes = 16384

abbrev pub max_transaction_frames : ℕ
max_transaction_frames = 128

abbrev pub header_bytes : ℕ
header_bytes = 5

-- MAX_ANSWER_BYTES + 8
abbrev pub max_frame_bytes : ℕ
max_frame_bytes = 16392

pub data ParentMessage : Type 0 where
  prepare : Bytes → ParentMessage
  begin : ParentMessage
  answer : ℕ → Bytes → ParentMessage

pub data WorkerPromptKind : Type 0 where
  secret visible : WorkerPromptKind

pub data WorkerMessageLevel : Type 0 where
  info error : WorkerMessageLevel

pub data WorkerMessage : Type 0 where
  ready : WorkerMessage
  prompt : ℕ → WorkerPromptKind → Bytes → WorkerMessage
  message : WorkerMessageLevel → Bytes → WorkerMessage
  authenticated rejected fatal : WorkerMessage

pub data IpcError : Type 0 where
  disconnected io invalid_frame limit_exceeded : IpcError

-- The tags: PREPARE 1, BEGIN 2, ANSWER 3, READY 16, PROMPT_SECRET 17, PROMPT_VISIBLE 18,
-- MESSAGE_INFO 19, MESSAGE_ERROR 20, AUTHENTICATED 21, REJECTED 22, FATAL 23.
abbrev pub prompt_tag : WorkerPromptKind → ℕ
prompt_tag secret = 17
prompt_tag visible = 18

abbrev pub message_tag : WorkerMessageLevel → ℕ
message_tag info = 19
message_tag error = 20

unfoldable pub classify_io : ErrorKind → IpcError
classify_io unexpected_eof = disconnected
classify_io broken_pipe = disconnected
classify_io connection_reset = disconnected
classify_io other = io

unfoldable pub validate_text : Bytes → ℕ → Bool → Result (Unit {0}) IpcError
validate_text value maximum allow_empty =
    if (not allow_empty && is_empty value) || ltb maximum (length value) || contains 0 value
    then err limit_exceeded
    else if is_utf8 value
    then ok tt
    else err invalid_frame

-- `String::from_utf8` keeps the bytes.
unfoldable pub decode_text : Bytes → ℕ → Bool → Result Bytes IpcError
decode_text payload maximum allow_empty = validate_text payload maximum allow_empty >=> λ _.
    if is_utf8 payload then ok payload else err invalid_frame

-- `u32::try_from` of the length, then the header, the payload, and `flush`.
unfoldable pub write_frame : Writer → ℕ → Bytes → Result Writer IpcError
write_frame writer tag payload =
    if ltb max_frame_bytes (length payload)
    then err limit_exceeded
    else if leb 4294967296 (length payload)
    then err limit_exceeded
    else map_err classify_io (write_all (tag ∷ to_be_bytes 4 (length payload)) writer)
      >=> (λ w. map_err classify_io (write_all payload w))
      >=> λ w. map_err classify_io (flush w)

-- The part of `read_frame` behind the header.
abbrev pub read_payload : ℕ → ℕ → Reader → Result (ℕ × Bytes × Reader) IpcError
read_payload tag len reader =
    if ltb max_frame_bytes len
    then err limit_exceeded
    else map_err classify_io (read_exact len reader) >=> λ (payload, r). ok (tag, payload, r)

-- A header of five bytes: the tag, and the length.
abbrev pub split_header : Bytes → Reader → Result (ℕ × Bytes × Reader) IpcError
split_header [] reader = err invalid_frame
split_header (tag ∷ len) reader = read_payload tag (from_be_bytes len) reader

unfoldable pub read_frame : Reader → Result (ℕ × Bytes × Reader) IpcError
read_frame reader =
    map_err classify_io (read_exact header_bytes reader) >=> λ (header, r). split_header header r

unfoldable pub write_parent_message : Writer → ParentMessage → Result Writer IpcError
write_parent_message writer (prepare username) =
    validate_text username max_username_bytes false >=> λ _. write_frame writer 1 username
write_parent_message writer begin = write_frame writer 2 []
write_parent_message writer (answer p response) =
    if ltb max_answer_bytes (length response) || contains 0 response
    then err limit_exceeded
    else write_frame writer 3 (to_be_bytes 8 p ++ response)

-- `payload.rotate_left(8); payload.truncate(payload.len() - 8)`.
abbrev pub rotate_off : Bytes → Bytes
rotate_off payload = take (length payload - 8) (drop 8 payload ++ take 8 payload)

unfoldable pub decode_answer : Bytes → Result ParentMessage IpcError
decode_answer payload =
    if contains 0 (rotate_off payload)
    then err invalid_frame
    else ok (answer (from_be_bytes (take 8 payload)) (rotate_off payload))

unfoldable pub decode_parent : ℕ → Bytes → Result ParentMessage IpcError
decode_parent tag payload =
    if tag == 1
    then decode_text payload max_username_bytes false >=> (λ text. ok (prepare text))
    else if tag == 2 && is_empty payload
    then ok begin
    else if tag == 3 && leb 8 (length payload) && leb (length payload) max_frame_bytes
    then decode_answer payload
    else err invalid_frame

unfoldable pub read_parent_message : Reader → Result (ParentMessage × Reader) IpcError
read_parent_message reader =
    read_frame reader >=> λ (tag, payload, r). decode_parent tag payload >=> λ m. ok (m, r)

unfoldable pub write_worker_message : Writer → WorkerMessage → Result Writer IpcError
write_worker_message writer ready = write_frame writer 16 []
write_worker_message writer (prompt p kind text) = validate_text text max_prompt_bytes true >=> λ _.
    write_frame writer (prompt_tag kind) (to_be_bytes 8 p ++ text)
write_worker_message writer (message level text) =
    validate_text text max_prompt_bytes true >=> λ _. write_frame writer (message_tag level) text
write_worker_message writer authenticated = write_frame writer 21 []
write_worker_message writer rejected = write_frame writer 22 []
write_worker_message writer fatal = write_frame writer 23 []

unfoldable pub decode_prompt : WorkerPromptKind → Bytes → Result WorkerMessage IpcError
decode_prompt kind payload = decode_text (drop 8 payload) max_prompt_bytes true >=> λ text.
    ok (prompt (from_be_bytes (take 8 payload)) kind text)

unfoldable pub decode_message : WorkerMessageLevel → Bytes → Result WorkerMessage IpcError
decode_message level payload =
    decode_text payload max_prompt_bytes true >=> λ text. ok (message level text)

unfoldable pub decode_worker : ℕ → Bytes → Result WorkerMessage IpcError
decode_worker tag payload =
    if tag == 16 && is_empty payload
    then ok ready
    else if (tag == 17 || tag == 18) && leb 8 (length payload)
    then decode_prompt (if tag == 17 then secret else visible) payload
    else if tag == 19 || tag == 20
    then decode_message (if tag == 19 then info else error) payload
    else if tag == 21 && is_empty payload
    then ok authenticated
    else if tag == 22 && is_empty payload
    then ok rejected
    else if tag == 23 && is_empty payload
    then ok fatal
    else err invalid_frame

unfoldable pub read_worker_message : Reader → Result (WorkerMessage × Reader) IpcError
read_worker_message reader =
    read_frame reader >=> λ (tag, payload, r). decode_worker tag payload >=> λ m. ok (m, r)
