-- ===== src/Pam/Ipc/Worker.antt =====
-- Messages of the worker to the lock screen: written and read back
-- (crates/fomalhaut-pam/src/ipc.rs).
use fomalhaut.Common.{ℕ, ◌^◌, ◌<◌, [], ◌++◌, ok, >=>-eq-ok, length-append, ◌≡◌, refl, true, arith}
use fomalhaut.Pam.Bytes.{Bytes, ErrorKind, Writer, to_be_bytes}
use fomalhaut.Pam.Bytes.Words.{length-to_be_bytes, from_be_bytes-to_be_bytes}
use fomalhaut.Pam.Ipc.{
  WorkerMessage, ready, prompt, message, authenticated, rejected, fatal, WorkerPromptKind,
  WorkerMessageLevel, prompt_tag, message_tag, max_prompt_bytes, validate_text, write_frame,
  write_worker_message, decode_prompt, decode_message, decode_worker, read_worker_message,
}
use fomalhaut.Pam.Ipc.Frames.{
  frame, take-append_of, drop-append_of, write_frame_lem, read_frame-frame,
}
use fomalhaut.Pam.Ipc.Texts.{IsText, decode_text-IsText, validate_text-IsText}

abbrev pub tag_of : WorkerMessage → ℕ
tag_of ready = 16
tag_of (prompt p kind text) = prompt_tag kind
tag_of (message level text) = message_tag level
tag_of authenticated = 21
tag_of rejected = 22
tag_of fatal = 23

abbrev pub payload_of : WorkerMessage → Bytes
payload_of (prompt p kind text) = to_be_bytes 8 p ++ text
payload_of (message level text) = text
payload_of _ = []

-- What may be sent: a text of at most 4096 bytes of UTF-8 with no NUL.
abbrev pub Carries : WorkerMessage → Type 0
Carries (prompt p kind text) = IsText max_prompt_bytes text
Carries (message level text) = IsText max_prompt_bytes text
Carries _ = Unit

-- The type u64 of a prompt.
abbrev pub IsU64 : WorkerMessage → Type 0
IsU64 (prompt p kind text) = p < 256 ^ 8
IsU64 _ = Unit

write_worker_message_lem :
    (w : Writer) (m : WorkerMessage) {w' : Writer}
    → write_worker_message w m ≡ ok w'
    → Carries m × (write_frame w (tag_of m) (payload_of m) ≡ ok w')
unfolding write_worker_message
write_worker_message_lem w (prompt p kind text) h =
    let (u, valid, written) = >=>-eq-ok (validate_text text max_prompt_bytes true) _ h in
    (validate_text-IsText text max_prompt_bytes true valid, written)
write_worker_message_lem w (message level text) h =
    let (u, valid, written) = >=>-eq-ok (validate_text text max_prompt_bytes true) _ h in
    (validate_text-IsText text max_prompt_bytes true valid, written)
write_worker_message_lem w ready h = (tt, h)
write_worker_message_lem w authenticated h = (tt, h)
write_worker_message_lem w rejected h = (tt, h)
write_worker_message_lem w fatal h = (tt, h)

decode_prompt_lem :
    (p : ℕ) (kind : WorkerPromptKind) (text : Bytes)
    → p < 256 ^ 8
    → IsText max_prompt_bytes text
    → decode_prompt kind (to_be_bytes 8 p ++ text) ≡ ok (prompt p kind text)
unfolding decode_prompt
decode_prompt_lem p kind text u h =
    let eight = length-to_be_bytes 8 p in
    rw (
      drop-append_of 8 (to_be_bytes 8 p) text eight,
      take-append_of 8 (to_be_bytes 8 p) text eight,
      from_be_bytes-to_be_bytes 8 p u,
      decode_text-IsText text max_prompt_bytes h,
    )

decode_message_lem :
    (level : WorkerMessageLevel) (text : Bytes)
    → IsText max_prompt_bytes text
    → decode_message level text ≡ ok (message level text)
unfolding decode_message
decode_message_lem level text h = rw (decode_text-IsText text max_prompt_bytes h)

decode_worker-payload_of :
    (m : WorkerMessage) → IsU64 m → Carries m → decode_worker (tag_of m) (payload_of m) ≡ ok m
unfolding decode_worker
decode_worker-payload_of (prompt p kind text) u h = ground (
  arith,
  decode_prompt_lem p kind text u h,
  length-append (to_be_bytes 8 p) text,
  length-to_be_bytes 8 p,
)
decode_worker-payload_of (message level text) u h = ground (arith, decode_message_lem level text h)
decode_worker-payload_of ready u h = refl
decode_worker-payload_of authenticated u h = refl
decode_worker-payload_of rejected u h = refl
decode_worker-payload_of fatal u h = refl

-- A message that was written is read back, with what follows it on the stream left.
pub read-write_worker_message :
    (w : Writer) (m : WorkerMessage) {w' : Writer} (rest : Bytes) (k : ErrorKind)
    → IsU64 m
    → write_worker_message w m ≡ ok w'
    → (bytes : Bytes) × (w'.written ≡ w.written ++ bytes)
      × (read_worker_message (record { bytes = bytes ++ rest; ending = k })
          ≡ ok (m, record { bytes = rest; ending = k }))
unfolding read_worker_message
read-write_worker_message w m rest k u h =
    let (carried, framed) = write_worker_message_lem w m h in
    let (written, small) = write_frame_lem w (tag_of m) (payload_of m) framed in
    (
      frame (tag_of m) (payload_of m),
      written,
      rw (
        read_frame-frame (tag_of m) (payload_of m) rest k small,
        decode_worker-payload_of m u carried,
      ),
    )
