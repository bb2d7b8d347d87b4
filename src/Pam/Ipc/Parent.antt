-- ===== src/Pam/Ipc/Parent.antt =====
-- Messages of the lock screen to its worker: written and read back, and read in one way only.
use fomalhaut.Common.{
  ℕ, ◌^◌, ◌≤◌, ◌<◌, [], ◌++◌, ok, length, contains, length-append, ◌≡◌, refl, false, arith,
}
use fomalhaut.Pam.Bytes.{Bytes, ErrorKind, Writer, to_be_bytes}
use fomalhaut.Pam.Bytes.Words.{length-to_be_bytes, from_be_bytes-to_be_bytes}
use fomalhaut.Pam.Ipc.{
  ParentMessage, prepare, begin, answer, max_username_bytes, max_answer_bytes, validate_text,
  decode_text, write_frame, write_parent_message, decode_answer, decode_parent, read_parent_message,
}
use fomalhaut.Pam.Ipc.Frames.{
  frame, take-append_of, drop-append_of, write_frame_lem, read_frame-frame,
}
use fomalhaut.Pam.Ipc.Texts.{IsText, rotate_off_lem}

abbrev pub tag_of : ParentMessage → ℕ
tag_of (prepare username) = 1
tag_of begin = 2
tag_of (answer p response) = 3

abbrev pub payload_of : ParentMessage → Bytes
payload_of (prepare username) = username
payload_of begin = []
payload_of (answer p response) = to_be_bytes 8 p ++ response

-- What may be sent: a name of 1 to 256 bytes, or an answer of at most 16384 bytes with no NUL.
abbrev pub Carries : ParentMessage → Type 0
Carries (prepare username) = (1 ≤ length username) × IsText max_username_bytes username
Carries begin = Unit
Carries (answer p response) = (length response ≤ max_answer_bytes) × (contains 0 response ≡ false)

-- The type u64 of a prompt.
abbrev pub IsU64 : ParentMessage → Type 0
IsU64 (answer p response) = p < 256 ^ 8
IsU64 _ = Unit

write_parent_message_lem :
    (w : Writer) (m : ParentMessage) {w' : Writer}
    → write_parent_message w m ≡ ok w'
    → Carries m × (write_frame w (tag_of m) (payload_of m) ≡ ok w')
unfolding write_parent_message validate_text
write_parent_message_lem w (prepare username) h = ground arith
write_parent_message_lem w begin h = (tt, h)
write_parent_message_lem w (answer p response) h = ground arith

decode_answer_lem :
    (p : ℕ) (response : Bytes)
    → p < 256 ^ 8
    → contains 0 response ≡ false
    → decode_answer (to_be_bytes 8 p ++ response) ≡ ok (answer p response)
unfolding decode_answer
decode_answer_lem p response u h =
    let eight = length-to_be_bytes 8 p in
    rw (
      rotate_off_lem (to_be_bytes 8 p ++ response),
      drop-append_of 8 (to_be_bytes 8 p) response eight,
      take-append_of 8 (to_be_bytes 8 p) response eight,
      from_be_bytes-to_be_bytes 8 p u,
      h,
    )

decode_parent-payload_of :
    (m : ParentMessage) → IsU64 m → Carries m → decode_parent (tag_of m) (payload_of m) ≡ ok m
unfolding decode_parent decode_text validate_text
decode_parent-payload_of (prepare username) u h = ground arith
decode_parent-payload_of begin u h = refl
decode_parent-payload_of (answer p response) u h = ground (
  arith,
  decode_answer_lem p response u h.1,
  length-append (to_be_bytes 8 p) response,
  length-to_be_bytes 8 p,
)

-- A message that was written is read back, with what follows it on the stream left.
pub read-write_parent_message :
    (w : Writer) (m : ParentMessage) {w' : Writer} (rest : Bytes) (k : ErrorKind)
    → IsU64 m
    → write_parent_message w m ≡ ok w'
    → (bytes : Bytes) × (w'.written ≡ w.written ++ bytes)
      × (read_parent_message (record { bytes = bytes ++ rest; ending = k })
          ≡ ok (m, record { bytes = rest; ending = k }))
unfolding read_parent_message
read-write_parent_message w m rest k u h =
    let (carried, framed) = write_parent_message_lem w m h in
    let (written, small) = write_frame_lem w (tag_of m) (payload_of m) framed in
    (
      frame (tag_of m) (payload_of m),
      written,
      rw (
        read_frame-frame (tag_of m) (payload_of m) rest k small,
        decode_parent-payload_of m u carried,
      ),
    )
