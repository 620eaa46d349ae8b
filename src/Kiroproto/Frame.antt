-- ===== src/Kiroproto/Frame.antt =====
-- internal/kiroproto/frame.go: one frame of the AWS event stream, read from the bytes that are left. The
-- checksum is a parameter.
pub mod Encoding
pub mod Progress
use kiroxy.Prelude.{
  ℕ, zero, suc, ◌+◌, ◌-◌, ◌*◌, ◌^◌, Bool, true, false, not, ltb, ◌==◌, if◌then◌else◌, [], ◌∷◌, ◌++◌,
  length, take, drop,
}
use kiroxy.Prelude.Bytes.{Bytes, is_empty}

abbrev pub max_frame_size : ℕ
max_frame_size = 4 * 1024 * 1024

-- The errors of `readFrame`, in the order in which they are looked for.
pub data FrameError : Type 0 where
  truncated_prelude prelude_crc too_small too_large headers_length truncated_body message_crc :
      FrameError

-- The end of the stream, an error, or the headers, the payload and the bytes that follow.
pub data FrameResult : Type 0 where
  end_of_stream : FrameResult
  bad : FrameError → FrameResult
  frame : Bytes → Bytes → Bytes → FrameResult

-- `binary.BigEndian.Uint32`, on four bytes at least.
unfoldable pub uint32 : Bytes → ℕ
uint32 (a ∷ b ∷ c ∷ d ∷ s) = a * 2 ^ 24 + b * 2 ^ 16 + c * 2 ^ 8 + d
uint32 _ = 0

module _ (checksum : Bytes → ℕ) where
  -- The body, of `len` bytes with the checksum at its end, behind its prelude.
  unfoldable pub read_body : Bytes → ℕ → ℕ → Bytes → FrameResult
  unfolding uint32
  read_body prelude len headers_len body =
      let remaining = take len body in
      let content = take (len - 4) remaining in
      if ltb (length body) len
      then bad truncated_body
      else if not (checksum (prelude ++ content) == uint32 (drop (len - 4) remaining))
      then bad message_crc
      else frame (take headers_len remaining) (drop headers_len content) (drop len body)

  -- The lengths of the prelude. They are unsigned, and a total of 16 leaves the body 4 bytes.
  unfoldable pub read_lengths : Bytes → ℕ → ℕ → Bytes → FrameResult
  unfolding read_body
  read_lengths prelude total headers_len body =
      if ltb total 16
      then bad too_small
      else if ltb max_frame_size total
      then bad too_large
      else if ltb (total - 12 - 4) headers_len
      then bad headers_length
      else read_body prelude (total - 12) headers_len body

  unfoldable pub read_frame : Bytes → FrameResult
  unfolding uint32 read_lengths
  read_frame s =
      if is_empty s
      then end_of_stream
      else if ltb (length s) 12
      then bad truncated_prelude
      else if not (checksum (take 8 s) == uint32 (drop 8 s))
      then bad prelude_crc
      else read_lengths (take 12 s) (uint32 s) (uint32 (drop 4 s)) (drop 12 s)
