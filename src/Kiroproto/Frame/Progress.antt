-- ===== src/Kiroproto/Frame/Progress.antt =====
-- internal/kiroproto/frame.go: a frame that is read takes all of its bytes from the stream.
use kiroxy.Prelude.{
  ℕ, ◌+◌, ◌-◌, ◌≤◌, ◌≡◌, ◌⊎◌, ap, length, take, drop, length-take, length-drop, arith,
}
use kiroxy.Prelude.Bytes.{Bytes}
use kiroxy.Kiroproto.Frame.{FrameResult, frame, uint32, read_body, read_lengths, read_frame}

-- The bytes of a frame and of what follows it; none where no frame was read.
unfoldable pub bytes_read : FrameResult → ℕ
bytes_read (frame h p rest) = length h + length p + length rest + 16
bytes_read _ = 0

-- Either no frame was read, or its parts and what follows are all the bytes.
unfoldable pub Accounts : FrameResult → ℕ → Type 0
Accounts r n = (bytes_read r ≡ 0) ⊎ (bytes_read r ≡ n)

module _ (checksum : Bytes → ℕ) where
  read_body-Accounts :
      (pre : Bytes) (len headers_len : ℕ) (body : Bytes)
      → 4 ≤ len
      → headers_len ≤ len - 4
      → Accounts (read_body checksum pre len headers_len body) (length body + 12)
  unfolding Accounts bytes_read read_body
  read_body-Accounts pre len headers_len body h k =
      let remaining = take len body in
      let content = take (len - 4) remaining in
      ground (
        arith,
        h,
        k,
        length-take len body,
        length-take (len - 4) remaining,
        length-take headers_len remaining,
        length-drop headers_len content,
        length-drop len body,
      )

  read_lengths-Accounts :
      (pre : Bytes) (total headers_len : ℕ) (body : Bytes)
      → Accounts (read_lengths checksum pre total headers_len body) (length body + 12)
  unfolding Accounts bytes_read read_lengths
  read_lengths-Accounts pre total headers_len body =
      ground (arith, read_body-Accounts pre (total - 12) headers_len body)

  read_frame-Accounts : (s : Bytes) → Accounts (read_frame checksum s) (length s)
  unfolding Accounts bytes_read read_frame
  read_frame-Accounts s = ground (
    arith,
    length-drop 12 s,
    read_lengths-Accounts (take 12 s) (uint32 s) (uint32 (drop 4 s)) (drop 12 s),
  )

  -- A frame that is read, with what follows it, is as long as the bytes it was read from: 16 bytes of
  -- lengths and checksums, the headers, the payload, and the rest.
  pub read_frame-length :
      (s h p rest : Bytes)
      → read_frame checksum s ≡ frame h p rest
      → length h + length p + length rest + 16 ≡ length s
  unfolding Accounts bytes_read
  read_frame-length s h p rest e = ground (arith, ap bytes_read e, read_frame-Accounts s)
