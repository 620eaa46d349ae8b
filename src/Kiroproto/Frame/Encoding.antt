-- ===== src/Kiroproto/Frame/Encoding.antt =====
-- internal/kiroproto/frame.go against the format of a frame: the lengths of the frame and of its
-- headers, a checksum of the two, the headers, the payload, and a checksum of all before it.
use kiroxy.Prelude.{
  ℕ, zero, suc, ◌+◌, ◌-◌, ◌/◌, ◌%◌, ◌^◌, ◌≤◌, ◌<◌, ◌≡◌, refl, ap, ◌∙◌, false, ltb, [], ◌∷◌, ◌++◌,
  length, take, drop, length-append, append_assoc, arith, ==_self,
}
use kiroxy.Prelude.Bytes.{Bytes, is_empty}
use kiroxy.Kiroproto.Frame.{
  max_frame_size, FrameResult, uint32, read_body, read_lengths, read_frame,
}

-- Four bytes, the highest first.
abbrev pub bytes4 : ℕ → Bytes
bytes4 n = n / 2 ^ 24 % 256 ∷ n / 2 ^ 16 % 256 ∷ n / 2 ^ 8 % 256 ∷ n % 256 ∷ []

uint32-bytes4 : (n : ℕ) (s : Bytes) → n < 2 ^ 32 → uint32 (bytes4 n ++ s) ≡ n
unfolding uint32
uint32-bytes4 n s h = omega arith

-- Where the first part of a string ends.
pub take_at : (n : ℕ) (xs ys : Bytes) → n ≡ length xs → take n (xs ++ ys) ≡ xs
take_at zero [] ys h = refl
take_at zero (x ∷ xs) ys h = ground (arith, h)
take_at (suc n) [] ys h = ground (arith, h)
take_at (suc n) (x ∷ xs) ys h = ap (◌∷◌ x) (take_at n xs ys (omega (arith, h)))

pub drop_at : (n : ℕ) (xs ys : Bytes) → n ≡ length xs → drop n (xs ++ ys) ≡ ys
drop_at zero [] ys h = refl
drop_at zero (x ∷ xs) ys h = ground (arith, h)
drop_at (suc n) [] ys h = ground (arith, h)
drop_at (suc n) (x ∷ xs) ys h = drop_at n xs ys (omega (arith, h))

module _ (checksum : Bytes → ℕ) where
  abbrev pub prelude : Bytes → Bytes → Bytes
  prelude h p =
      let lengths = bytes4 (length h + length p + 16) ++ bytes4 (length h) in
      lengths ++ bytes4 (checksum lengths)

  abbrev pub encode_frame : Bytes → Bytes → Bytes
  encode_frame h p = let covered = prelude h p ++ (h ++ p) in covered ++ bytes4 (checksum covered)

  read_body-encode :
      (pre h p rest : Bytes)
      → checksum (pre ++ (h ++ p)) < 2 ^ 32
      → read_body checksum pre
          (length h + length p + 4)
          (length h)
          (((h ++ p) ++ bytes4 (checksum (pre ++ (h ++ p)))) ++ rest)
        ≡ FrameResult.frame h p rest
  unfolding read_body
  read_body-encode pre h p rest small =
      let len = length h + length p + 4 in
      let w = bytes4 (checksum (pre ++ (h ++ p))) in
      let count = length-append h p in
      let counted = length-append (h ++ p) w in
      let remaining = take_at len ((h ++ p) ++ w) rest (omega (arith, count, counted)) in
      let enough : ltb (length (((h ++ p) ++ w) ++ rest)) len ≡ false =
        ground (arith, count, counted, length-append ((h ++ p) ++ w) rest) in
      let content = take_at (len - 4) (h ++ p) w (omega (arith, count)) in
      let sum = drop_at (len - 4) (h ++ p) w (omega (arith, count)) in
      let headers : take (length h) ((h ++ p) ++ w) ≡ h =
        ap (take (length h)) (append_assoc h p w) ∙ take_at (length h) h (p ++ w) refl in
      rw
        (
          read_body,
          enough,
          remaining,
          content,
          sum,
          uint32-bytes4 (checksum (pre ++ (h ++ p))) [] small,
          ==_self (checksum (pre ++ (h ++ p))),
          headers,
          drop_at (length h) h p refl,
          drop_at len ((h ++ p) ++ w) rest (omega (arith, count, counted)),
        )
        refl

  read_lengths-encode :
      (pre h p rest : Bytes)
      → checksum (pre ++ (h ++ p)) < 2 ^ 32
      → length h + length p + 16 ≤ max_frame_size
      → read_lengths checksum pre
          (length h + length p + 16)
          (length h)
          (((h ++ p) ++ bytes4 (checksum (pre ++ (h ++ p)))) ++ rest)
        ≡ FrameResult.frame h p rest
  unfolding read_lengths
  read_lengths-encode pre h p rest small fits =
      let n = length h + length p + 16 in
      let large_enough : ltb n 16 ≡ false = ground arith in
      let small_enough : ltb max_frame_size n ≡ false = ground (arith, fits) in
      let room : ltb (n - 12 - 4) (length h) ≡ false = ground arith in
      let len : n - 12 ≡ length h + length p + 4 = omega arith in
      rw (read_lengths, large_enough, small_enough, room, len) (read_body-encode pre h p rest small)

  -- What is encoded is read back, with what follows it left, for a checksum of 32 bits and a frame
  -- within the size limit.
  pub read_frame-encode_frame :
      (h p rest : Bytes)
      → ((s : Bytes) → checksum s < 2 ^ 32)
      → length h + length p + 16 ≤ max_frame_size
      → read_frame checksum (encode_frame h p ++ rest) ≡ FrameResult.frame h p rest
  unfolding read_frame is_empty
  read_frame-encode_frame h p rest small fits =
      let n = length h + length p + 16 in
      let lengths = bytes4 n ++ bytes4 (length h) in
      let body = ((h ++ p) ++ bytes4 (checksum (prelude h p ++ (h ++ p)))) ++ rest in
      let behind : Bytes = bytes4 (checksum lengths) ++ body in
      let enough : ltb (length (lengths ++ behind)) 12 ≡ false = ground arith in
      rw
        (
          read_frame,
          enough,
          uint32-bytes4 (checksum lengths) body (small lengths),
          ==_self (checksum lengths),
          uint32-bytes4 n (bytes4 (length h) ++ behind) (omega (arith, fits)),
          uint32-bytes4 (length h) behind (omega (arith, fits)),
        )
        (read_lengths-encode (prelude h p) h p rest (small (prelude h p ++ (h ++ p))) fits)
