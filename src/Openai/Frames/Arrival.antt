-- ===== src/Openai/Frames/Arrival.antt =====
-- internal/openai/translate_stream.go: bytes that arrive later change no frame that was cut.
use kiroxy.Prelude.{
  ℕ, ◌≡◌, refl, inl, inr, Bool, true, false, [], ◌∷◌, ◌++◌, none, some, arith, Bool-cases,
  Option-cases,
}
use kiroxy.Prelude.Bytes.{Bytes}
use kiroxy.Strings.Prefix.{has_prefix, has_prefix-append, not-has_prefix-append}
use kiroxy.Openai.Frames.{Cut, blank_line, blank_line_crlf, find_frame, split_sse_frames}

-- What may still become a blank line holds none.
find_frame-part :
    (c : ℕ) (s : Bytes)
    → has_prefix (c ∷ s) blank_line_crlf ≡ true
    → has_prefix blank_line_crlf (c ∷ s) ≡ false
    → find_frame s ≡ none
unfolding find_frame has_prefix
find_frame-part c [] h n = refl
find_frame-part c (x ∷ []) h n = ground arith
find_frame-part c (x ∷ y ∷ []) h n = ground arith
find_frame-part c (x ∷ y ∷ z ∷ []) h n = ground arith
find_frame-part c (x ∷ y ∷ z ∷ w ∷ s) h n = ground arith

find_frame-half :
    (c : ℕ) (s : Bytes)
    → has_prefix (c ∷ s) blank_line ≡ true
    → has_prefix blank_line (c ∷ s) ≡ false
    → find_frame s ≡ none
unfolding find_frame has_prefix
find_frame-half c [] h n = refl
find_frame-half c (x ∷ []) h n = ground arith
find_frame-half c (x ∷ y ∷ s) h n = ground arith

pub find_frame-append :
    (s t : Bytes) (cut : Cut) → find_frame s ≡ some cut → find_frame (s ++ t) ≡ some cut
unfolding find_frame
find_frame-append [] t cut h = absurd cc
find_frame-append (c ∷ s) t cut h = elim (Bool-cases (has_prefix blank_line (c ∷ s))) [
  | inl y ↦ rw (find_frame, has_prefix-append blank_line (c ∷ s) t y) (rw (find_frame, y) at h)
  | inr n ↦ elim (Bool-cases (has_prefix blank_line_crlf (c ∷ s))) [
    | inl y ↦ ground (arith, has_prefix-append blank_line_crlf (c ∷ s) t y)
    | inr m ↦ elim (Option-cases (find_frame s)) [
      | inl e ↦ absurd (ground (arith, n, m, e))
      | inr (cut', e) ↦
          let half : has_prefix (c ∷ s) blank_line ≡ false = ground (arith, find_frame-half c s) in
          let part : has_prefix (c ∷ s) blank_line_crlf ≡ false =
            ground (arith, find_frame-part c s) in
          let n' = (not-has_prefix-append blank_line (c ∷ s) t n half).0 in
          let m' = (not-has_prefix-append blank_line_crlf (c ∷ s) t m part).0 in
          ground (arith, n, m, e, n', m', find_frame-append s t cut' e)
    ]
  ]
]

-- A frame that is cut before the end of the stream is the same whatever bytes follow, at the end or not.
pub split_sse_frames-append :
    (s t : Bytes) (at_eof : Bool) (cut : Cut)
    → split_sse_frames s false ≡ some cut
    → split_sse_frames (s ++ t) at_eof ≡ some cut
unfolding split_sse_frames
split_sse_frames-append s t at_eof cut h = elim (Option-cases (find_frame s)) [
  | inl e ↦ absurd (ground (arith, e))
  | inr (c, e) ↦ ground (arith, e, find_frame-append s t c e)
]
