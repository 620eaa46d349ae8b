-- ===== src/Kiroproto/Stream/Delivery.antt =====
-- internal/kiroproto/eventstream.go: what `ParseStream` does with the bytes of a stream is what it does
-- with the frames that were encoded into them.
use kiroxy.Prelude.{
  ℕ, zero, suc, ◌+◌, ◌^◌, ◌≤◌, ◌<◌, ◌≡◌, refl, ap, ◌∙◌, inl, inr, Bool, true, false, List, [], ◌∷◌,
  ◌++◌, Option, none, some, length, Bool-cases, arith, All, append_assoc, length-append,
}
use kiroxy.Prelude.Bytes.{Bytes}
use kiroxy.Kiroproto.Frame.{
  max_frame_size, FrameError, FrameResult, end_of_stream, bad, frame, read_frame,
}
use kiroxy.Kiroproto.Frame.Encoding.{encode_frame, read_frame-encode_frame}
use kiroxy.Kiroproto.ToolUse.{ToolState, idle}
use kiroxy.Kiroproto.Stream.{
  Decoders, Decoded, StreamEnd, finished, cancelled, bad_frame, bad_payload, decode_frame, events,
  last, decode_error,
}
use kiroxy.Kiroproto.Stream.Parse.{deliver, flush_stream, after_frame, parse_loop, parse_stream}
use kiroxy.Respconv.Events.{Event}

abbrev pub Frames : Type 0
Frames = List (Bytes × Bytes)

abbrev pub encode_stream : (Bytes → ℕ) → Frames → Bytes
encode_stream checksum [] = []
encode_stream checksum ((h, p) ∷ fs) = encode_frame checksum h p ++ encode_stream checksum fs

-- The stream ends, or breaks off with an error.
abbrev pub broken_off : Option FrameError → FrameResult
broken_off none = end_of_stream
broken_off (some e) = bad e

-- A frame is within the size limit.
abbrev pub Fits : Bytes × Bytes → Type 0
Fits (h, p) = length h + length p + 16 ≤ max_frame_size

module _ {S : Type 0} (callback : Event → S → S × Bool) where
  -- The frames without their bytes.
  unfoldable pub run_frame : Decoded → S → (ToolState → S → S × StreamEnd) → S × StreamEnd
  run_frame (last e) s next = ((callback e s).0, finished)
  run_frame (decode_error t) s next = (s, bad_payload t)
  run_frame (events es b) s next =
      let (t, stop) = deliver callback es s in elim stop [ true ↦ (t, finished) | false ↦ next b t ]

  abbrev pub run_end : Option FrameError → ToolState → S → S × StreamEnd
  run_end none a s = flush_stream callback a s
  run_end (some e) a s = (s, bad_frame e)

  after_frame-run_frame :
      (d : Decoded) (s : S) (next : ToolState → S → Option (S × StreamEnd))
      (run : ToolState → S → S × StreamEnd)
      → ((a : ToolState) (t : S) → next a t ≡ some (run a t))
      → after_frame callback d s next ≡ some (run_frame d s run)
  unfolding after_frame run_frame
  after_frame-run_frame (last e) s next run h = refl
  after_frame-run_frame (decode_error t) s next run h = refl
  after_frame-run_frame (events es b) s next run h = elim (Bool-cases (deliver callback es s).1) [
    | inl e ↦ rw (after_frame, run_frame, e) refl
    | inr e ↦ rw (after_frame, run_frame, e) (h b (deliver callback es s).0)
  ]

  module _ (decode : Decoders) (fresh : ℕ → Bytes) (checksum : Bytes → ℕ) (is_done : ℕ → Bool) where
    unfoldable pub run_frames : Option FrameError → ℕ → Frames → ToolState → S → S × StreamEnd
    unfolding run_frame
    run_frames end n [] a s = elim (is_done n) [ true ↦ (s, cancelled) | false ↦ run_end end a s ]
    run_frames end n ((h, p) ∷ fs) a s = elim (is_done n) [
      | true ↦ (s, cancelled)
      | false ↦ run_frame (decode_frame decode fresh n h p a) s (run_frames end (n + 1) fs)
    ]

    module _ (end : Option FrameError) (tail : Bytes)
        (breaks : read_frame checksum tail ≡ broken_off end)
        (small : (s : Bytes) → checksum s < 2 ^ 32) where
      end-run_end :
          (fuel n : ℕ) (a : ToolState) (s : S) (x : Option FrameError)
          → read_frame checksum tail ≡ broken_off x
          → is_done n ≡ false
          → parse_loop callback decode fresh checksum is_done (suc fuel) n tail a s
            ≡ some (run_end x a s)
      unfolding parse_loop
      end-run_end fuel n a s none e d = rw (parse_loop, d, e) refl
      end-run_end fuel n a s (some x) e d = rw (parse_loop, d, e) refl

      read_first :
          (h p : Bytes) (fs : Frames)
          → Fits (h, p)
          → read_frame checksum (encode_stream checksum ((h, p) ∷ fs) ++ tail)
            ≡ frame h p (encode_stream checksum fs ++ tail)
      read_first h p fs fits =
          ap (read_frame checksum)
            (append_assoc (encode_frame checksum h p) (encode_stream checksum fs) tail)
          ∙ read_frame-encode_frame checksum h p (encode_stream checksum fs ++ tail) small fits

      parse_loop-run_frames :
          (fuel n : ℕ) (fs : Frames) (a : ToolState) (s : S)
          → All Fits fs
          → length fs < fuel
          → parse_loop callback decode fresh checksum is_done fuel n
              (encode_stream checksum fs ++ tail)
              a
              s
            ≡ some (run_frames end n fs a s)
      unfolding parse_loop run_frames
      parse_loop-run_frames zero n fs a s fits k = absurd (omega (arith, k))
      parse_loop-run_frames (suc fuel) n [] a s fits k = elim (Bool-cases (is_done n)) [
        | inl d ↦ rw (parse_loop, run_frames, d) refl
        | inr d ↦ rw (run_frames, d) (end-run_end fuel n a s end breaks d)
      ]
      parse_loop-run_frames (suc fuel) n ((h, p) ∷ fs) a s fits k = elim (Bool-cases (is_done n)) [
        | inl d ↦ rw (parse_loop, run_frames, d) refl
        | inr d ↦
            rw (parse_loop, run_frames, d, read_first h p fs fits.0)
              (after_frame-run_frame (decode_frame decode fresh n h p a) s _ _
                λ b t. parse_loop-run_frames fuel (n + 1) fs b t fits.1 (omega (arith, k)))
      ]

      encode_stream-length : (fs : Frames) → length fs ≤ length (encode_stream checksum fs ++ tail)
      encode_stream-length [] = omega arith
      encode_stream-length ((h, p) ∷ fs) = omega (
        arith,
        encode_stream-length fs,
        ap length (append_assoc (encode_frame checksum h p) (encode_stream checksum fs) tail),
        length-append (encode_frame checksum h p) (encode_stream checksum fs ++ tail),
      )

      -- For a checksum of 32 bits and frames within the size limit: parsing the encoded frames, behind
      -- which the stream ends or breaks off, is the run over the frames themselves, with that end.
      pub parse_stream-run_frames :
          (fs : Frames) (s : S)
          → All Fits fs
          → parse_stream callback decode fresh checksum is_done
              (encode_stream checksum fs ++ tail)
              s
            ≡ some (run_frames end 0 fs idle s)
      unfolding parse_stream
      parse_stream-run_frames fs s fits =
          parse_loop-run_frames (length (encode_stream checksum fs ++ tail) + 1) 0 fs idle s fits
            (omega (arith, encode_stream-length fs))
