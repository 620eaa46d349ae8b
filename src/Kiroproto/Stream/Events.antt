-- ===== src/Kiroproto/Stream/Events.antt =====
-- internal/kiroproto/eventstream.go: the events of a stream, whatever the callback does with them.
use kiroxy.Prelude.{
  ℕ, ◌+◌, ◌^◌, ◌<◌, ◌≡◌, refl, sym, ap, ◌∙◌, inl, inr, Bool, true, false, if◌then◌else◌, List, [],
  ◌∷◌, ◌++◌, Option, none, some, Bool-cases, Option-cases, arith, All,
}
use kiroxy.Prelude.Bytes.{Bytes}
use kiroxy.Kiroproto.Frame.{FrameError, read_frame}
use kiroxy.Kiroproto.ToolUse.{ToolState, idle, flush}
use kiroxy.Kiroproto.Stream.{
  Decoders, Decoded, StreamEnd, finished, cancelled, bad_frame, bad_payload, decode_frame, events,
  last, decode_error, tool_event,
}
use kiroxy.Kiroproto.Stream.Parse.{deliver, flush_stream, parse_stream}
use kiroxy.Kiroproto.Stream.Delivery.{
  Frames, Fits, encode_stream, broken_off, run_frame, run_end, run_frames, parse_stream-run_frames,
}
use kiroxy.Respconv.Events.{Event}

module _ (decode : Decoders) (fresh : ℕ → Bytes) (is_done : ℕ → Bool) where
  -- The events of one frame, with those of the frames behind it, and the end of the stream.
  abbrev pub then_events : Decoded → (ToolState → List Event × StreamEnd) → List Event × StreamEnd
  then_events (last e) next = (e ∷ [], finished)
  then_events (decode_error t) next = ([], bad_payload t)
  then_events (events es b) next = let (fs, x) = next b in (es ++ fs, x)

  abbrev pub end_events : Option FrameError → ToolState → List Event × StreamEnd
  end_events none a = (elim (flush a).1 [ none ↦ [] | some c ↦ tool_event c ∷ [] ], finished)
  end_events (some e) a = ([], bad_frame e)

  -- The events of the frames, from frame `n` on.
  unfoldable pub stream_events : Option FrameError → ℕ → Frames → ToolState → List Event × StreamEnd
  stream_events end n [] a = elim (is_done n) [ true ↦ ([], cancelled) | false ↦ end_events end a ]
  stream_events end n ((h, p) ∷ fs) a = elim (is_done n) [
    | true ↦ ([], cancelled)
    | false ↦ then_events (decode_frame decode fresh n h p a) (stream_events end (n + 1) fs)
  ]

  module _ {S : Type 0} (callback : Event → S → S × Bool) where
    -- The events delivered, up to a stop; a parser that was stopped has no error.
    abbrev pub deliver_all : List Event × StreamEnd → S → S × StreamEnd
    deliver_all (es, x) s =
        let (t, stop) = deliver callback es s in (t, if stop then finished else x)

    deliver_one :
        (e : Event) (s : S) → deliver_all (e ∷ [], finished) s ≡ ((callback e s).0, finished)
    unfolding deliver
    deliver_one e s = elim (Bool-cases (callback e s).1) [
      | inl h ↦ rw (h) refl
      | inr h ↦ rw (h) refl
    ]

    deliver-append_stopped :
        (es fs : List Event) (s : S)
        → (deliver callback es s).1 ≡ true
        → deliver callback (es ++ fs) s ≡ ((deliver callback es s).0, true)
    unfolding deliver
    deliver-append_stopped [] fs s h = cc
    deliver-append_stopped (e ∷ es) fs s h =
        ground (arith, deliver-append_stopped es fs (callback e s).0)

    deliver-append :
        (es fs : List Event) (s : S)
        → (deliver callback es s).1 ≡ false
        → deliver callback (es ++ fs) s ≡ deliver callback fs (deliver callback es s).0
    unfolding deliver
    deliver-append [] fs s h = refl
    deliver-append (e ∷ es) fs s h = ground (arith, deliver-append es fs (callback e s).0)

    run_end-events :
        (end : Option FrameError) (a : ToolState) (s : S)
        → run_end callback end a s ≡ deliver_all (end_events end a) s
    unfolding flush_stream deliver
    run_end-events none a s = elim (Option-cases (flush a).1) [
      | inl e ↦ rw (run_end, flush_stream, end_events, e) refl
      | inr (c, e) ↦ rw (run_end, flush_stream, end_events, e) (sym (deliver_one (tool_event c) s))
    ]
    run_end-events (some e) a s = refl

    run_frame-events :
        (d : Decoded) (s : S) (run : ToolState → S → S × StreamEnd)
        (next : ToolState → List Event × StreamEnd)
        → ((a : ToolState) (t : S) → run a t ≡ deliver_all (next a) t)
        → run_frame callback d s run ≡ deliver_all (then_events d next) s
    unfolding run_frame deliver
    run_frame-events (last e) s run next h = sym (deliver_one e s)
    run_frame-events (decode_error t) s run next h = refl
    run_frame-events (events es b) s run next h =
        let (fs, x) = next b in
        elim (Bool-cases (deliver callback es s).1) [
          | inl e ↦ rw (run_frame, e, deliver_all, deliver-append_stopped es fs s e) refl
          | inr e ↦
              rw (run_frame, e, deliver_all, deliver-append es fs s e)
                (h b (deliver callback es s).0)
        ]

    run_frames-events :
        (end : Option FrameError) (n : ℕ) (fs : Frames) (a : ToolState) (s : S)
        (checksum : Bytes → ℕ)
        → run_frames callback decode fresh checksum is_done end n fs a s
          ≡ deliver_all (stream_events end n fs a) s
    unfolding run_frames stream_events deliver
    run_frames-events end n [] a s checksum = elim (Bool-cases (is_done n)) [
      | inl d ↦ rw (run_frames, stream_events, d) refl
      | inr d ↦ rw (run_frames, stream_events, d) (run_end-events end a s)
    ]
    run_frames-events end n ((h, p) ∷ fs) a s checksum = elim (Bool-cases (is_done n)) [
      | inl d ↦ rw (run_frames, stream_events, d) refl
      | inr d ↦
          rw (run_frames, stream_events, d)
            (run_frame-events (decode_frame decode fresh n h p a) s _ _
              λ b t. run_frames-events end (n + 1) fs b t checksum)
    ]

    -- For a checksum of 32 bits and frames within the size limit, behind which the stream ends or
    -- breaks off: the callback gets the events that the frames make, in their order, until it asks to
    -- stop. If it never does, the end is that of the stream: an error where a payload, a frame or the
    -- context was bad, and otherwise none.
    pub parse_stream-stream_events :
        (checksum : Bytes → ℕ) (end : Option FrameError) (fs : Frames) (tail : Bytes) (s : S)
        → read_frame checksum tail ≡ broken_off end
        → ((t : Bytes) → checksum t < 2 ^ 32)
        → All Fits fs
        → parse_stream callback decode fresh checksum is_done (encode_stream checksum fs ++ tail) s
          ≡ some (deliver_all (stream_events end 0 fs idle) s)
    parse_stream-stream_events checksum end fs tail s breaks small fits =
        parse_stream-run_frames callback decode fresh checksum is_done end tail breaks small fs s
          fits
        ∙ ap some (run_frames-events end 0 fs idle s checksum)
