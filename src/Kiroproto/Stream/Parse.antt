-- ===== src/Kiroproto/Stream/Parse.antt =====
-- internal/kiroproto/eventstream.go: the loop of `ParseStream`, and that it ends.
use kiroxy.Prelude.{
  ℕ, zero, suc, ◌+◌, ◌<◌, ◌≡◌, refl, inl, inr, Bool, true, false, if◌then◌else◌, List, [], ◌∷◌,
  Option, none, some, length, Bool-cases, arith,
}
use kiroxy.Prelude.Bytes.{Bytes}
use kiroxy.Kiroproto.Frame.{FrameResult, end_of_stream, bad, frame, read_frame}
use kiroxy.Kiroproto.Frame.Progress.{read_frame-length}
use kiroxy.Kiroproto.ToolUse.{ToolState, idle, flush}
use kiroxy.Kiroproto.Stream.{
  Decoders, Decoded, StreamEnd, finished, cancelled, bad_frame, bad_payload, tool_event,
  decode_frame, events, last, decode_error,
}
use kiroxy.Respconv.Events.{Event}

module _ {S : Type 0} (callback : Event → S → S × Bool) where
  -- The events of a frame in turn, up to one at which the callback asks to stop.
  unfoldable pub deliver : List Event → S → S × Bool
  deliver [] s = (s, false)
  deliver (e ∷ es) s =
      let (t, stop) = callback e s in let rest = deliver es t in if stop then (t, true) else rest

  -- The end of the bytes; a tool call without its last frame is completed.
  unfoldable pub flush_stream : ToolState → S → S × StreamEnd
  unfolding flush
  flush_stream a s = elim (flush a).1 [
    | none ↦ (s, finished)
    | some c ↦ ((callback (tool_event c) s).0, finished)
  ]

  -- A frame that was read; `next` goes on behind it.
  unfoldable pub after_frame :
      Decoded → S → (ToolState → S → Option (S × StreamEnd)) → Option (S × StreamEnd)
  unfolding deliver
  after_frame (last e) s next = some ((callback e s).0, finished)
  after_frame (decode_error t) s next = some (s, bad_payload t)
  after_frame (events es b) s next =
      let (t, stop) = deliver es s in elim stop [ true ↦ some (t, finished) | false ↦ next b t ]

  -- `checksum` is CRC-32, and `is_done n` says that the context is cancelled before frame `n`.
  module _ (decode : Decoders) (fresh : ℕ → Bytes) (checksum : Bytes → ℕ) (is_done : ℕ → Bool) where
    -- The loop on fuel; none when it runs out.
    unfoldable pub parse_loop : ℕ → ℕ → Bytes → ToolState → S → Option (S × StreamEnd)
    unfolding after_frame flush_stream decode_frame read_frame
    parse_loop zero n bytes a s = none
    parse_loop (suc fuel) n bytes a s = elim (is_done n) [
      | true ↦ some (s, cancelled)
      | false ↦ elim (read_frame checksum bytes) [
        | end_of_stream ↦ some (flush_stream a s)
        | bad e ↦ some (s, bad_frame e)
        | frame headers p rest ↦
            after_frame (decode_frame decode fresh n headers p a) s (parse_loop fuel (n + 1) rest)
      ]
    ]

    -- `ParseStream`
    unfoldable pub parse_stream : Bytes → S → Option (S × StreamEnd)
    unfolding parse_loop
    parse_stream bytes s = parse_loop (length bytes + 1) 0 bytes idle s

    -- A loop has come to its end.
    abbrev pub Ends : Option (S × StreamEnd) → Type 0
    Ends none = ⊥
    Ends (some r) = Unit

    Ends-if :
        (stop : Bool) (t : S) (r : Option (S × StreamEnd))
        → Ends r
        → Ends (elim stop [ true ↦ some (t, finished) | false ↦ r ])
    Ends-if true t r h = _
    Ends-if false t r h = h

    -- A frame that was read, and what follows it.
    frame-Ends :
        (d : Decoded) (s : S) (next : ToolState → S → Option (S × StreamEnd))
        → ((a : ToolState) (t : S) → Ends (next a t))
        → Ends (after_frame d s next)
    unfolding after_frame
    frame-Ends (last e) s next h = _
    frame-Ends (decode_error t) s next h = _
    frame-Ends (events es b) s next h = Ends-if _ _ _ (h b _)

    round-Ends :
        (fuel n : ℕ) (bytes : Bytes) (a : ToolState) (s : S) (r : FrameResult)
        → length bytes < suc fuel
        → ((rest : Bytes) (b : ToolState) (t : S)
            → length rest < fuel
            → Ends (parse_loop fuel (n + 1) rest b t))
        → is_done n ≡ false
        → read_frame checksum bytes ≡ r
        → Ends (parse_loop (suc fuel) n bytes a s)
    unfolding parse_loop
    round-Ends fuel n bytes a s end_of_stream k next d e = rw (parse_loop, d, e) _
    round-Ends fuel n bytes a s (bad x) k next d e = rw (parse_loop, d, e) _
    round-Ends fuel n bytes a s (frame headers p rest) k next d e =
        rw (parse_loop, d, e)
          (frame-Ends (decode_frame decode fresh n headers p a) s (parse_loop fuel (n + 1) rest)
            λ b t.
              next rest b t (omega (arith, k, read_frame-length checksum bytes headers p rest e)))

    -- More fuel than bytes is enough.
    parse_loop-Ends :
        (fuel n : ℕ) (bytes : Bytes) (a : ToolState) (s : S)
        → length bytes < fuel
        → Ends (parse_loop fuel n bytes a s)
    unfolding parse_loop
    parse_loop-Ends zero n bytes a s k = absurd (omega (arith, k))
    parse_loop-Ends (suc fuel) n bytes a s k = elim (Bool-cases (is_done n)) [
      | inl d ↦ rw (parse_loop, d) _
      | inr d ↦
          round-Ends fuel n bytes a s (read_frame checksum bytes) k (parse_loop-Ends fuel (n + 1)) d
            refl
    ]

    -- The parser comes to an end on any bytes, in as many rounds as there are bytes, and one.
    pub parse_stream-Ends : (bytes : Bytes) (s : S) → Ends (parse_stream bytes s)
    unfolding parse_stream
    parse_stream-Ends bytes s = parse_loop-Ends (length bytes + 1) 0 bytes idle s (omega arith)
