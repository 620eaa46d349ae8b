-- ===== src/Messages/Upstream.antt =====
-- internal/messages/response.go: the bytes of an upstream response, through the callback that it gives
-- `ParseStream`, to what the client gets.
use kiroxy.Prelude.{
  ℕ, ◌^◌, ◌<◌, ◌≡◌, refl, sym, ap, Bool, true, false, not, if◌then◌else◌, List, [], ◌∷◌, ◌++◌,
  Option, none, some, arith, All,
}
use kiroxy.Prelude.Bytes.{Bytes}
use kiroxy.Respconv.Events.{Event}
use kiroxy.Respconv.Streaming.{Sse, Writer}
use kiroxy.Respconv.Streaming.Handler.{handle_event}
use kiroxy.Kiroproto.Frame.{FrameError, read_frame}
use kiroxy.Kiroproto.ToolUse.{idle}
use kiroxy.Kiroproto.Stream.{Decoders, StreamEnd, finished}
use kiroxy.Kiroproto.Stream.Parse.{deliver, parse_stream}
use kiroxy.Kiroproto.Stream.Delivery.{Frames, Fits, encode_stream, broken_off}
use kiroxy.Kiroproto.Stream.Events.{stream_events, parse_stream-stream_events}
use kiroxy.Messages.{
  Ending, severed, stopped, drained, Outcome, receive, respond, handle_streaming_response,
}

-- `err != nil`
abbrev pub is_error : StreamEnd → Bool
is_error finished = false
is_error _ = true

abbrev pub is_stopped : Ending → Bool
is_stopped drained = false
is_stopped _ = true

module _ (fails : List Sse → Sse → Bool) (estimate : ℕ → ℕ → ℕ) (valid : Bytes → Bool) where
  -- The callback. `streamErr` and `localStop` are the ending so far.
  unfoldable pub on_event : Event → Writer × Ending → (Writer × Ending) × Bool
  on_event e (w, severed) = ((w, severed), true)
  on_event e (w, stopped) = ((w, stopped), true)
  on_event e (w, drained) =
      let (v, stop) = handle_event fails estimate valid e w in
      if w.write_err
      then ((w, severed), true)
      else if v.write_err
      then ((v, severed), true)
      else if not stop
      then ((v, drained), false)
      else ((v, if v.acc.local_stop then stopped else severed), true)

  deliver-receive :
      (es : List Event) (w : Writer)
      → deliver on_event es (w, drained)
        ≡ (receive fails estimate valid es w, is_stopped (receive fails estimate valid es w).1)
  unfolding deliver receive on_event
  deliver-receive [] w = refl
  deliver-receive (e ∷ es) w =
      ground (arith, deliver-receive es (handle_event fails estimate valid e w).0)

  module _ (decode : Decoders) (fresh : ℕ → Bytes) (is_done : ℕ → Bool) (checksum : Bytes → ℕ) where
    -- `handleStreamingResponse`, on the bytes of the response; none when the parser does not end.
    unfoldable pub stream_response : Bytes → Writer → Option (Writer × Outcome)
    unfolding on_event respond
    stream_response bytes w =
        elim (parse_stream on_event decode fresh checksum is_done bytes (w, drained)) [
          | none ↦ none
          | some (p, end) ↦ some (respond fails estimate valid (is_error end) p)
        ]

    -- A parser that was stopped reports no error, and none matters then.
    respond-stopped :
        (w : Writer) (end : Ending) (failed : Bool)
        → is_stopped end ≡ true
        → respond fails estimate valid failed (w, end) ≡ respond fails estimate valid false (w, end)
    unfolding respond
    respond-stopped w severed failed h = refl
    respond-stopped w stopped failed h = refl
    respond-stopped w drained failed h = cc

    respond-deliver_all :
        (p : Writer × Ending) (x : StreamEnd)
        → respond fails estimate valid (is_error (if is_stopped p.1 then finished else x)) p
          ≡ respond fails estimate valid (is_error x) p
    respond-deliver_all (w, severed) x = sym (respond-stopped w severed (is_error x) refl)
    respond-deliver_all (w, stopped) x = sym (respond-stopped w stopped (is_error x) refl)
    respond-deliver_all (w, drained) x = refl

    -- For a checksum of 32 bits and frames within the size limit, behind which the stream ends or
    -- breaks off: what the client gets for the bytes is what it gets for the events of the frames, read
    -- to their end or to an error of the stream.
    pub stream_response-events :
        (end : Option FrameError) (fs : Frames) (tail : Bytes) (w : Writer)
        → read_frame checksum tail ≡ broken_off end
        → ((t : Bytes) → checksum t < 2 ^ 32)
        → All Fits fs
        → let (es, x) = stream_events decode fresh is_done end 0 fs idle in
          stream_response (encode_stream checksum fs ++ tail) w
          ≡ some (handle_streaming_response fails estimate valid (is_error x) es w)
    unfolding stream_response handle_streaming_response
    stream_response-events end fs tail w breaks small fits =
        let (es, x) = stream_events decode fresh is_done end 0 fs idle in
        rw
          (
            stream_response,
            parse_stream-stream_events decode fresh is_done on_event checksum end fs tail
                (w, drained) breaks small fits,
            deliver-receive es w,
          )
          (ap some (respond-deliver_all (receive fails estimate valid es w) x))
