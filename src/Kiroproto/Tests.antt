-- ===== src/Kiroproto/Tests.antt =====
-- Runs of internal/kiroproto on one frame and one tool call, and the theorems at them.
use kiroxy.Prelude.{refl, Bool, true, false, List, none, some, ◌==◌, if◌then◌else◌}
use kiroxy.Prelude.Bytes.{beq, is_empty}
use kiroxy.Respconv.Events.{Event}
use kiroxy.Kiroproto.Frame.{FrameError}
use kiroxy.Kiroproto.Headers.{
  extract_frame_headers, walk_headers, read_header, read_value, header_value_size, value_length,
  note_header,
}
use kiroxy.Kiroproto.Headers.RoundTrip.{text_headers, extract_frame_headers-text}
use kiroxy.Kiroproto.Stream.{Decoders}
use kiroxy.Kiroproto.Stream.Parse.{Ends, parse_stream, parse_stream-Ends}
use kiroxy.Kiroproto.Stream.Delivery.{Frames, encode_stream}
use kiroxy.Kiroproto.Stream.Events.{stream_events, deliver_all, parse_stream-stream_events}
use kiroxy.Prelude.{ℕ, ◌^◌, ◌<◌, ◌≡◌, ◌++◌, [], ◌∷◌, arith}
use kiroxy.Prelude.Bytes.{Bytes, codes}
use kiroxy.Kiroproto.Frame.{FrameResult, read_frame}
use kiroxy.Kiroproto.Frame.Encoding.{encode_frame, read_frame-encode_frame}
use kiroxy.Kiroproto.ToolUse.{idle}
use kiroxy.Kiroproto.ToolUse.Calls.{Part, frame}

-- A checksum of 32 bits: one for the empty string and one for all others.
abbrev checksum : Bytes → ℕ
checksum [] = 7
checksum (x ∷ s) = 9

checksum_lt : (s : Bytes) → checksum s < 2 ^ 32
checksum_lt [] = omega arith
checksum_lt (x ∷ s) = omega arith

read_frame-encode_frame_example :
    read_frame checksum (encode_frame checksum (codes "h") (codes "pay") ++ codes "more")
    ≡ FrameResult.frame (codes "h") (codes "pay") (codes "more")
read_frame-encode_frame_example =
    read_frame-encode_frame checksum (codes "h") (codes "pay") (codes "more") checksum_lt
      (omega arith)

-- A call that repeats its name and its id, and one whose later frames have neither.
abbrev parts : List Part
parts =
    record { identified = true; named = true; input = some (codes "1") }
    ∷ record { identified = false; named = false; input = none }
    ∷ []

abbrev end_part : Part
end_part = record { identified = true; named = false; input = some (codes "}") }

-- The headers of an event of the type given.
abbrev types : Bytes → List (Bytes × Bytes)
types t = (codes ":message-type", codes "event") ∷ (codes ":event-type", t) ∷ []

extract_frame_headers-text_example :
    extract_frame_headers (text_headers (types (codes "toolUseEvent")))
    ≡ (codes "event", codes "toolUseEvent")
unfolding beq
extract_frame_headers-text_example =
    extract_frame_headers-text (types (codes "toolUseEvent")) (omega arith)

types_read :
    extract_frame_headers (text_headers (types (codes "toolUseEvent")))
    ≡ (codes "event", codes "toolUseEvent")
unfolding extract_frame_headers walk_headers read_header read_value header_value_size value_length
    note_header beq
types_read = refl

-- Payloads that are the texts themselves; a `!` cannot be decoded.
abbrev text_decoders : Decoders
text_decoders = record {
  exception_message = λ p. p;
  assistant = λ p. elim p [ [] ↦ some [] | c ∷ q ↦ if c == 33 then none else some (c ∷ q) ];
  reasoning = λ p. none;
  tool_use = λ p. none;
  metadata = λ p. none;
  metering = λ p. none;
  invalid_state = λ p. none;
  message_metadata = λ p. none;
  context_usage = λ p. none;
}

abbrev fresh : ℕ → Bytes
fresh n = n ∷ []

-- A callback that keeps the contents and stops at the second.
abbrev collect : Event → List Bytes → List Bytes × Bool
collect e [] = (e.content ∷ [], false)
collect e (c ∷ cs) = (e.content ∷ c ∷ cs, true)

abbrev text_frame : Bytes → Bytes × Bytes
text_frame p = (text_headers (types (codes "assistantResponseEvent")), p)

abbrev two_frames : Frames
two_frames = text_frame (codes "a") ∷ text_frame (codes "b") ∷ []

parse_stream-Ends_example :
    Ends collect text_decoders fresh checksum
      (λ n. false)
      (parse_stream collect text_decoders fresh checksum (λ n. false) (codes "no frame") [])
parse_stream-Ends_example =
    parse_stream-Ends collect text_decoders fresh checksum (λ n. false) (codes "no frame") []

parse_stream-stream_events_example :
    parse_stream collect text_decoders fresh checksum
      (λ n. false)
      (encode_stream checksum two_frames ++ codes "x")
      []
    ≡ some (
        deliver_all text_decoders fresh
          (λ n. false)
          collect
          (stream_events text_decoders fresh
            (λ n. false)
            (some FrameError.truncated_prelude)
            0
            two_frames
            idle)
          [])
unfolding read_frame is_empty
parse_stream-stream_events_example =
    parse_stream-stream_events text_decoders fresh (λ n. false) collect checksum
      (some FrameError.truncated_prelude) two_frames (codes "x") [] refl checksum_lt (omega arith)
