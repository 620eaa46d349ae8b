-- ===== src/Openai/Translate.antt =====
-- internal/openai/translate_stream.go: `Translate`, the loop over the frames.
pub mod Message
use kiroxy.Prelude.{Bool, true, ◌&&◌, if◌then◌else◌, List, [], ◌∷◌, Option, none, some}
use kiroxy.Prelude.Bytes.{Bytes, is_empty}
use kiroxy.Openai.Events.{
  Error, disconnected, scan_failed, cancelled, Event, Decoders, decode_event,
}
use kiroxy.Openai.Frames.{parse_sse_frame}
use kiroxy.Openai.Stream.{Translator, Sink, handle_frame, write_done}

-- What the scanner comes to: a frame, with whether the context is cancelled by then, the end of the
-- stream, or an error of the reader.
pub data Scan : Type 0 where
  eof : Scan
  broken : Scan
  frame : Bool → Bytes → Scan → Scan

module _ (k : Sink) (d : Decoders) (trim_space : Bytes → Bytes) where
  -- A frame that holds something, and what is left of the stream, as a translation.
  unfoldable pub take_frame :
      Bytes × Bytes
      → (Translator → Translator × Option Error)
      → Translator
      → Translator × Option Error
  unfolding handle_frame decode_event
  take_frame (event, payload) rest s =
      let (s', failed) = handle_frame k (decode_event d (event, payload)) s in
      if is_empty event && is_empty payload then rest s else elim failed [
        | some e ↦ (s', some e)
        | none ↦ if s'.write_err then (s', some disconnected) else rest s'
      ]

  -- `Translate`
  unfoldable pub translate : Scan → Translator → Translator × Option Error
  unfolding take_frame parse_sse_frame write_done
  translate eof s = (write_done k s, none)
  translate broken s = (s, some scan_failed)
  translate (frame stop bytes rest) s =
      if stop
      then (s, some cancelled)
      else take_frame (parse_sse_frame trim_space bytes) (translate rest) s
