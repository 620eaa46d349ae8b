-- ===== src/Messages.antt =====
-- internal/messages/response.go: one streamed response, from the upstream's events to the client.
pub mod Gate
pub mod Errors
pub mod World
pub mod Rotation
pub mod Retry
pub mod Upstream
pub mod Pooled
pub mod SearchRounds
mod Tests
use kiroxy.Prelude.{
  ℕ, Bool, true, false, not, ◌&&◌, ◌||◌, if◌then◌else◌, List, [], ◌∷◌, Option, none, some,
}
use kiroxy.Prelude.Bytes.{Bytes, codes}
use kiroxy.Respconv.Accumulator.{is_empty_visible_end_turn}
use kiroxy.Respconv.Events.{Event}
use kiroxy.Respconv.Streaming.{Sse, Writer}
use kiroxy.Respconv.Streaming.Handler.{handle_event, finish, truncated_finish, write_error}

-- How the callback of `ParseStream` left the stream: `severed` for `streamErr`, `stopped` for
-- `localStop`, `drained` when it never asked to stop.
pub data Ending : Type 0 where
  severed stopped drained : Ending

-- What the client gets: a JSON error in place of the stream, a stream closed as truncated, an error
-- after a failed read, nothing yet as the request is sent again, or the stream.
pub data Outcome : Type 0 where
  upstream_error truncated stream_error retry completed : Outcome

-- `GateWriter`: what is written is kept until the gate is promoted, as the visible output is announced,
-- and then goes to the client with all that follows.
unfoldable pub delivered : Writer → List Sse
delivered w = if w.visible_fired then w.written else []

module _ (fails : List Sse → Sse → Bool) (estimate : ℕ → ℕ → ℕ) (is_valid_json : Bytes → Bool) where
  unfoldable pub receive : List Event → Writer → Writer × Ending
  receive [] w = (w, drained)
  receive (e ∷ es) w =
      let (v, stop) = handle_event fails estimate is_valid_json e w in
      let rest = receive es v in
      if w.write_err
      then (w, severed)
      else if v.write_err
      then (v, severed)
      else if not stop
      then rest
      else (v, if v.acc.local_stop then stopped else severed)

  -- `writeStreamingOrJSONError`; the gate is promoted when visible output is about to be written.
  write_stream_error : Writer → Writer
  write_stream_error w =
      if w.started && w.visible_fired
      then write_error fails estimate (codes "stream_error") (codes "upstream stream error") w
      else w

  -- The response after the last event of a stream that the callback did not stop.
  complete : Writer → Writer × Outcome
  complete w =
      let v = finish fails estimate w in
      (v, if is_empty_visible_end_turn v.acc && not v.visible_fired then retry else completed)

  -- `read_failed` says that `ParseStream` returned an error, which it does not after a stop.
  unfoldable pub respond : Bool → Writer × Ending → Writer × Outcome
  unfolding write_stream_error complete
  respond read_failed (w, severed) =
      if not w.started || not w.visible_fired
      then (w, upstream_error)
      else (truncated_finish fails estimate w, truncated)
  respond read_failed (w, stopped) = (w, completed)
  respond read_failed (w, drained) =
      if read_failed then (write_stream_error w, stream_error) else complete w

  unfoldable pub handle_streaming_response : Bool → List Event → Writer → Writer × Outcome
  unfolding receive respond
  handle_streaming_response read_failed es w = respond read_failed (receive es w)
