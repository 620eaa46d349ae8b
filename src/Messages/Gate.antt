-- ===== src/Messages/Gate.antt =====
-- internal/messages/response.go: what has reached the client at each outcome.
use kiroxy.Prelude.{refl, ℕ, ◌≡◌, ◌⊎◌, Bool, true, false, List, [], ◌∷◌, arith}
use kiroxy.Prelude.Bytes.{Bytes}
use kiroxy.Respconv.Events.{Event}
use kiroxy.Respconv.Streaming.{Sse, Writer}
use kiroxy.Respconv.Streaming.Handler.{handle_event}
use kiroxy.Respconv.Streaming.Protocol.{Phase, Follows, Shown, all_hidden, InStep}
use kiroxy.Respconv.Streaming.Preservation.{finish-ended}
use kiroxy.Respconv.Streaming.Handling.{Handled, handle_event-Handled}
use kiroxy.Messages.{
  Ending, Outcome, receive, respond, handle_streaming_response, complete, delivered,
}
use kiroxy.Respconv.Streaming.Settled.{Going, Settled, handle_event-Settled}

-- What was written follows the protocol to the phase given, and the client has all of it, or nothing
-- where it holds no visible output: no text and no call of a tool.
unfoldable pub Reaches : Writer → Phase → Type 0
Reaches w p =
    Follows w p × ((delivered w ≡ w.written) ⊎ ((delivered w ≡ []) × (all_hidden w.written ≡ true)))

pub Follows-Reaches : (w : Writer) (p : Phase) → Follows w p → Reaches w p
unfolding Reaches Follows Shown delivered
Follows-Reaches w p h = (h, ground (arith, h))

module _ (fails : List Sse → Sse → Bool) (estimate : ℕ → ℕ → ℕ) (valid : Bytes → Bool) where
  -- A stream that was never stopped leaves its writer in step.
  receive-InStep :
      (es : List Event) (w : Writer)
      → InStep w
      → (receive fails estimate valid es w).1 ≡ Ending.drained
      → InStep ((receive fails estimate valid es w).0)
  unfolding receive Handled
  receive-InStep [] w h e = h
  receive-InStep (x ∷ es) w h e =
      let p = handle_event fails estimate valid x w in
      ground (arith, e, handle_event-Handled fails estimate valid x w h, receive-InStep es (p.0))

  -- A stream that was stopped, and not by an error, has its closing events.
  receive-ended :
      (es : List Event) (w : Writer)
      → InStep w
      → Going fails estimate w.acc
      → (receive fails estimate valid es w).1 ≡ Ending.stopped
      → Follows ((receive fails estimate valid es w).0) Phase.ended
  unfolding receive Handled Settled Going
  receive-ended [] w h g e = cc
  receive-ended (x ∷ es) w h g e =
      let p = handle_event fails estimate valid x w in
      ground (
        arith,
        e,
        handle_event-Handled fails estimate valid x w h,
        handle_event-Settled fails estimate valid x w h g,
        receive-ended es (p.0),
      )

  respond-ended :
      (p : Writer × Ending)
      → (p.1 ≡ Ending.drained → InStep (p.0))
      → (p.1 ≡ Ending.stopped → Follows (p.0) Phase.ended)
      → (respond fails estimate valid false p).1 ≡ Outcome.completed
      → Follows ((respond fails estimate valid false p).0) Phase.ended
  unfolding respond complete
  respond-ended (w, Ending.drained) h k e = finish-ended fails estimate w (h refl)
  respond-ended (w, Ending.severed) h k e = ground (arith, e)
  respond-ended (w, Ending.stopped) h k e = k refl

  -- If the writer and its reader agree and the response goes on inside its budget at first, no
  -- read of the upstream fails, and the outcome is a completed response, then the events written
  -- follow the protocol up to the end of the message, or to a write that failed, and the client has all
  -- of them; or it has nothing, where they hold no text and no call of a tool.
  pub handle_streaming_response-ended :
      (es : List Event) (w : Writer)
      → InStep w
      → Going fails estimate w.acc
      → (handle_streaming_response fails estimate valid false es w).1 ≡ Outcome.completed
      → Reaches ((handle_streaming_response fails estimate valid false es w).0) Phase.ended
  unfolding handle_streaming_response
  handle_streaming_response-ended es w h g e = Follows-Reaches _ Phase.ended (
      respond-ended (receive fails estimate valid es w) (receive-InStep es w h)
        (receive-ended es w h g) e)

  respond-hidden :
      (failed : Bool) (p : Writer × Ending)
      → let r = respond fails estimate valid failed p in
        (r.1 ≡ Outcome.retry) ⊎ (r.1 ≡ Outcome.upstream_error)
        → ((r.0).visible_fired ≡ false) ⊎ ((r.0).started ≡ false)
  unfolding respond complete
  respond-hidden failed (w, Ending.severed) h = ground (arith, h)
  respond-hidden failed (w, Ending.stopped) h = ground (arith, h)
  respond-hidden failed (w, Ending.drained) h = ground (arith, h)

  -- A response that is sent again, or answered with a JSON error for what the upstream did, has shown
  -- the client nothing: its gate was never promoted, or its message never began.
  handle_streaming_response-hidden :
      (failed : Bool) (es : List Event) (w : Writer)
      → ((handle_streaming_response fails estimate valid failed es w).1 ≡ Outcome.retry)
        ⊎ ((handle_streaming_response fails estimate valid failed es w).1 ≡ Outcome.upstream_error)
      → (((handle_streaming_response fails estimate valid failed es w).0).visible_fired ≡ false)
        ⊎ (((handle_streaming_response fails estimate valid failed es w).0).started ≡ false)
  unfolding handle_streaming_response
  handle_streaming_response-hidden failed es w h =
      respond-hidden failed (receive fails estimate valid es w) h
