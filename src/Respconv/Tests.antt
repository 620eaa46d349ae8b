-- ===== src/Respconv/Tests.antt =====
-- Runs of the response path of internal/respconv and internal/messages, and the theorems at them.
use kiroxy.Prelude.{ℕ, ◌≡◌, inl, inr, refl, Bool, true, false, not, List, [], ◌∷◌, concat, arith}
use kiroxy.Prelude.Bytes.{Bytes, codes, is_empty}
use kiroxy.Strings.Index.{contains_byte}
use kiroxy.Respconv.ThinkingTags.{finalize_thinking_tags, parse_thinking_tags}
use kiroxy.Respconv.ThinkingTags.Scan.{scan}
use kiroxy.Respconv.ThinkingTags.Chunks.{start, parse_chunks, parse_chunks-concat}
use kiroxy.Respconv.ChunkDelta.{compute_delta}
use kiroxy.Respconv.ChunkDelta.Cumulative.{deltas, cumulative, deltas-cumulative}
use kiroxy.Respconv.Accumulator.{
  is_empty_visible_end_turn, finalize_stream, flush_stop_seq_pending, Accumulator, new_accumulator,
  emit_text, nonempty_sequences, apply_max_tokens_budget,
}
use kiroxy.Respconv.Accumulator.Budget.{WithinBudget}
use kiroxy.Respconv.Events.{Event, EventType, process_event}
use kiroxy.Respconv.Events.Buffers.{Buffered, process_event-Buffered}
use kiroxy.Respconv.Events.Stops.{process_event-WithinBudget}
use kiroxy.Respconv.Streaming.{Sse, Writer, new_writer, write_sse}
use kiroxy.Respconv.Streaming.Handler.{handle_event, finish}
use kiroxy.Respconv.Streaming.Settled.{Going, Settled, handle_event-Settled}
use kiroxy.Respconv.Streaming.Protocol.{
  Phase, Shown, all_hidden, Follows, InStep, is_some, read_all,
}
use kiroxy.Respconv.Streaming.Preservation.{finish-ended}
use kiroxy.Respconv.Streaming.Handling.{Handled, handle_event-Handled}
use kiroxy.Messages.{receive, handle_streaming_response}
use kiroxy.Messages.Gate.{Reaches, handle_streaming_response-ended}

abbrev event : EventType → Bytes → Event
event t s = record {
  event_type = t;
  content = s;
  thinking_text = s;
  tool_name = codes "read";
  tool_use_id = codes "t1";
  tool_input = s;
  tool_stop = true;
  input_tokens = 3;
  output_tokens = 4;
  cache_read_input_tokens = 0;
  cache_write_input_tokens = 0;
  signature = [];
  redacted_content = [];
  context_usage_percentage = 0;
  conversation_id = [];
  invalid_state_reason = [];
  error_message = [];
}

abbrev hello : Event
hello = event EventType.assistant_response (codes "hello world")

-- A budget of two tokens, and one stop sequence.
abbrev small : Accumulator
small = new_accumulator 200 (codes "END" ∷ []) 2 0

abbrev stopped : Accumulator
stopped = record small { local_stop = true }

abbrev valid : Bytes → Bool
valid s = not (is_empty s)

abbrev writer : Writer
writer = new_writer 200 [] 2 0

abbrev fails : List Sse → Sse → Bool
fails xs x = false

abbrev estimate : ℕ → ℕ → ℕ
estimate p w = p

writer-InStep : InStep writer
unfolding InStep Follows Shown is_some read_all new_writer all_hidden
writer-InStep = inl (refl, (refl, (refl, (refl, inr refl, inr refl))))

parse_chunks-concat_example :
    let ds = codes "<thin" ∷ codes "king>a</think" ∷ codes "ing>b" ∷ [] in
    parse_chunks start ds ≡ parse_thinking_tags start (concat ds)
parse_chunks-concat_example =
    parse_chunks-concat start (codes "<thin" ∷ codes "king>a</think" ∷ codes "ing>b" ∷ [])
      (unfold scan in refl)

-- A response after one block of thinking, with a reasoning event that comes too late.
abbrev after_thinking : Accumulator
after_thinking = record small {
  tags = (parse_chunks start (codes "<thin" ∷ codes "king>a</think" ∷ codes "ing>b" ∷ [])).tags;
}

abbrev late : Event
late = record (event EventType.reasoning_content (codes "late")) { redacted_content = [] }

deltas-cumulative_example :
    deltas [] (cumulative [] (codes "ab" ∷ codes "c" ∷ [])) ≡ codes "ab" ∷ codes "c" ∷ []
deltas-cumulative_example = deltas-cumulative [] (codes "ab" ∷ codes "c" ∷ [])

process_event-Buffered_example : Buffered small (process_event valid small hello)
process_event-Buffered_example = process_event-Buffered valid small hello

process_event-WithinBudget_example : WithinBudget ((process_event valid small hello).0)
unfolding WithinBudget new_accumulator
process_event-WithinBudget_example =
    process_event-WithinBudget valid small hello (inr (inr (omega arith)))

handle_event-Handled_example :
    Handled fails estimate (handle_event fails estimate valid hello writer)
handle_event-Handled_example = handle_event-Handled fails estimate valid hello writer writer-InStep

finish-ended_example : Follows (finish fails estimate writer) Phase.ended
finish-ended_example = finish-ended fails estimate writer writer-InStep

-- A response without a budget.
abbrev unlimited : Writer
unlimited = new_writer 200 [] 0 0

unlimited-InStep : InStep unlimited
unfolding InStep Follows Shown is_some read_all new_writer all_hidden
unlimited-InStep = inl (refl, (refl, (refl, (refl, inr refl, inr refl))))

unlimited-Going : Going fails estimate unlimited.acc
unfolding Going WithinBudget new_writer new_accumulator
unlimited-Going = (refl, inr (inl refl))

handle_streaming_response-ended_example :
    Reaches
      ((handle_streaming_response fails estimate valid false (hello ∷ []) unlimited).0)
      Phase.ended
unfolding handle_streaming_response receive handle_event process_event new_writer new_accumulator
    compute_delta parse_thinking_tags is_empty contains_byte emit_text nonempty_sequences
    apply_max_tokens_budget write_sse finish is_empty_visible_end_turn finalize_stream
    finalize_thinking_tags flush_stop_seq_pending
handle_streaming_response-ended_example =
    handle_streaming_response-ended fails estimate valid (hello ∷ []) unlimited unlimited-InStep
      unlimited-Going refl

handle_event-Settled_example :
    Settled fails estimate (handle_event fails estimate valid hello unlimited)
handle_event-Settled_example =
    handle_event-Settled fails estimate valid hello unlimited unlimited-InStep unlimited-Going
