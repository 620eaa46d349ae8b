-- ===== src/Messages/SearchRounds/Tests.antt =====
-- internal/messages/toolsearch.go: tests and examples.
use kiroxy.Prelude.{ℕ, ◌≡◌, refl, inr, Bool, true, false, List, [], ◌∷◌, none, some}
use kiroxy.Prelude.Bytes.{Bytes, codes, beq, is_empty}
use kiroxy.Strings.Index.{contains_byte, index}
use kiroxy.Strings.Prefix.{has_prefix}
use kiroxy.Respconv.ThinkingTags.{
  finalize_thinking_tags, parse_thinking_tags, parse_loop, tag_missing, partial_tag_suffix,
  partial_from,
}
use kiroxy.Respconv.ChunkDelta.{compute_delta}
use kiroxy.Respconv.Accumulator.{
  is_empty_visible_end_turn, finalize_stream, flush_stop_seq_pending, new_accumulator, emit_text,
  nonempty_sequences, apply_max_tokens_budget, StopReason, resolve_stop_reason, resolved_usage,
}
use kiroxy.Respconv.Events.{Event, EventType, process_event}
use kiroxy.Respconv.Streaming.{
  Sse, message_start, block_start, block_delta, block_stop, message_delta, message_stop,
  server_tool_use, tool_search_tool_result, search_result, text, new_writer, write_sse,
}
use kiroxy.Respconv.Streaming.Handler.{handle_event, finish}
use kiroxy.Respconv.Streaming.ToolSearch.{
  write_server_tool_use, write_tool_search_result, reset_accumulator,
}
use kiroxy.Toolsearch.{other, Tool, Context, regex, has_tool, promote_tools}
use kiroxy.Toolsearch.Search.{search}
use kiroxy.Messages.SearchRounds.{SearchWorld, handle_streaming}
use kiroxy.Messages.SearchRounds.Conclusion.{Concluded, handle_streaming-Concluded}

abbrev event : EventType → Event
event t = record {
  event_type = t;
  content = [];
  thinking_text = [];
  tool_name = [];
  tool_use_id = [];
  tool_input = [];
  tool_stop = false;
  input_tokens = 0;
  output_tokens = 0;
  cache_read_input_tokens = 0;
  cache_write_input_tokens = 0;
  signature = [];
  redacted_content = [];
  context_usage_percentage = 0;
  conversation_id = [];
  invalid_state_reason = [];
  error_message = [];
}

abbrev search_call : Event
search_call = record (event EventType.tool_use) {
  tool_name = codes "ToolSearch";
  tool_input = codes "select:edit";
  tool_stop = true;
}

abbrev says : Bytes → Event
says s = record (event EventType.assistant_response) { content = s }

abbrev edit : Tool
edit = record { tool_type = other []; name = codes "edit"; description = []; defer_loading = true }

abbrev one_deferred : Context
one_deferred = record {
  search_type = regex;
  search_tool_name = codes "find";
  deferred_tools = edit ∷ [];
  active_tools = [];
}

-- The upstream asks for a tool as long as one is deferred, and then greets.
abbrev reply : List Tool → List Event
reply [] = says (codes "b") ∷ []
reply _ = says (codes "a<") ∷ search_call ∷ []

abbrev world : SearchWorld
world = record {
  build_payload = λ ms c. inr (record { shorten = λ s. s; reverse_map = [] });
  call = λ n ms c. some (reply c.deferred_tools, false);
  parse_tool_search_input = λ s. inr (s, 0);
  marshal_input = λ s n. s;
  fresh_id = λ n. n ∷ [];
  search_calls = record {
    compile = λ s. none;
    quote_meta = λ s. s;
    fields = λ s. [];
    to_lower = λ s. s;
    trim_space = λ s. s;
    sort_by_score = λ xs. xs;
    bm25_score = λ ws ts t. 0;
  };
}

abbrev fails : List Sse → Sse → Bool
fails xs x = false

abbrev estimate : ℕ → ℕ → ℕ
estimate p w = p

handle_streaming-Concluded_example :
    Concluded (handle_streaming fails estimate (λ s. true) world 200 [] 0 [] one_deferred)
handle_streaming-Concluded_example =
    handle_streaming-Concluded fails estimate (λ s. true) world 200 [] 0 [] one_deferred

-- What the parser of tags holds back when the search begins is not written any more: of the text `a<`
-- the client gets `a`.
held_back_before_search :
    (handle_streaming fails estimate (λ s. true) world 200 [] 0 [] one_deferred).0.written
    ≡ message_start
      ∷ block_start 0 text [] []
      ∷ block_delta 0 text (codes "a")
      ∷ block_stop 0
      ∷ block_start 1 server_tool_use (0 ∷ []) (codes "find")
      ∷ block_delta 1 server_tool_use (codes "select:edit")
      ∷ block_stop 1
      ∷ block_start 2 (tool_search_tool_result (search_result (codes "edit" ∷ []))) (0 ∷ []) []
      ∷ block_stop 2
      ∷ block_start 3 text [] []
      ∷ block_delta 3 text (codes "b")
      ∷ block_stop 3
      ∷ message_delta StopReason.end_turn none (0, 0)
      ∷ message_stop
      ∷ []
unfolding handle_streaming handle_event process_event new_writer new_accumulator compute_delta
    parse_thinking_tags is_empty contains_byte emit_text nonempty_sequences apply_max_tokens_budget
    write_sse finish is_empty_visible_end_turn finalize_stream finalize_thinking_tags
    flush_stop_seq_pending beq search has_tool has_prefix write_tool_search_result
    write_server_tool_use promote_tools reset_accumulator parse_loop index tag_missing
    partial_tag_suffix partial_from resolve_stop_reason resolved_usage
held_back_before_search = refl
