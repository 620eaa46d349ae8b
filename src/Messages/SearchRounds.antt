-- ===== src/Messages/SearchRounds.antt =====
-- internal/messages/toolsearch.go: `handleStreaming`, which answers the model's searches for tools itself
-- and calls the upstream again with what they found.
pub mod Conclusion
mod Tests
use kiroxy.Prelude.{
  ℕ, zero, suc, ◌+◌, Bool, true, false, not, ◌&&◌, ◌==◌, ltb, if◌then◌else◌, ◌⊎◌, inl, inr, List,
  [], ◌∷◌, ◌++◌, Option, none, some, map,
}
use kiroxy.Prelude.Bytes.{Bytes, beq, codes}
use kiroxy.Respconv.Accumulator.{is_empty_visible_end_turn}
use kiroxy.Respconv.Events.{Event, EventType}
use kiroxy.Respconv.Streaming.{Sse, Writer, new_writer}
use kiroxy.Respconv.Streaming.Handler.{handle_event, finish, write_error}
use kiroxy.Respconv.Streaming.ToolSearch.{
  write_server_tool_use, write_tool_search_result, write_tool_search_error, reset_accumulator,
}
use kiroxy.Reqconv.{
  BlockType, Block, Content, blocks, Message, Role, ResultContent, plain_result, server_tool_use,
  tool_result,
}
use kiroxy.Reqconv.Text.{join}
use kiroxy.Toolsearch.{Context, tool_search_name, promote_tools}
use kiroxy.Toolsearch.Search.{SearchError, SearchCalls, search, error_code}
use kiroxy.Messages.{Ending, severed, stopped, drained}

-- `ToolNameMap`: the short name of a tool, and the map back.
pub record NameMap : Type 0 where
  pub shorten : Bytes → Bytes
  pub reverse_map : List (Bytes × Bytes)

-- What the rounds call: the payload of a conversation, with the text of its error; the upstream, with
-- the events of the response and whether reading it failed; the JSON of a search's input, read, with the
-- text of its error, and written; the identifier of a round's search; and what the search itself calls.
pub record SearchWorld : Type 0 where
  pub build_payload : List Message → Context → Bytes ⊎ NameMap
  pub call : ℕ → List Message → Context → Option (List Event × Bool)
  pub parse_tool_search_input : Bytes → Bytes ⊎ (Bytes × ℕ)
  pub marshal_input : Bytes → Option ℕ → Bytes
  pub fresh_id : ℕ → Bytes
  pub search_calls : SearchCalls

-- How the callback left a round: a search with its input, or as in other responses.
pub data RoundEnd : Type 0 where
  found : Bytes → RoundEnd
  over : Ending → RoundEnd

-- What the client gets: a JSON error in place of the stream, an error event in it, a stream that is cut
-- off, nothing yet as the request is sent again, or the stream.
pub data SearchOutcome : Type 0 where
  refused : ℕ → Bytes → Bytes → SearchOutcome
  errored cut_off again done : SearchOutcome

pub record SearchRun : Type 0 where
  pub writer : Writer
  pub messages : List Message
  pub context : Context

abbrev max_tool_search_rounds : ℕ
max_tool_search_rounds = 3

abbrev pub api_error : Bytes
api_error = codes "api_error"

abbrev pub invalid_request : Bytes
invalid_request = codes "invalid_request_error"

-- A tool call that is complete and a search for tools.
unfoldable pub is_search_call : Event → Bool
is_search_call e = elim e.event_type [
  | EventType.tool_use ↦ e.tool_stop && beq e.tool_name tool_search_name
  | _ ↦ false
]

abbrev search_block : BlockType → Block
search_block t = record {
  block_type = t;
  block_text = [];
  id = [];
  name = [];
  input = [];
  tool_use_id = [];
  tool_name = [];
  result = plain_result [];
  source = none;
}

unfoldable pub result_text : NameMap → SearchError ⊎ List Bytes → Bytes
result_text names (inl e) = codes "tool search error: " ++ error_code e
result_text names (inr results) =
    codes "Found tools: " ++ join (codes ", ") (map names.shorten results)

-- `appendSearchMessages`; blocks have no flag for an error here.
unfoldable pub append_search_messages :
    List Message → Bytes → Bytes → SearchError ⊎ List Bytes → NameMap → List Message
unfolding result_text
append_search_messages ms id input results names =
    ms
    ++ (record {
      role = Role.assistant;
      content = blocks (
          record (search_block server_tool_use) { id = id; name = tool_search_name; input = input }
          ∷ []);
    }
        ∷ record {
          role = Role.user;
          content = blocks (
              record (search_block tool_result) {
                tool_use_id = id;
                result = plain_result (result_text names results);
              }
              ∷ []);
        }
        ∷ [])

-- The two fields of `buildSearchInput`.
unfoldable pub max_results_field : ℕ → Option ℕ
max_results_field n = if ltb 0 n then some n else none

module _ (fails : List Sse → Sse → Bool) (estimate : ℕ → ℕ → ℕ) (is_valid_json : Bytes → Bool) where
  -- The callback of a round, over the events of the response.
  unfoldable pub receive_round : List Event → Writer → Writer × RoundEnd
  unfolding is_search_call
  receive_round [] w = (w, over drained)
  receive_round (e ∷ es) w =
      let (v, stop) = handle_event fails estimate is_valid_json e w in
      let rest = receive_round es v in
      if w.write_err
      then (w, over severed)
      else if is_search_call e
      then (w, found e.tool_input)
      else if v.write_err
      then (v, over severed)
      else if not stop
      then rest
      else (v, over (if v.acc.local_stop then stopped else severed))

  -- `writeStreamingOrJSONError`
  unfoldable pub write_streaming_or_json_error : ℕ → Bytes → Bytes → Writer → Writer × SearchOutcome
  write_streaming_or_json_error status kind message w =
      if w.started && w.visible_fired
      then (write_error fails estimate kind message w, errored)
      else (w, refused status kind message)

  -- A round without a search, which is the last; the flag says that reading the response failed.
  unfoldable pub end_round : Bool → Ending → Writer → Writer × SearchOutcome
  unfolding write_streaming_or_json_error
  end_round read_failed severed w =
      if w.visible_fired
      then (w, cut_off)
      else (w, refused 502 api_error (codes "upstream stream error"))
  end_round read_failed stopped w = (w, done)
  end_round true drained w =
      write_streaming_or_json_error 502 api_error (codes "upstream stream error") w
  end_round false drained w =
      let v = finish fails estimate w in
      (v, if is_empty_visible_end_turn v.acc && not v.visible_fired then again else done)

  module _ (p : SearchWorld) (window : ℕ) (seqs : List Bytes) (budget : ℕ) where
    -- A round after the first has an accumulator of its own.
    unfoldable pub next_accumulator : ℕ → Writer → Writer
    next_accumulator zero w = w
    next_accumulator (suc n) w = reset_accumulator fails window seqs budget 0 w

    -- The writer before the events of a round.
    unfoldable pub begin_round : ℕ → NameMap → Writer → Writer
    unfolding next_accumulator
    begin_round round names w =
        let v =
          next_accumulator round
            (record w { acc = record w.acc { tool_name_map = names.reverse_map } }) in
        record v { acc = record v.acc { drop_tool_name = tool_search_name } }

    unfoldable pub write_results : Bytes → SearchError ⊎ List Bytes → Writer → Writer
    write_results id (inl e) w = write_tool_search_error fails id (error_code e) w
    write_results id (inr refs) w = write_tool_search_result fails id refs w

    -- The tools after `executeSearch`.
    unfoldable pub promote_results : SearchError ⊎ List Bytes → Context → Context
    promote_results (inl e) c = c
    promote_results (inr refs) c = promote_tools refs c

    -- The search and its blocks, with what the next round starts from.
    unfoldable pub answer_search : ℕ → NameMap → Bytes → ℕ → SearchRun → SearchRun
    unfolding append_search_messages max_results_field write_results promote_results
    answer_search round names query max_results r =
        let id = p.fresh_id round in
        let input = p.marshal_input query (max_results_field max_results) in
        let results =
          search p.search_calls query r.context.deferred_tools r.context.search_type max_results in
        record {
          writer =
              write_results id results
                (write_server_tool_use fails id r.context.search_tool_name input r.writer);
          messages = append_search_messages r.messages id input results names;
          context = promote_results results r.context;
        }

    -- The rounds that are left, from the round of the number given.
    unfoldable pub run_rounds : ℕ → ℕ → SearchRun → Writer × SearchOutcome
    unfolding begin_round answer_search receive_round end_round
    run_rounds zero round r = (finish fails estimate r.writer, done)
    run_rounds (suc left) round r = elim (p.build_payload r.messages r.context) [
      | inl message ↦ write_streaming_or_json_error 400 invalid_request message r.writer
      | inr names ↦ elim (p.call round r.messages r.context) [
        | none ↦ write_streaming_or_json_error 502 api_error (codes "upstream API error") r.writer
        | some (events, read_failed) ↦
            let (w, end) = receive_round events (begin_round round names r.writer) in
            elim end [
              | over e ↦ end_round read_failed e w
              | found input ↦ elim (p.parse_tool_search_input input) [
                | inl message ↦ write_streaming_or_json_error 400 invalid_request message w
                | inr (query, max_results) ↦
                    run_rounds left (suc round)
                      (answer_search round names query max_results (record r { writer = w }))
              ]
            ]
      ]
    ]

    -- `handleStreaming`
    unfoldable pub handle_streaming : List Message → Context → Writer × SearchOutcome
    unfolding run_rounds
    handle_streaming ms c =
        run_rounds max_tool_search_rounds 0
          (record { writer = new_writer window seqs budget 0; messages = ms; context = c })
