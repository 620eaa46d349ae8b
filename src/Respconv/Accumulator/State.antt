-- ===== src/Respconv/Accumulator/State.antt =====
-- internal/respconv/accumulator.go: the accumulated state and what one event adds to it.
use kiroxy.Prelude.{ℕ, ◌-◌, Bool, false, ltb, if◌then◌else◌, List, [], ◌∷◌}
use kiroxy.Prelude.Bytes.{Bytes, is_empty}
use kiroxy.Strings.Utf8.{rune_count}
use kiroxy.Respconv.ThinkingTags.{TagState}

-- The values of `StopReason`; `unset` is the empty string.
pub data StopReason : Type 0 where
  unset stop_sequence max_tokens end_turn tool_use : StopReason

pub record ToolCall : Type 0 where
  pub id : Bytes
  pub name : Bytes
  pub input : Bytes

-- What one event adds, for the caller to emit.
pub record EventDelta : Type 0 where
  pub text_delta : Bytes
  pub thinking_delta : Bytes
  pub redacted_content : Bytes
  pub tool_stop : Bool
  pub tool_use_id : Bytes
  pub tool_name : Bytes
  pub tool_input : Bytes
  pub is_error : Bool
  pub error_message : Bytes
  pub stop_signal : Bool
  pub stop_reason : StopReason
  pub stop_sequence : Bytes

abbrev pub no_delta : EventDelta
no_delta = record {
  text_delta = [];
  thinking_delta = [];
  redacted_content = [];
  tool_stop = false;
  tool_use_id = [];
  tool_name = [];
  tool_input = [];
  is_error = false;
  error_message = [];
  stop_signal = false;
  stop_reason = unset;
  stop_sequence = [];
}

-- `context_usage_percentage` is a float64: a code for it, which only `Estimate` reads. A budget of 0
-- stands for any that is not positive.
pub record Accumulator : Type 0 where
  pub last_content : Bytes
  pub last_thinking : Bytes
  pub text_buf : Bytes
  pub thinking_buf : Bytes
  pub tool_calls : List ToolCall
  pub has_tool_use : Bool
  pub tool_parse_error : Bool
  pub has_metadata : Bool
  pub input_tokens : ℕ
  pub output_tokens : ℕ
  pub cache_read_input_tokens : ℕ
  pub cache_write_input_tokens : ℕ
  pub has_context_usage : Bool
  pub context_usage_percentage : ℕ
  pub context_window_size : ℕ
  pub signature : Bytes
  pub conversation_id : Bytes
  pub has_text : Bool
  pub local_stop : Bool
  pub stop_reason : StopReason
  pub stop_sequence : Bytes
  pub stop_sequences : List Bytes
  pub stop_seq_max_keep : ℕ
  pub stop_seq_pending : Bytes
  pub pre_counted_input_tokens : ℕ
  pub max_tokens_budget : ℕ
  pub output_rune_count : ℕ
  pub tags : TagState
  pub drop_tool_name : Bytes
  pub tool_name_map : List (Bytes × Bytes)

-- `initStopSequences`: the sequences that are not empty, and the runes of the longest less one.
unfoldable pub max_keep : List Bytes → ℕ → ℕ
max_keep [] n = n
max_keep (s ∷ ss) n =
    max_keep ss (if is_empty s then n else if ltb n (rune_count s - 1) then rune_count s - 1 else n)

unfoldable pub nonempty_sequences : List Bytes → List Bytes
nonempty_sequences [] = []
nonempty_sequences (s ∷ ss) =
    let rest = nonempty_sequences ss in if is_empty s then rest else s ∷ rest

unfoldable pub new_accumulator : ℕ → List Bytes → ℕ → ℕ → Accumulator
new_accumulator window seqs budget pre_counted = record {
  last_content = [];
  last_thinking = [];
  text_buf = [];
  thinking_buf = [];
  tool_calls = [];
  has_tool_use = false;
  tool_parse_error = false;
  has_metadata = false;
  input_tokens = 0;
  output_tokens = 0;
  cache_read_input_tokens = 0;
  cache_write_input_tokens = 0;
  has_context_usage = false;
  context_usage_percentage = 0;
  context_window_size = window;
  signature = [];
  conversation_id = [];
  has_text = false;
  local_stop = false;
  stop_reason = unset;
  stop_sequence = [];
  stop_sequences = nonempty_sequences seqs;
  stop_seq_max_keep = max_keep seqs 0;
  stop_seq_pending = [];
  pre_counted_input_tokens = pre_counted;
  max_tokens_budget = budget;
  output_rune_count = 0;
  tags = record { inside = false; buf = []; suppress = false };
  drop_tool_name = [];
  tool_name_map = [];
}
