-- ===== src/Openai/Request.antt =====
-- internal/openai/translate_request.go and models.go: a request for a chat completion as one for a message.
pub mod Model
use kiroxy.Prelude.{
  ℕ, zero, suc, Bool, true, false, not, ◌&&◌, ◌==◌, if◌then◌else◌, List, [], ◌∷◌, Option, none,
  some, drop, length,
}
use kiroxy.Prelude.Bytes.{Bytes, codes, beq, is_empty}
use kiroxy.Strings.Prefix.{has_prefix}
use kiroxy.Reqconv.{Message}
use kiroxy.Openai.{function_type}
use kiroxy.Openai.Chat.{
  ChatMessage, ValidationError, model_required, messages_empty, only_one_choice, function_choice,
  tool_type, tool_name_required, Result, ok, invalid, ◌>>=◌,
}
use kiroxy.Openai.Content.{Decoding}
use kiroxy.Openai.Messages.{split_system, translate_messages}

-- `aliasTable`
abbrev pub alias_table : List (Bytes × Bytes)
alias_table =
    (codes "gpt-4o", codes "claude-sonnet-4-6")
    ∷ (codes "gpt-4o-mini", codes "claude-sonnet-4-6")
    ∷ (codes "gpt-4-turbo", codes "claude-opus-4-7")
    ∷ (codes "gpt-4", codes "claude-opus-4-7")
    ∷ (codes "gpt-3.5-turbo", codes "claude-haiku-4.5")
    ∷ (codes "o1", codes "claude-opus-4-7")
    ∷ (codes "o1-mini", codes "claude-sonnet-4-6")
    ∷ []

unfoldable pub alias : Bytes → List (Bytes × Bytes) → Bytes
alias name [] = name
alias name ((a, m) ∷ table) = if beq name a then m else alias name table

abbrev pub vendor_prefix : Bytes
vendor_prefix = codes "openai/"

-- `ResolveModel`, with one call for each unit of fuel.
unfoldable pub resolve_name : (Bytes → Bytes) → ℕ → Bytes → Bytes
unfolding alias has_prefix
resolve_name trim_space zero name = trim_space name
resolve_name trim_space (suc fuel) name =
    let trimmed = trim_space name in
    let rest = resolve_name trim_space fuel (drop (length vendor_prefix) trimmed) in
    if has_prefix vendor_prefix trimmed then rest else alias trimmed alias_table

unfoldable pub resolve_model : (Bytes → Bytes) → Bytes → Bytes
unfolding resolve_name
resolve_model trim_space name = resolve_name trim_space (suc (length name)) name

-- `Tool`; the schema is the JSON of its parameters.
pub record ChatTool : Type 0 where
  pub tool_kind : Bytes
  pub name : Bytes
  pub description : Bytes
  pub parameters : Bytes

pub record ToolChoice : Type 0 where
  pub choice_string : Bytes
  pub function : Bytes

-- `ChatCompletionRequest`, with the fields that are read. A maximum of 0 stands for any that is not
-- positive.
pub record ChatRequest : Type 0 where
  pub model : Bytes
  pub messages : List ChatMessage
  pub max_tokens : Option ℕ
  pub max_output_tokens : Option ℕ
  pub stream : Bool
  pub stop : List Bytes
  pub tools : List ChatTool
  pub tool_choice : Option ToolChoice
  pub n : Option ℕ

-- `anthropic.Tool` and `anthropic.Request`, with the fields that are set.
pub record Tool : Type 0 where
  pub name : Bytes
  pub description : Bytes
  pub input_schema : Bytes

pub record Request : Type 0 where
  pub model : Bytes
  pub stream : Bool
  pub max_tokens : ℕ
  pub stop_sequences : List Bytes
  pub tools : List Tool
  pub system : Bytes
  pub messages : List Message

abbrev pub default_max_tokens : ℕ
default_max_tokens = 4096

unfoldable pub max_tokens_of : Option ℕ → Option ℕ → ℕ
max_tokens_of (some n) m = if n == 0 then default_max_tokens else n
max_tokens_of none (some n) = if n == 0 then default_max_tokens else n
max_tokens_of none none = default_max_tokens

module _ (d : Decoding) where
  unfoldable pub translate_tool : ChatTool → Result Tool
  translate_tool t =
      if not (is_empty t.tool_kind) && not (beq t.tool_kind function_type)
      then invalid tool_type
      else if is_empty (d.trim_space t.name)
      then invalid tool_name_required
      else ok (record { name = t.name; description = t.description; input_schema = t.parameters })

  unfoldable pub translate_tools : List ChatTool → Result (List Tool)
  unfolding translate_tool
  translate_tools [] = ok []
  translate_tools (t ∷ ts) = translate_tool t >>= λ a. translate_tools ts >>= λ bs. ok (a ∷ bs)

  -- The tools, as the choice of the caller has them.
  unfoldable pub choose_tools : Option ToolChoice → List ChatTool → Result (List Tool)
  unfolding translate_tools
  choose_tools none ts = translate_tools ts
  choose_tools (some c) ts =
      if not (is_empty c.function)
      then invalid function_choice
      else if beq c.choice_string (codes "none")
      then ok []
      else translate_tools ts

  unfoldable pub is_one : Option ℕ → Bool
  is_one none = true
  is_one (some n) = n == 1

  -- What `TranslateRequest` does behind its checks.
  unfoldable pub translate_body : ChatRequest → Result Request
  unfolding choose_tools split_system translate_messages max_tokens_of resolve_model
  translate_body r = choose_tools r.tool_choice r.tools >>= λ ts.
      split_system r.messages >>= λ parts. translate_messages d none parts.1 >>= λ ms. ok (record {
        model = resolve_model d.trim_space r.model;
        stream = r.stream;
        max_tokens = max_tokens_of r.max_tokens r.max_output_tokens;
        stop_sequences = r.stop;
        tools = ts;
        system = parts.0;
        messages = ms;
      })

  -- `TranslateRequest`
  unfoldable pub translate_request : ChatRequest → Result Request
  unfolding translate_body is_one
  translate_request r =
      if is_empty (d.trim_space r.model)
      then invalid model_required
      else if is_empty r.messages
      then invalid messages_empty
      else if not (is_one r.n)
      then invalid only_one_choice
      else translate_body r
