-- ===== src/Openai/Messages/Items.antt =====
-- internal/openai/translate_request.go: the calls and the results that blocks and messages hold.
use kiroxy.Prelude.{
  ◌≡◌, refl, sym, ap, ◌∙◌, Bool, true, false, if◌then◌else◌, List, [], ◌∷◌, ◌++◌, Option, none,
  some, map, append_assoc,
}
use kiroxy.Prelude.Bytes.{Bytes, is_empty}
use kiroxy.Reqconv.{
  Role, ResultContent, plain_result, tool_use, tool_result, Block, Content, plain, blocks, Message,
}
use kiroxy.Openai.{ToolCall}
use kiroxy.Openai.Chat.{ChatRole, tool, ChatMessage, ValidationError, Result, ok, invalid, ◌>>=◌}
use kiroxy.Openai.Content.{parse_arguments_json, content_as_text, Decoding}
use kiroxy.Openai.Messages.{text_block, of_blocks, close_results, and_result}

-- A call, with its identifier, its name and its input, or the result of one, with the identifier of the
-- call and its content; each with the role of the message that it stands in.
pub data Item : Type 0 where
  called : Role → Bytes → Bytes → Bytes → Item
  answered : Role → Bytes → ResultContent → Item

abbrev pub block_items : Role → Block → List Item
block_items r b = elim b.block_type [
  | tool_use ↦ called r b.id b.name b.input ∷ []
  | tool_result ↦ answered r b.tool_use_id b.result ∷ []
  | _ ↦ []
]

abbrev pub items : Role → List Block → List Item
items r [] = []
items r (b ∷ bs) = block_items r b ++ items r bs

abbrev pub content_items : Role → Content → List Item
content_items r (plain t) = []
content_items r (blocks bs) = items r bs

-- The calls and the results in Anthropic messages.
abbrev pub message_items : List Message → List Item
message_items [] = []
message_items (m ∷ ms) = content_items m.role m.content ++ message_items ms

abbrev pub or_empty : Result Bytes → Bytes
or_empty (ok t) = t
or_empty (invalid e) = []

-- A call of the chat, with its arguments read.
abbrev pub call_item : Decoding → ToolCall → Item
call_item d c = called Role.assistant c.id c.name (or_empty (parse_arguments_json d c.arguments))

-- The calls of the assistant and the messages of tools, in a chat.
abbrev pub chat_item : Decoding → ChatMessage → List Item
chat_item d m = elim m.role [
  | ChatRole.assistant ↦ map (call_item d) m.tool_calls
  | tool ↦
      answered Role.user m.tool_call_id (plain_result (or_empty (content_as_text m.content))) ∷ []
  | _ ↦ []
]

abbrev pub chat_items : Decoding → List ChatMessage → List Item
chat_items d [] = []
chat_items d (m ∷ ms) = chat_item d m ++ chat_items d ms

abbrev pub run_items : Option (List Block) → List Item
run_items none = []
run_items (some bs) = items Role.user bs

pub first_ok {ℓ μ} :
    {X : Type ℓ} {Y : Type μ} (step : Result X) (next : X → Result Y) {y : Y}
    → (step >>= next) ≡ ok y
    → (x : X) × (step ≡ ok x) × (next x ≡ ok y)
first_ok (ok x) next given = (x, refl, given)
first_ok (invalid e) next given = cc

pub if-eq-ok {ℓ} :
    {A : Type ℓ} (t : Bool) (e : ValidationError) (r : Result A) {a : A}
    → (if t then invalid e else r) ≡ ok a
    → r ≡ ok a
if-eq-ok true e r h = cc
if-eq-ok false e r h = h

-- A text before some blocks.
pub after_text :
    (r : Role) (t : Bytes) (bs : List Block)
    → items r (if is_empty t then bs else text_block t ∷ bs) ≡ items r bs
unfolding is_empty
after_text r [] bs = refl
after_text r (c ∷ t) bs = refl

pub ok_inj {ℓ} : {A : Type ℓ} {a b : A} → ok a ≡ ok b → a ≡ b
ok_inj h = cc

pub items-append : (r : Role) (xs ys : List Block) → items r (xs ++ ys) ≡ items r xs ++ items r ys
items-append r [] ys = refl
items-append r (x ∷ xs) ys =
    ap (λ t. block_items r x ++ t) (items-append r xs ys)
    ∙ sym (append_assoc (block_items r x) (items r xs) (items r ys))

pub of_blocks-items :
    (d : Decoding) (r : Role) (bs : List Block) → content_items r (of_blocks d bs) ≡ items r bs
unfolding of_blocks
of_blocks-items d r [] = refl
of_blocks-items d r (b ∷ bs) = refl

pub close_results-items :
    (d : Decoding) (run : Option (List Block)) (ms : List Message)
    → message_items (close_results d run ms) ≡ run_items run ++ message_items ms
unfolding close_results
close_results-items d none ms = refl
close_results-items d (some bs) ms = refl

pub and_result-items :
    (d : Decoding) (run : Option (List Block)) (b : Block)
    → run_items (and_result d run b) ≡ run_items run ++ items Role.user (b ∷ [])
and_result-items d none b = refl
and_result-items d (some bs) b = items-append Role.user bs (b ∷ [])
