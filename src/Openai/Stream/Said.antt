-- ===== src/Openai/Stream/Said.antt =====
-- internal/openai/translate_stream.go: the text and the calls of blocks, as a client has them.
use kiroxy.Prelude.{
  ◌≡◌, refl, sym, ap, inl, inr, true, false, ◌||◌, if◌then◌else◌, List, [], ◌∷◌, ◌++◌, none, length,
  append_assoc, append-nil, arith, Bool-cases,
}
use kiroxy.Prelude.Bytes.{Bytes}
use kiroxy.Reqconv.{Block, is_tool_use}
use kiroxy.Openai.{ToolCall, function_type}
use kiroxy.Openai.Events.{Output}
use kiroxy.Openai.Response.{has_tool_use}
use kiroxy.Openai.Stream.Reader.{Got, put_call, receive, receive_all, is_text}

-- The text of the text blocks, and the calls of the others, in their order.
unfoldable pub texts : List Block → Bytes
unfolding is_text
texts [] = []
texts (b ∷ bs) = if is_text b then b.block_text ++ texts bs else texts bs

abbrev pub raw_call : Block → ToolCall
raw_call b = record {
  index = none;
  id = b.id;
  call_type = function_type;
  name = b.name;
  arguments = b.input;
}

unfoldable pub calls : List Block → List ToolCall
unfolding is_tool_use
calls [] = []
calls (b ∷ bs) = if is_tool_use b then raw_call b ∷ calls bs else calls bs

texts-append : (xs ys : List Block) → texts (xs ++ ys) ≡ texts xs ++ texts ys
unfolding texts
texts-append [] ys = refl
texts-append (x ∷ xs) ys = elim (Bool-cases (is_text x)) [
  | inl e ↦
      rw (texts, e, texts-append xs ys) (sym (append_assoc x.block_text (texts xs) (texts ys)))
  | inr e ↦ rw (texts, e) (texts-append xs ys)
]

calls-append : (xs ys : List Block) → calls (xs ++ ys) ≡ calls xs ++ calls ys
unfolding calls
calls-append [] ys = refl
calls-append (x ∷ xs) ys = elim (Bool-cases (is_tool_use x)) [
  | inl e ↦ rw (calls, e) (ap (◌∷◌ (raw_call x)) (calls-append xs ys))
  | inr e ↦ rw (calls, e) (calls-append xs ys)
]

has_tool_use-append :
    (xs ys : List Block) → has_tool_use (xs ++ ys) ≡ has_tool_use xs || has_tool_use ys
unfolding has_tool_use
has_tool_use-append [] ys = refl
has_tool_use-append (x ∷ xs) ys = ground (arith, has_tool_use-append xs ys)

pub texts-last :
    (xs : List Block) (b : Block)
    → texts (xs ++ (b ∷ [])) ≡ texts xs ++ (if is_text b then b.block_text else [])
unfolding texts
texts-last xs b = elim (Bool-cases (is_text b)) [
  | inl e ↦ rw (texts-append xs (b ∷ []), texts, e, append-nil b.block_text) refl
  | inr e ↦ rw (texts-append xs (b ∷ []), texts, e) refl
]

pub calls-last :
    (xs : List Block) (b : Block)
    → calls (xs ++ (b ∷ [])) ≡ (if is_tool_use b then calls xs ++ (raw_call b ∷ []) else calls xs)
unfolding calls
calls-last xs b = elim (Bool-cases (is_tool_use b)) [
  | inl e ↦ rw (calls-append xs (b ∷ []), calls, e) refl
  | inr e ↦ rw (calls-append xs (b ∷ []), calls, e) (append-nil (calls xs))
]

pub has_tool_use-last :
    (xs : List Block) (b : Block) → has_tool_use (xs ++ (b ∷ [])) ≡ has_tool_use xs || is_tool_use b
unfolding has_tool_use is_tool_use
has_tool_use-last xs b = rw (has_tool_use-append xs (b ∷ [])) (ground arith)

-- A block of text is no call.
pub not-is_tool_use_of_text : (b : Block) → is_text b ≡ true → is_tool_use b ≡ false
unfolding is_text is_tool_use
not-is_tool_use_of_text b h = ground arith

pub put_call-next :
    (c : ToolCall) (ds : List ToolCall)
    → put_call (length ds) c ds ≡ ds ++ (record c { index = none } ∷ [])
unfolding put_call
put_call-next c [] = refl
put_call-next c (d ∷ ds) = ap (◌∷◌ d) (put_call-next c ds)

pub put_call-last :
    (c d : ToolCall) (ds : List ToolCall)
    → put_call (length ds) c (ds ++ (d ∷ []))
      ≡ ds ++ (record d { arguments = d.arguments ++ c.arguments } ∷ [])
unfolding put_call
put_call-last c d [] = refl
put_call-last c d (e ∷ ds) = ap (◌∷◌ e) (put_call-last c d ds)

pub receive_all-snoc :
    (xs : List Output) (x : Output) (g : Got)
    → receive_all (xs ++ (x ∷ [])) g ≡ receive x (receive_all xs g)
unfolding receive_all
receive_all-snoc [] x g = refl
receive_all-snoc (y ∷ xs) x g = receive_all-snoc xs x (receive y g)
