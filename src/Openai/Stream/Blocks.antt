-- ===== src/Openai/Stream/Blocks.antt =====
-- internal/openai/translate_stream.go: a block that begins, and what is added to it, in the chunks.
use kiroxy.Prelude.{
  ℕ, ◌+◌, ◌≡◌, refl, sym, ap, subst, ◌∙◌, inl, inr, true, false, ==_self, or-true, or-false, List,
  [], ◌∷◌, ◌++◌, none, some, length, length-append, append-nil, arith, Bool-cases, Option-cases,
}
use kiroxy.Prelude.Bytes.{Bytes, is_empty-cases}
use kiroxy.Reqconv.{BlockType, tool_use, server_tool_use, Block, is_tool_use}
use kiroxy.Openai.{ToolCall}
use kiroxy.Openai.Events.{empty_delta}
use kiroxy.Openai.Stream.{
  Translator, Sink, tool_index, call_delta, start_tool, handle_block_start, handle_text_delta,
  handle_input_delta,
}
use kiroxy.Openai.Stream.Reader.{
  put_calls, Heard, heard_blocks, new_block, is_text, hear_text, hear_input,
}
use kiroxy.Openai.Stream.Said.{
  texts, raw_call, calls, texts-last, calls-last, has_tool_use-last, put_call-next,
}
use kiroxy.Openai.Stream.Agreement.{
  got, IsQuiet, Wrote, IsCurrent, Agrees, write_chunk-Wrote, text-Agrees, input-Agrees,
}

-- The message with a block begun.
abbrev pub begun : ℕ → Block → Heard → Heard
begun i b h = record h { settled = heard_blocks h; current = some (i, b) }

texts-begun : (bs : List Block) (b : Block) → b.block_text ≡ [] → texts (bs ++ (b ∷ [])) ≡ texts bs
texts-begun bs b e = elim (Bool-cases (is_text b)) [
  | inl y ↦ rw (texts-last bs b, y, e) (append-nil (texts bs))
  | inr n ↦ rw (texts-last bs b, n) (append-nil (texts bs))
]

heard_text :
    (i : ℕ) (t : Bytes) (h h' : Heard)
    → hear_text i t h ≡ some h'
    → (j : ℕ) × (b : Block) × (h.current ≡ some (j, b))
      × (is_text b ≡ true)
      × (record h { current = some (j, record b { block_text = b.block_text ++ t }) } ≡ h')
unfolding hear_text
heard_text i t h h' e = elim (Option-cases h.current) [
  | inl n ↦ absurd (ground arith)
  | inr ((j, b), n) ↦ (j, b, n, ground arith, ground arith)
]

heard_input :
    (i : ℕ) (t : Bytes) (h h' : Heard)
    → hear_input i t h ≡ some h'
    → (j : ℕ) × (b : Block) × ((h.current ≡ some (j, b)) × (i ≡ j))
      × (is_tool_use b ≡ true)
      × (record h { current = some (j, record b { input = b.input ++ t }) } ≡ h')
unfolding hear_input
heard_input i t h h' e = elim (Option-cases h.current) [
  | inl n ↦ absurd (ground arith)
  | inr ((j, b), n) ↦ (j, b, (n, ground arith), ground arith, ground arith)
]

module _ (k : Sink) (q : IsQuiet k) where
  other-Agrees :
      (i : ℕ) (b : Block) (h : Heard) (s : Translator)
      → is_tool_use b ≡ false
      → b.block_text ≡ []
      → h.closing ≡ false
      → h.ended ≡ false
      → Agrees h s
      → Agrees (begun i b h) (record s { block_tool_idx = (i, none) ∷ s.block_tool_idx })
  unfolding tool_index
  other-Agrees i b h s n e c o a = record {
    sound = a.sound;
    says_text = a.says_text ∙ sym (texts-begun (heard_blocks h) b e);
    says_calls = rw (calls-last (heard_blocks h) b, n) a.says_calls;
    tools = rw (has_tool_use-last (heard_blocks h) b, n) (a.tools ∙ sym (or-false _));
    next = rw (calls-last (heard_blocks h) b, n) a.next;
    current = rw (==_self i, n) refl;
    reason = a.reason;
    unsaid = a.unsaid;
    final = a.final;
    finish = a.finish;
    open_end = a.open_end;
  }

  tool-Agrees :
      (i : ℕ) (b : Block) (h : Heard) (s s' : Translator)
      → is_tool_use b ≡ true
      → b.block_text ≡ []
      → h.closing ≡ false
      → h.ended ≡ false
      → Wrote
          (call_delta k (record (raw_call b) { index = some s.next_tool_idx }))
          none
          (record s {
            has_tool_use = true;
            next_tool_idx = s.next_tool_idx + 1;
            block_tool_idx = (i, some s.next_tool_idx) ∷ s.block_tool_idx;
            block_tool_meta = (i, b.id, b.name) ∷ s.block_tool_meta;
          })
          s'
      → Agrees h s
      → Agrees (begun i b h) s'
  unfolding tool_index put_calls
  tool-Agrees i b h s s' y e c o w a = record {
    sound = w.went;
    says_text =
        w.adds_text
        ∙ (append-nil (got s).text ∙ (a.says_text ∙ sym (texts-begun (heard_blocks h) b e)));
    says_calls =
        w.adds_calls
        ∙ (rw (calls-last (heard_blocks h) b, y, a.next, a.says_calls) (put_call-next _ _));
    tools = w.same_tools ∙ (rw (has_tool_use-last (heard_blocks h) b, y) (sym (or-true _)));
    next =
        w.same_next
        ∙ (rw (calls-last (heard_blocks h) b, y)
            (omega (arith, a.next, length-append (calls (heard_blocks h)) (raw_call b ∷ []))));
    current = rw (w.same_idx, ==_self i, y) (ap some a.next);
    reason = w.same_finish ∙ (rw c (rw c at a.reason));
    unsaid = a.unsaid;
    final = w.same_final ∙ a.final;
    finish = w.adds_finish ∙ (rw o (rw o at a.finish));
    open_end = w.same_closed ∙ a.open_end;
  }

  pub block_start-Agrees :
      (i : ℕ) (t : BlockType) (id name : Bytes) (h : Heard) (s : Translator)
      → h.closing ≡ false
      → h.ended ≡ false
      → Agrees h s
      → Agrees (begun i (new_block t id name) h) (handle_block_start k i t id name s).0
        × ((handle_block_start k i t id name s).1 ≡ none)
  unfolding handle_block_start start_tool is_tool_use
  block_start-Agrees i tool_use id name h s c o a =
      let (w, e) = write_chunk-Wrote k q _ none none _ a.sound a.open_end in
      (tool-Agrees i (new_block tool_use id name) h s _ refl refl c o w a, e)
  block_start-Agrees i server_tool_use id name h s c o a =
      let (w, e) = write_chunk-Wrote k q _ none none _ a.sound a.open_end in
      (tool-Agrees i (new_block server_tool_use id name) h s _ refl refl c o w a, e)
  block_start-Agrees i t id name h s c o a =
      (other-Agrees i (new_block t id name) h s refl refl c o a, refl)

  pub text_delta-Agrees :
      (i : ℕ) (t : Bytes) (h h' : Heard) (s : Translator)
      → hear_text i t h ≡ some h'
      → Agrees h s
      → Agrees h' (handle_text_delta k t s).0 × ((handle_text_delta k t s).1 ≡ none)
  unfolding handle_text_delta
  text_delta-Agrees i t h h' s e a =
      let (j, b, here, is, same) = heard_text i t h h' e in
      elim (is_empty-cases t) [
        | inl (n, y) ↦
            rw (y, sym same, n, append-nil b.block_text)
              (subst (λ o. Agrees (record h { current = o }) s) here a, refl)
        | inr (y, _) ↦
            let (w, f) =
              write_chunk-Wrote k q (record empty_delta { content = t }) none none s a.sound
                a.open_end in
            rw (y, sym same) (text-Agrees k q t j b h s _ w here is a, f)
      ]

  pub input_delta-Agrees :
      (i : ℕ) (t : Bytes) (h h' : Heard) (s : Translator)
      → hear_input i t h ≡ some h'
      → Agrees h s
      → Agrees h' (handle_input_delta k i t s).0 × ((handle_input_delta k i t s).1 ≡ none)
  unfolding handle_input_delta
  input_delta-Agrees i t h h' s e a =
      let (j, b, here, is, same) = heard_input i t h h' e in
      let n = length (calls h.settled) in
      let at_j : IsCurrent (record h { current = some (j, b) }) s =
        subst (λ o. IsCurrent (record h { current = o }) s) here.0 a.current in
      let m : tool_index i s.block_tool_idx ≡ some n = rw (here.1) (rw is at at_j) in
      let c : ToolCall = record {
        index = some n;
        id = [];
        call_type = [];
        name = [];
        arguments = t;
      } in
      let (w, f) = write_chunk-Wrote k q (call_delta k c) none none s a.sound a.open_end in
      rw (handle_input_delta, m, sym same) (input-Agrees k q c j b h s _ w here.0 is a, f)
