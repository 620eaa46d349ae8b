-- ===== src/Openai/Stream/Agreement.antt =====
-- internal/openai/translate_stream.go: when what the client has got is what the stream has said so far.
use kiroxy.Prelude.{
  ℕ, ◌≡◌, refl, sym, ap, subst, ◌∙◌, inl, inr, true, false, if◌then◌else◌, List, [], ◌∷◌, ◌++◌,
  Option, none, some, length, length-append, append_assoc, append-nil, arith, Bool-cases,
}
use kiroxy.Prelude.Bytes.{Bytes, is_empty}
use kiroxy.Reqconv.{Block, is_tool_use}
use kiroxy.Openai.{FinishReason, map_finish_reason, ToolCall, Usage}
use kiroxy.Openai.Events.{ChunkDelta, empty_delta, Chunk, Output, chunk}
use kiroxy.Openai.Response.{has_tool_use}
use kiroxy.Openai.Stream.{
  Translator, Sink, tool_index, write, named, chunk_of, call_delta, write_chunk,
}
use kiroxy.Openai.Stream.Reader.{
  Got, put_calls, last_reason, receive, receive_all, nothing_got, Heard, current_blocks,
  heard_blocks, is_text,
}
use kiroxy.Openai.Stream.Said.{
  texts, raw_call, calls, texts-last, calls-last, has_tool_use-last, not-is_tool_use_of_text,
  put_call-last, receive_all-snoc,
}

abbrev pub got : Translator → Got
got s = receive_all s.written nothing_got

-- No write fails, and every chunk has its JSON.
abbrev pub IsQuiet : Sink → Type 0
IsQuiet k =
    ((xs : List Output) (x : Output) → k.fails xs x ≡ false) × ((c : Chunk) → k.encodes c ≡ true)

-- A chunk with this delta was written, and all else is as it was.
pub record Wrote (delta : ChunkDelta) (finish : Option FinishReason) (s s' : Translator)
    : Type 0 where
  pub went : s'.write_err ≡ false
  pub same_tools : s'.has_tool_use ≡ s.has_tool_use
  pub same_next : s'.next_tool_idx ≡ s.next_tool_idx
  pub same_idx : s'.block_tool_idx ≡ s.block_tool_idx
  pub same_finish : s'.finish_reason ≡ s.finish_reason
  pub same_final : s'.sent_final ≡ s.sent_final
  pub adds_text : (got s').text ≡ (got s).text ++ delta.content
  pub adds_calls : (got s').calls ≡ put_calls delta.tool_calls (got s).calls
  pub adds_finish : (got s').finish ≡ last_reason finish (got s).finish
  pub same_closed : (got s').closed ≡ (got s).closed

-- Where the block that goes on is in the translator's map.
abbrev pub IsCurrent : Heard → Translator → Type 0
IsCurrent h s = elim h.current [
  | none ↦ Unit
  | some (i, b) ↦
      tool_index i s.block_tool_idx
      ≡ (if is_tool_use b then some (length (calls h.settled)) else none)
]

pub record Agrees (h : Heard) (s : Translator) : Type 0 where
  pub sound : s.write_err ≡ false
  pub says_text : (got s).text ≡ texts (heard_blocks h)
  pub says_calls : (got s).calls ≡ calls (heard_blocks h)
  pub tools : s.has_tool_use ≡ has_tool_use (heard_blocks h)
  pub next : s.next_tool_idx ≡ length (calls (heard_blocks h))
  pub current : IsCurrent h s
  pub reason :
      s.finish_reason
      ≡ (if h.closing then some (map_finish_reason h.reason s.has_tool_use) else none)
  pub unsaid : h.closing ≡ false → h.reason ≡ []
  pub final : s.sent_final ≡ h.ended
  pub finish :
      (got s).finish ≡ (if h.ended then some (map_finish_reason h.reason s.has_tool_use) else none)
  pub open_end : (got s).closed ≡ false

-- What a chunk adds as long as the terminator has not come.
open-receive :
    (c : Chunk) (g : Got)
    → g.closed ≡ false
    → receive (chunk c) g ≡ record g {
      text = g.text ++ c.delta.content;
      calls = put_calls c.delta.tool_calls g.calls;
      finish = last_reason c.finish_reason g.finish;
    }
unfolding receive
open-receive c g o = rw o refl

module _ (k : Sink) (q : IsQuiet k) where
  sent-Wrote :
      (c : Chunk) (id : Bytes) (s : Translator)
      → s.write_err ≡ false
      → (got s).closed ≡ false
      → Wrote c.delta c.finish_reason s (write k (chunk c) (record s { chat_id = id }))
  unfolding write
  sent-Wrote c id s h o =
      let e = receive_all-snoc s.written (chunk c) nothing_got ∙ open-receive c (got s) o in
      rw (q.0 s.written (chunk c)) (record {
        went = h;
        same_tools = refl;
        same_next = refl;
        same_idx = refl;
        same_finish = refl;
        same_final = refl;
        adds_text = ap (λ g. g.text) e;
        adds_calls = ap (λ g. g.calls) e;
        adds_finish = ap (λ g. g.finish) e;
        same_closed = ap (λ g. g.closed) e;
      })

  pub write_chunk-Wrote :
      (delta : ChunkDelta) (finish : Option FinishReason) (usage : Option Usage) (s : Translator)
      → s.write_err ≡ false
      → (got s).closed ≡ false
      → Wrote delta finish s (write_chunk k delta finish usage s).0
        × ((write_chunk k delta finish usage s).1 ≡ none)
  unfolding named
  write_chunk-Wrote delta finish usage s h o =
      let c : Chunk = chunk_of k (named k s) delta finish usage in
      let e : write_chunk k delta finish usage s ≡ (write k (chunk c) (named k s), none) =
        unfold write_chunk in ground (arith, q.1 c) in
      rw e (elim (Bool-cases (is_empty s.chat_id)) [
        | inl b ↦ rw (named, b) (sent-Wrote _ _ s h o, refl)
        | inr b ↦ rw (named, b) (sent-Wrote _ s.chat_id s h o, refl)
      ])

  pub IsCurrent-same :
      (h : Heard) (s s' : Translator)
      → s'.block_tool_idx ≡ s.block_tool_idx
      → IsCurrent h s
      → IsCurrent h s'
  IsCurrent-same h s s' e c = subst (λ m. IsCurrent h (record s { block_tool_idx = m })) (sym e) c

  -- A chunk that says nothing.
  pub silent-Agrees :
      (delta : ChunkDelta) (h : Heard) (s s' : Translator)
      → Wrote delta none s s'
      → delta.content ≡ []
      → delta.tool_calls ≡ []
      → Agrees h s
      → Agrees h s'
  unfolding put_calls
  silent-Agrees delta h s s' w e c a = record {
    sound = w.went;
    says_text = w.adds_text ∙ (rw (e, append-nil (got s).text) a.says_text);
    says_calls = w.adds_calls ∙ (rw c a.says_calls);
    tools = w.same_tools ∙ a.tools;
    next = w.same_next ∙ a.next;
    current = IsCurrent-same h s s' w.same_idx a.current;
    reason = w.same_finish ∙ (rw w.same_tools a.reason);
    unsaid = a.unsaid;
    final = w.same_final ∙ a.final;
    finish = w.adds_finish ∙ (rw w.same_tools a.finish);
    open_end = w.same_closed ∙ a.open_end;
  }

  -- A chunk that says what is added to the block that goes on.
  replaced-Agrees :
      (delta : ChunkDelta) (j : ℕ) (b b' : Block) (h : Heard) (s s' : Translator)
      → Wrote delta none s s'
      → h.current ≡ some (j, b)
      → is_tool_use b' ≡ is_tool_use b
      → texts (h.settled ++ (b ∷ [])) ++ delta.content ≡ texts (h.settled ++ (b' ∷ []))
      → put_calls delta.tool_calls (calls (h.settled ++ (b ∷ []))) ≡ calls (h.settled ++ (b' ∷ []))
      → Agrees h s
      → Agrees (record h { current = some (j, b') }) s'
  replaced-Agrees delta j b b' h s s' w e u t c a =
      let all : heard_blocks h ≡ h.settled ++ (b ∷ []) =
        ap (λ o. h.settled ++ current_blocks o) e in
      let same_length : length (calls (h.settled ++ (b ∷ [])))
          ≡ length (calls (h.settled ++ (b' ∷ []))) =
        rw (calls-last h.settled b, calls-last h.settled b', u)
          (elim (Bool-cases (is_tool_use b)) [
            | inl y ↦ rw y (
                omega (
                  arith,
                  length-append (calls h.settled) (raw_call b ∷ []),
                  length-append (calls h.settled) (raw_call b' ∷ []),
                ))
            | inr n ↦ rw n refl
          ]) in
      record {
        sound = w.went;
        says_text = w.adds_text ∙ (ap (λ x. x ++ delta.content) (a.says_text ∙ ap texts all) ∙ t);
        says_calls =
            w.adds_calls ∙ (ap (put_calls delta.tool_calls) (a.says_calls ∙ ap calls all) ∙ c);
        tools =
            w.same_tools
            ∙ (a.tools
                ∙ (ap has_tool_use all
                    ∙ rw (has_tool_use-last h.settled b, has_tool_use-last h.settled b', u) refl));
        next = w.same_next ∙ (a.next ∙ (ap (λ x. length (calls x)) all ∙ same_length));
        current =
            w_current w.same_idx (subst (λ o. IsCurrent (record h { current = o }) s) e a.current)
              u;
        reason = w.same_finish ∙ (rw w.same_tools a.reason);
        unsaid = a.unsaid;
        final = w.same_final ∙ a.final;
        finish = w.adds_finish ∙ (rw w.same_tools a.finish);
        open_end = w.same_closed ∙ a.open_end;
      }
    where
      w_current :
          s'.block_tool_idx ≡ s.block_tool_idx
          → IsCurrent (record h { current = some (j, b) }) s
          → is_tool_use b' ≡ is_tool_use b
          → IsCurrent (record h { current = some (j, b') }) s'
      w_current m g u = rw (m, u) g

  -- The text of the block that goes on.
  pub text-Agrees :
      (t : Bytes) (j : ℕ) (b : Block) (h : Heard) (s s' : Translator)
      → Wrote (record empty_delta { content = t }) none s s'
      → h.current ≡ some (j, b)
      → is_text b ≡ true
      → Agrees h s
      → Agrees (record h { current = some (j, record b { block_text = b.block_text ++ t }) }) s'
  unfolding put_calls
  text-Agrees t j b h s s' w e i a =
      let b' : Block = record b { block_text = b.block_text ++ t } in
      let i' : is_text b' ≡ true = unfold is_text in i in
      let u = not-is_tool_use_of_text b i in
      let u' = not-is_tool_use_of_text b' i' in
      replaced-Agrees _ j b b' h s s' w e (u' ∙ sym u)
        (rw (texts-last h.settled b, texts-last h.settled b', i, i')
          (append_assoc (texts h.settled) b.block_text t))
        (rw (calls-last h.settled b, calls-last h.settled b', u, u') refl) a

  -- A piece of the input of the call that goes on.
  pub input-Agrees :
      (c : ToolCall) (j : ℕ) (b : Block) (h : Heard) (s s' : Translator)
      → Wrote (call_delta k (record c { index = some (length (calls h.settled)) })) none s s'
      → h.current ≡ some (j, b)
      → is_tool_use b ≡ true
      → Agrees h s
      → Agrees (record h { current = some (j, record b { input = b.input ++ c.arguments }) }) s'
  unfolding put_calls
  input-Agrees c j b h s s' w e u a =
      let b' : Block = record b { input = b.input ++ c.arguments } in
      let u' : is_tool_use b' ≡ true = unfold is_tool_use in u in
      replaced-Agrees _ j b b' h s s' w e (u' ∙ sym u)
        (rw (texts-last h.settled b, texts-last h.settled b') (unfold is_text in append-nil _))
        (rw (calls-last h.settled b, calls-last h.settled b', u, u') (put_call-last _ _ _)) a
