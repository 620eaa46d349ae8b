-- ===== src/Openai/Translate/Message.antt =====
-- internal/openai: a streamed answer is, for its client, the answer that is not streamed.
use kiroxy.Prelude.{
  ◌≡◌, refl, sym, ap, subst, ◌∙◌, inl, inr, true, false, if◌then◌else◌, List, [], ◌∷◌, ◌++◌, Option,
  none, some, arith, Bool-cases, Option-cases, map, concat, some_inj, ℕ, ◌&&◌,
}
use kiroxy.Prelude.Bytes.{Bytes, is_empty, is_empty-cases, beq}
use kiroxy.Reqconv.{Block, is_tool_use}
use kiroxy.Openai.{FinishReason, ToolCall}
use kiroxy.Openai.Events.{Output, done, Event, Error, Decoders, decode_event, skipped}
use kiroxy.Openai.Frames.{parse_sse_frame}
use kiroxy.Openai.Response.{
  AnswerContent, answer_text, is_null, Answer, marshal_arguments, text_parts, gather_calls,
  has_tool_use, convert_assistant_content,
}
use kiroxy.Openai.Stream.{Translator, Sink, new_stream_translator, write, write_done}
use kiroxy.Openai.Stream.Reader.{
  Got, receive, receive_all, nothing_got, Heard, nothing_heard, heard_blocks, is_text, hear,
  hear_event,
}
use kiroxy.Openai.Stream.Said.{texts, calls, receive_all-snoc}
use kiroxy.Openai.Stream.Agreement.{got, IsQuiet, Agrees}
use kiroxy.Openai.Stream.Assembled.{hear-Agrees}
use kiroxy.Openai.Translate.{Scan, eof, broken, frame, take_frame, translate}

-- Null reads as no text.
abbrev pub content_text : AnswerContent → Bytes
content_text (answer_text t) = t
content_text is_null = []

pub texts-concat : (bs : List Block) → texts bs ≡ concat (text_parts bs)
unfolding texts text_parts is_text
texts-concat [] = refl
texts-concat (b ∷ bs) = elim (is_empty-cases b.block_text) [
  | inl (e, y) ↦ ground (arith, texts-concat bs)
  | inr (y, _) ↦ ground (arith, texts-concat bs)
]

module _ (marshal : Bytes → Option Bytes) where
  -- A call with its arguments parsed and written again.
  abbrev pub rewritten : ToolCall → ToolCall
  rewritten c = record c { arguments = marshal_arguments marshal c.arguments }

  calls-gather : (bs : List Block) → map rewritten (calls bs) ≡ gather_calls marshal bs
  unfolding calls gather_calls is_tool_use
  calls-gather [] = refl
  calls-gather (b ∷ bs) = ground (arith, calls-gather bs)

  -- The client's message is the answer.
  abbrev pub IsAnswer : Got → Answer × FinishReason → Type 0
  IsAnswer g (answer, finish) =
      (g.text ≡ content_text answer.content)
      × (map rewritten g.calls ≡ answer.tool_calls)
      × (g.finish ≡ some finish)

  pub content-text :
      (parts : List Bytes) (cs : List ToolCall)
      → concat parts
        ≡ content_text (
            if is_empty parts
            then if is_empty cs then answer_text [] else is_null
            else answer_text (concat parts))
  unfolding is_empty
  content-text [] [] = refl
  content-text [] (c ∷ cs) = refl
  content-text (t ∷ parts) cs = refl

  Agrees-IsAnswer :
      (h : Heard) (s : Translator)
      → h.ended ≡ true
      → Agrees h s
      → IsAnswer (got s) (convert_assistant_content marshal (heard_blocks h) h.reason)
  unfolding convert_assistant_content
  Agrees-IsAnswer h s e a = (
    a.says_text ∙ (texts-concat (heard_blocks h) ∙ content-text _ _),
    ap (map rewritten) a.says_calls ∙ calls-gather (heard_blocks h),
    rw e at (rw a.tools at a.finish),
  )

-- What the stream says, from a message so far: its frames are events in place, up to the end.
module _ (d : Decoders) (trim_space : Bytes → Bytes) where
  unfoldable pub hear_all : Scan → Heard → Option Heard
  unfolding hear decode_event parse_sse_frame
  hear_all eof h = some h
  hear_all broken h = none
  hear_all (frame stop bytes rest) h =
      if stop then none else elim (hear (decode_event d (parse_sse_frame trim_space bytes)) h) [
        | none ↦ none
        | some h' ↦ hear_all rest h'
      ]

hear-hear_event :
    (e : Event) (h h' : Heard) → hear e h ≡ some h' → (h.ended ≡ false) × (hear_event e h ≡ some h')
unfolding hear
hear-hear_event e h h' s = ground arith

skipped-same : (h h' : Heard) → hear_event skipped h ≡ some h' → h ≡ h'
unfolding hear_event
skipped-same h h' s = some_inj s

module _ (k : Sink) (q : IsQuiet k) (d : Decoders) (trim_space : Bytes → Bytes) where
  write_done-closed :
      (s : Translator)
      → s.write_err ≡ false
      → (got s).closed ≡ false
      → (got (write_done k s) ≡ record (got s) { closed = true })
        × ((write_done k s).written ≡ s.written ++ (done ∷ []))
  unfolding write_done write receive
  write_done-closed s e o =
      let w : write_done k s ≡ record s { written = s.written ++ (done ∷ []) } =
        ground (arith, q.0 s.written done) in
      (ap got w ∙ (receive_all-snoc s.written done nothing_got ∙ rw o refl), ap (λ u. u.written) w)

  new-Agrees :
      (echo_model : Bytes) (now : ℕ) → Agrees nothing_heard (new_stream_translator echo_model now)
  unfolding new_stream_translator receive_all texts calls has_tool_use
  new-Agrees echo_model now = record {
    sound = refl;
    says_text = refl;
    says_calls = refl;
    tools = refl;
    next = refl;
    current = tt;
    reason = refl;
    unsaid = λ _. refl;
    final = refl;
    finish = refl;
    open_end = refl;
  }

  decode_event-unnamed :
      (event payload : Bytes) → is_empty event ≡ true → decode_event d (event, payload) ≡ skipped
  unfolding decode_event is_empty beq
  decode_event-unnamed [] payload e = refl
  decode_event-unnamed (x ∷ event) payload e = absurd cc

  -- A frame with an event in place.
  take_frame-Agrees :
      (f : Bytes × Bytes) (rest : Translator → Translator × Option Error) (h h' : Heard)
      (s : Translator)
      → hear (decode_event d f) h ≡ some h'
      → Agrees h s
      → (s' : Translator) × (take_frame k d trim_space f rest s ≡ rest s') × Agrees h' s'
  unfolding take_frame
  take_frame-Agrees (event, payload) rest h h' s e a =
      let (o, e') = hear-hear_event (decode_event d (event, payload)) h h' e in
      elim (Bool-cases (is_empty event && is_empty payload)) [
        | inl y ↦
            let same : h ≡ h' =
              skipped-same h h' (rw (decode_event-unnamed event payload (ground arith)) at e') in
            (s, rw y refl, rw (sym same) a)
        | inr n ↦
            let (a', f) = hear-Agrees k q (decode_event d (event, payload)) h h' s o e' a in
            (_, rw (n, f, a'.sound) refl, a')
      ]

  translate-Agrees :
      (scan : Scan) (h h' : Heard) (s : Translator)
      → hear_all d trim_space scan h ≡ some h'
      → Agrees h s
      → (s' : Translator) × (translate k d trim_space scan s ≡ (write_done k s', none))
        × Agrees h' s'
  unfolding translate hear_all
  translate-Agrees eof h h' s e a = (s, refl, rw (sym (some_inj e)) a)
  translate-Agrees broken h h' s e a = absurd cc
  translate-Agrees (frame true bytes rest) h h' s e a = absurd cc
  translate-Agrees (frame false bytes rest) h h' s e a =
      let f = parse_sse_frame trim_space bytes in
      elim (Option-cases (hear (decode_event d f) h)) [
        | inl n ↦ absurd (ground (arith, n))
        | inr (m, n) ↦
            let (s1, e1, a1) = take_frame-Agrees f (translate k d trim_space rest) h m s n a in
            let (s2, e2, a2) = translate-Agrees rest m h' s1 (rw n at e) a1 in (s2, e1 ∙ e2, a2)
      ]

  -- If no write fails and the frames of a stream are, to their end, events in place and end with the
  -- message, then translating it fails nowhere, writes the terminator last and not before, and leaves the
  -- client, who reads up to it, with the text, the calls with their arguments, and the reason to finish
  -- of the answer that the blocks of the stream translate to as a whole.
  pub translate-IsAnswer :
      (marshal : Bytes → Option Bytes) (scan : Scan) (echo_model : Bytes) (now : ℕ) (h : Heard)
      → hear_all d trim_space scan nothing_heard ≡ some h
      → h.ended ≡ true
      → let (s, failed) = translate k d trim_space scan (new_stream_translator echo_model now) in
        (failed ≡ none)
        × ((xs : List Output) × (s.written ≡ xs ++ (done ∷ []))
            × ((receive_all xs nothing_got).closed ≡ false))
        × ((got s).closed ≡ true)
        × IsAnswer marshal (got s) (convert_assistant_content marshal (heard_blocks h) h.reason)
  translate-IsAnswer marshal scan echo_model now h e o =
      let (s, t, a) = translate-Agrees scan nothing_heard h _ e (new-Agrees echo_model now) in
      let (c, w) = write_done-closed s a.sound a.open_end in
      rw t (
        refl,
        (s.written, w, a.open_end),
        ap (λ g. g.closed) c,
        subst
            (λ g. IsAnswer marshal g (convert_assistant_content marshal (heard_blocks h) h.reason))
            (sym c) (Agrees-IsAnswer marshal h s o a),
      )
