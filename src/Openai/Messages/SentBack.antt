-- ===== src/Openai/Messages/SentBack.antt =====
-- internal/openai: an answer that a client sends back with its next request.
use kiroxy.Prelude.{
  ◌≡◌, refl, sym, ap, ◌∙◌, inl, inr, true, false, if◌then◌else◌, List, [], ◌∷◌, ◌++◌, Option, none,
  some, ◌⊎◌, Option-cases, map, arith, All, Bool-cases, append-nil,
}
use kiroxy.Prelude.Bytes.{Bytes, is_empty, beq, codes}
use kiroxy.Reqconv.{Role, Block, Content, plain, blocks, Message, is_tool_use}
use kiroxy.Openai.Chat.{ChatRole, ChatContent, content_string, content_null, ChatMessage, ok}
use kiroxy.Openai.Content.{Decoding, content_as_text, parse_arguments_json}
use kiroxy.Openai.Messages.{
  text_block, call_block, of_blocks, translate_call, translate_calls, translate_assistant_message,
}
use kiroxy.Openai.Response.{
  AnswerContent, answer_text, is_null, Answer, marshal_arguments, text_parts, gather_calls, call_of,
  convert_assistant_content,
}
use kiroxy.Openai.Stream.Said.{texts, calls}
use kiroxy.Openai.Stream.Reader.{is_text}
use kiroxy.Openai.Translate.Message.{content_text, texts-concat, content-text}

abbrev as_content : AnswerContent → ChatContent
as_content (answer_text t) = content_string t
as_content is_null = content_null

-- The answer as a message of the chat.
abbrev pub sent_back : Answer → ChatMessage
sent_back a = record {
  role = ChatRole.assistant;
  content = as_content a.content;
  tool_calls = a.tool_calls;
  tool_call_id = [];
}

abbrev pub content_blocks : Content → List Block
content_blocks (plain t) = []
content_blocks (blocks bs) = bs

abbrev braces : Bytes
braces = codes "{}"

-- What the JSON library does with the inputs of tools: `{}` is read as it is, and an input that is
-- written is a text that starts and ends with no space, and is read as that input or as null.
pub record Json (d : Decoding) (marshal : Bytes → Option Bytes) : Type 0 where
  pub braces_trimmed : d.trim_space braces ≡ braces
  pub braces_read : d.parse braces ≡ some (some braces)
  pub trimmed : (i m : Bytes) → marshal i ≡ some m → (d.trim_space m ≡ m) × (is_empty m ≡ false)
  pub read :
      (i m : Bytes) → marshal i ≡ some m → (d.parse m ≡ some (some i)) ⊎ (d.parse m ≡ some none)

module _ (d : Decoding) (marshal : Bytes → Option Bytes) where
  -- The input that a call has after the journey: no input, one that cannot be written and null become the
  -- empty object, and any other stays.
  abbrev pub kept_input : Bytes → Bytes
  kept_input i = if is_empty i then braces else elim (marshal i) [
    | none ↦ braces
    | some m ↦ elim (d.parse m) [ some (some o) ↦ i | _ ↦ braces ]
  ]

  abbrev pub kept : Block → Block
  kept b = record b { input = kept_input b.input }

  -- A call has an identifier.
  abbrev pub HasId : Block → Type 0
  HasId b = is_tool_use b ≡ true → is_empty b.id ≡ false

  kept_input-read :
      (laws : Json d marshal) (i : Bytes)
      → parse_arguments_json d (marshal_arguments marshal i) ≡ ok (kept_input i)
  unfolding parse_arguments_json marshal_arguments is_empty
  kept_input-read laws i = elim (Bool-cases (is_empty i)) [
    | inl e ↦
        rw (marshal_arguments, e, parse_arguments_json, laws.braces_trimmed, laws.braces_read) refl
    | inr e ↦ elim (Option-cases (marshal i)) [
      | inl f ↦
          rw (marshal_arguments, e, f, parse_arguments_json, laws.braces_trimmed, laws.braces_read)
            refl
      | inr (m, f) ↦
          let (t, u) = laws.trimmed i m f in
          elim (laws.read i m f) [
            | inl r ↦ rw (marshal_arguments, e, f, parse_arguments_json, t, u, r) refl
            | inr r ↦ rw (marshal_arguments, e, f, parse_arguments_json, t, u, r) refl
          ]
    ]
  ]

  translate_call_of :
      (laws : Json d marshal) (b : Block)
      → is_empty b.id ≡ false
      → translate_call d (call_of marshal b)
        ≡ ok (call_block d (call_of marshal b) (kept_input b.input))
  unfolding translate_call is_empty beq
  translate_call_of laws b i = rw (i, kept_input-read laws b.input) refl

  -- The blocks of the calls.
  call_blocks : List Block → List Block
  unfolding is_tool_use
  call_blocks [] = []
  call_blocks (b ∷ bs) =
      if is_tool_use b
      then call_block d (call_of marshal b) (kept_input b.input) ∷ call_blocks bs
      else call_blocks bs

  gather_calls-cons :
      (b : Block) (bs : List Block)
      → gather_calls marshal (b ∷ bs) ≡ (
          if is_tool_use b
          then call_of marshal b ∷ gather_calls marshal bs
          else gather_calls marshal bs)
  unfolding gather_calls is_tool_use
  gather_calls-cons b bs = ground arith

  translate_calls-gather :
      (laws : Json d marshal) (bs : List Block)
      → All HasId bs
      → translate_calls d (gather_calls marshal bs) ≡ ok (call_blocks bs)
  unfolding translate_calls call_blocks
  translate_calls-gather laws [] h = unfold gather_calls in refl
  translate_calls-gather laws (b ∷ bs) (h, hs) = elim (Bool-cases (is_tool_use b)) [
    | inl y ↦
        rw
          (
            gather_calls-cons b bs,
            call_blocks,
            y,
            translate_calls,
            translate_call_of laws b (h y),
            translate_calls-gather laws bs hs,
          )
          refl
    | inr n ↦ rw (gather_calls-cons b bs, call_blocks, n) (translate_calls-gather laws bs hs)
  ]

  call_blocks-calls : (bs : List Block) → calls (call_blocks bs) ≡ calls (map kept bs)
  unfolding calls call_blocks is_tool_use
  call_blocks-calls [] = refl
  call_blocks-calls (b ∷ bs) = ground (arith, call_blocks-calls bs)

  call_blocks-texts : (bs : List Block) → texts (call_blocks bs) ≡ []
  unfolding texts call_blocks is_text is_tool_use
  call_blocks-texts [] = refl
  call_blocks-texts (b ∷ bs) = ground (arith, call_blocks-texts bs)

  content_as_text-sent : (c : AnswerContent) → content_as_text (as_content c) ≡ ok (content_text c)
  unfolding content_as_text
  content_as_text-sent (answer_text t) = refl
  content_as_text-sent is_null = refl

  of_blocks-blocks : (bs : List Block) → content_blocks (of_blocks d bs) ≡ bs
  unfolding of_blocks
  of_blocks-blocks [] = refl
  of_blocks-blocks (b ∷ bs) = refl

  -- The text, and behind it the calls.
  with_text-says :
      (t : Bytes) (bs : List Block)
      → let out = if is_empty t then call_blocks bs else text_block t ∷ call_blocks bs in
        (texts out ≡ t) × (calls out ≡ calls (map kept bs))
  unfolding is_empty is_text is_tool_use
  with_text-says [] bs = (call_blocks-texts bs, call_blocks-calls bs)
  with_text-says (c ∷ t) bs = (
    unfold texts in (ap (λ u. (c ∷ t) ++ u) (call_blocks-texts bs) ∙ append-nil (c ∷ t)),
    unfold calls in call_blocks-calls bs,
  )

  -- If every call of an answer has an identifier, then the answer that is sent back becomes a message
  -- of the assistant with the text and the calls of the blocks that it was made from, with their inputs,
  -- where no input, one that cannot be written and null become the empty object.
  pub translate_assistant_message-sent_back :
      (laws : Json d marshal) (bs : List Block) (stop_reason : Bytes)
      → All HasId bs
      → let (answer, _) = convert_assistant_content marshal bs stop_reason in
        (m : Message) × (translate_assistant_message d (sent_back answer) ≡ ok m)
        × (m.role ≡ Role.assistant)
        × (texts (content_blocks m.content) ≡ texts bs)
        × (calls (content_blocks m.content) ≡ calls (map kept bs))
  unfolding translate_assistant_message
  translate_assistant_message-sent_back laws bs stop_reason h =
      let answer = (convert_assistant_content marshal bs stop_reason).0 in
      let t = content_text answer.content in
      let said : t ≡ texts bs =
        unfold convert_assistant_content in
        sym (texts-concat bs ∙ content-text marshal (text_parts bs) (gather_calls marshal bs)) in
      let same : answer.tool_calls ≡ gather_calls marshal bs =
        unfold convert_assistant_content in refl in
      let bs' = if is_empty t then call_blocks bs else text_block t ∷ call_blocks bs in
      let (e, f) = with_text-says t bs in
      let b = of_blocks-blocks bs' in
      (
        record { role = Role.assistant; content = of_blocks d bs' },
        rw (content_as_text-sent answer.content, same, translate_calls-gather laws bs h) refl,
        refl,
        ap texts b ∙ (e ∙ said),
        ap calls b ∙ f,
      )
