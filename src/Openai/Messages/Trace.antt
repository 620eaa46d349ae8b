-- ===== src/Openai/Messages/Trace.antt =====
-- internal/openai/translate_request.go: the calls and the results of a chat, in their order.
use kiroxy.Prelude.{
  ◌≡◌, refl, sym, ap, ◌∙◌, inl, inr, if◌then◌else◌, List, [], ◌∷◌, ◌++◌, Option, none, some, map,
  Bool-cases, append_assoc, not, ◌&&◌,
}
use kiroxy.Prelude.Bytes.{Bytes, is_empty, beq}
use kiroxy.Reqconv.{Role, tool_result, Block, Message, plain_result}
use kiroxy.Openai.{ToolCall, function_type}
use kiroxy.Openai.Chat.{
  ChatRole, system, tool, other_role, ContentPart, text_part, image_part, unknown_part, ChatContent,
  content_string, content_parts, content_null, ChatMessage, call_type, call_without_id,
  result_without_id, Result, ok, invalid, ◌>>=◌,
}
use kiroxy.Openai.Content.{Decoding, content_as_text, parse_image_url, parse_arguments_json}
use kiroxy.Openai.Messages.{
  text_block, empty_block, call_block, part_block, part_blocks, translate_user_message,
  translate_call, translate_calls, translate_assistant_message, translate_tool_result,
  close_results, and_result, translate_messages,
}
use kiroxy.Openai.Messages.Items.{
  or_empty, call_item, Item, block_items, items, content_items, message_items, chat_items,
  run_items, first_ok, if-eq-ok, after_text, ok_inj, of_blocks-items, close_results-items,
  and_result-items, answered,
}

module _ (d : Decoding) where
  part_block-items :
      (r : Role) (p : ContentPart) (b : Block) → part_block d p ≡ ok b → block_items r b ≡ []
  unfolding part_block
  part_block-items r (text_part t) b h = rw (sym (ok_inj h)) refl
  part_block-items r (image_part none) b h = absurd cc
  part_block-items r (image_part (some u)) b h =
      let (s, _, e) = first_ok (parse_image_url d u) _ h in rw (sym (ok_inj e)) refl
  part_block-items r (unknown_part t) b h = absurd cc

  part_blocks-items :
      (r : Role) (ps : List ContentPart) (bs : List Block)
      → part_blocks d ps ≡ ok bs
      → items r bs ≡ []
  unfolding part_blocks
  part_blocks-items r [] bs h = rw (sym (ok_inj h)) refl
  part_blocks-items r (p ∷ ps) bs h =
      let (b, e, h') = first_ok (part_block d p) _ h in
      let (cs, f, g) = first_ok (part_blocks d ps) _ h' in
      rw (sym (ok_inj g), part_block-items r p b e) (part_blocks-items r ps cs f)

  user_content-items :
      (c : ChatContent) (m : ChatMessage) (a : Message)
      → translate_user_message d (record m { content = c }) ≡ ok a
      → content_items a.role a.content ≡ []
  unfolding translate_user_message
  user_content-items (content_string t) m a h = elim (Bool-cases (is_empty m.tool_calls)) [
    | inl e ↦ rw (sym (ok_inj h), e) refl
    | inr e ↦ rw (sym (ok_inj h), e) refl
  ]
  user_content-items (content_parts ps) m a h =
      let (bs, e, g) = first_ok (part_blocks d ps) _ h in
      rw (sym (ok_inj g)) (of_blocks-items d Role.user bs ∙ part_blocks-items Role.user ps bs e)
  user_content-items content_null m a h = rw (sym (ok_inj h)) refl

  user-items :
      (m : ChatMessage) (a : Message)
      → translate_user_message d m ≡ ok a
      → content_items a.role a.content ≡ []
  user-items m a h = user_content-items m.content m a h

  call-items :
      (c : ToolCall) (b : Block)
      → translate_call d c ≡ ok b
      → block_items Role.assistant b ≡ call_item d c ∷ []
  unfolding translate_call
  call-items c b h =
      let named_type = not (is_empty c.call_type) && not (beq c.call_type function_type) in
      let made : Bytes → Result Block = λ input. ok (call_block d c input) in
      let parsed = parse_arguments_json d c.arguments >>= made in
      let with_id = if is_empty c.id then invalid call_without_id else parsed in
      let h1 =
        if-eq-ok (is_empty c.id) call_without_id parsed (if-eq-ok named_type call_type with_id h) in
      let (input, read, g) = first_ok (parse_arguments_json d c.arguments) made h1 in
      let e : call_block d c input ≡ b = ok_inj g in rw (sym e, read) refl

  calls-items :
      (cs : List ToolCall) (bs : List Block)
      → translate_calls d cs ≡ ok bs
      → items Role.assistant bs ≡ map (call_item d) cs
  unfolding translate_calls
  calls-items [] bs h = rw (sym (ok_inj h)) refl
  calls-items (c ∷ cs) bs h =
      let (b, e, h') = first_ok (translate_call d c) _ h in
      let (bs', f, g) = first_ok (translate_calls d cs) _ h' in
      rw (sym (ok_inj g), call-items c b e) (ap (λ t. call_item d c ∷ t) (calls-items cs bs' f))

  assistant-items :
      (m : ChatMessage) (a : Message)
      → translate_assistant_message d m ≡ ok a
      → content_items a.role a.content ≡ map (call_item d) m.tool_calls
  unfolding translate_assistant_message
  assistant-items m a h =
      let (t, _, h') = first_ok (content_as_text m.content) _ h in
      let (bs, f, g) = first_ok (translate_calls d m.tool_calls) _ h' in
      rw (sym (ok_inj g)) (
        of_blocks-items d Role.assistant (if is_empty t then bs else text_block t ∷ bs)
        ∙ (after_text Role.assistant t bs ∙ calls-items m.tool_calls bs f))

  result-items :
      (m : ChatMessage) (b : Block)
      → translate_tool_result d m ≡ ok b
      → block_items Role.user b
        ≡ answered Role.user m.tool_call_id (plain_result (or_empty (content_as_text m.content)))
          ∷ []
  unfolding translate_tool_result
  result-items m b h =
      let made : Bytes → Result Block = λ t. ok (record (empty_block tool_result) {
        tool_use_id = m.tool_call_id;
        result = plain_result t;
      }) in
      let h1 =
        if-eq-ok (is_empty m.tool_call_id) result_without_id (content_as_text m.content >>= made)
          h in
      let (t, read, g) = first_ok (content_as_text m.content) made h1 in
      let e : record (empty_block tool_result) {
        tool_use_id = m.tool_call_id;
        result = plain_result t;
      }
          ≡ b =
        ok_inj g in
      rw (sym e, read) refl

  -- A message of the user or the assistant, behind a run of results.
  joined :
      (run : Option (List Block)) (a : Message) (out : List Message) (this rest : List Item)
      → content_items a.role a.content ≡ this
      → message_items out ≡ rest
      → message_items (close_results d run (a ∷ out)) ≡ run_items run ++ (this ++ rest)
  joined run a out this rest e f = close_results-items d run (a ∷ out) ∙ (rw (e, f) refl)

  role-items :
      (r : ChatRole) (m : ChatMessage) (ms : List ChatMessage) (run : Option (List Block))
      (out : List Message)
      → ((run' : Option (List Block)) (out' : List Message)
          → translate_messages d run' ms ≡ ok out'
          → message_items out' ≡ run_items run' ++ chat_items d ms)
      → translate_messages d run (record m { role = r } ∷ ms) ≡ ok out
      → message_items out ≡ run_items run ++ chat_items d (record m { role = r } ∷ ms)
  unfolding translate_messages
  role-items system m ms run out ih h = absurd cc
  role-items ChatRole.user m ms run out ih h =
      let (a, e, h') =
        first_ok (translate_user_message d (record m { role = ChatRole.user })) _ h in
      let (rest, f, g) = first_ok (translate_messages d none ms) _ h' in
      rw (sym (ok_inj g)) (
        joined run a rest [] (chat_items d ms) (user-items (record m { role = ChatRole.user }) a e)
          (ih none rest f))
  role-items ChatRole.assistant m ms run out ih h =
      let (a, e, h') =
        first_ok (translate_assistant_message d (record m { role = ChatRole.assistant })) _ h in
      let (rest, f, g) = first_ok (translate_messages d none ms) _ h' in
      rw (sym (ok_inj g)) (
        joined run a rest _ (chat_items d ms)
          (assistant-items (record m { role = ChatRole.assistant }) a e) (ih none rest f))
  role-items tool m ms run out ih h =
      let (b, e, h') = first_ok (translate_tool_result d (record m { role = tool })) _ h in
      ih (and_result d run b) out h'
      ∙ (rw (and_result-items d run b, result-items (record m { role = tool }) b e)
          (append_assoc (run_items run) _ (chat_items d ms)))
  role-items (other_role r) m ms run out ih h = absurd cc

  translate_run-items :
      (ms : List ChatMessage) (run : Option (List Block)) (out : List Message)
      → translate_messages d run ms ≡ ok out
      → message_items out ≡ run_items run ++ chat_items d ms
  translate_run-items [] run out h =
      unfold translate_messages in rw (sym (ok_inj h)) (close_results-items d run [])
  translate_run-items (m ∷ ms) run out h =
      role-items m.role m ms run out (λ run' out' e. translate_run-items ms run' out' e) h

  -- The Anthropic messages of a chat that is valid hold its calls, with their names and the inputs that
  -- their arguments are read to, in messages of the assistant, and the results of its tools, with their
  -- texts, in messages of the user: each once, in the order of the chat, and no others.
  pub translate_messages-items :
      (ms : List ChatMessage) (out : List Message)
      → translate_messages d none ms ≡ ok out
      → message_items out ≡ chat_items d ms
  translate_messages-items ms out h = translate_run-items ms none out h
