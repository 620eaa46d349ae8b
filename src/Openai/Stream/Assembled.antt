-- ===== src/Openai/Stream/Assembled.antt =====
-- internal/openai/translate_stream.go: the client gets from the chunks the message that the stream says.
use kiroxy.Prelude.{
  ℕ, ◌+◌, ◌≡◌, refl, sym, ap, ◌∙◌, inl, inr, Bool, true, false, if◌then◌else◌, none, some,
  append-nil, arith, Bool-cases, some_inj,
}
use kiroxy.Prelude.Bytes.{Bytes, is_empty, is_empty-cases}
use kiroxy.Openai.{map_finish_reason, Usage}
use kiroxy.Openai.Events.{
  empty_delta, Event, message_start, block_start, text_delta, input_json_delta, other_delta,
  message_delta, message_stop, error_event, skipped, unreadable,
}
use kiroxy.Openai.Stream.{
  Translator, Sink, write_chunk, handle_message_start, handle_message_delta, handle_message_stop,
  handle_frame, final_reason,
}
use kiroxy.Openai.Stream.Reader.{put_calls, Heard, new_block, hear_event}
use kiroxy.Openai.Stream.Agreement.{
  got, IsQuiet, Agrees, write_chunk-Wrote, silent-Agrees, IsCurrent-same,
}
use kiroxy.Openai.Stream.Blocks.{begun, block_start-Agrees, text_delta-Agrees, input_delta-Agrees}

module _ (k : Sink) (q : IsQuiet k) where
  -- The fields that the message does not depend on.
  noted-Agrees :
      (id : Bytes) (input output : ℕ) (role : Bool) (h : Heard) (s : Translator)
      → Agrees h s
      → Agrees h (record s {
        chat_id = id;
        input_tokens = input;
        output_tokens = output;
        sent_role = role;
      })
  noted-Agrees id input output role h s a = record {
    sound = a.sound;
    says_text = a.says_text;
    says_calls = a.says_calls;
    tools = a.tools;
    next = a.next;
    current = a.current;
    reason = a.reason;
    unsaid = a.unsaid;
    final = a.final;
    finish = a.finish;
    open_end = a.open_end;
  }

  message_start-Agrees :
      (id : Bytes) (input output : ℕ) (h : Heard) (s : Translator)
      → Agrees h s
      → Agrees h (handle_message_start k id input output s).0
        × ((handle_message_start k id input output s).1 ≡ none)
  unfolding handle_message_start
  message_start-Agrees id input output h s a =
      let (w, e) = write_chunk-Wrote k q _ none none _ a.sound a.open_end in
      (silent-Agrees k q _ h _ _ w refl refl (noted-Agrees _ input output true h s a), e)

  message_delta-Agrees :
      (reason : Bytes) (input output : ℕ) (h : Heard) (s : Translator)
      → h.ended ≡ false
      → Agrees h s
      → Agrees
          (if is_empty reason then h else record h { closing = true; reason = reason })
          (handle_message_delta k reason input output s)
  unfolding handle_message_delta
  message_delta-Agrees reason input output h s o a = elim (is_empty-cases reason) [
    | inl (_, y) ↦ rw y (noted-Agrees s.chat_id _ _ s.sent_role h s a)
    | inr (y, _) ↦ rw y (record {
      sound = a.sound;
      says_text = a.says_text;
      says_calls = a.says_calls;
      tools = a.tools;
      next = a.next;
      current = a.current;
      reason = refl;
      unsaid = λ c. cc;
      final = a.final;
      finish = rw o (rw o at a.finish);
      open_end = a.open_end;
    })
  ]

  final_reason-eq :
      (h : Heard) (s : Translator)
      → Agrees h s
      → final_reason k s ≡ map_finish_reason h.reason s.has_tool_use
  final_reason-eq h s a = elim (Bool-cases h.closing) [
    | inl y ↦ rw (rw y at a.reason) refl
    | inr n ↦ rw (rw n at a.reason, a.unsaid n) refl
  ]

  message_stop-Agrees :
      (h : Heard) (s : Translator)
      → h.ended ≡ false
      → Agrees h s
      → Agrees (record h { ended = true }) (handle_message_stop k s).0
        × ((handle_message_stop k s).1 ≡ none)
  unfolding handle_message_stop
  message_stop-Agrees h s o a =
      let f : s.sent_final ≡ false = a.final ∙ o in
      let r : final_reason k s ≡ map_finish_reason h.reason s.has_tool_use =
        final_reason-eq h s a in
      let u : Usage = record {
        prompt_tokens = s.input_tokens;
        completion_tokens = s.output_tokens;
        total_tokens = s.input_tokens + s.output_tokens;
      } in
      let t : Translator = record s { sent_final = true } in
      let (w, e) =
        write_chunk-Wrote k q empty_delta (some (final_reason k s)) (some u) t a.sound a.open_end in
      rw f (
        record {
          sound = w.went;
          says_text = w.adds_text ∙ (append-nil (got s).text ∙ a.says_text);
          says_calls = w.adds_calls ∙ (unfold put_calls in a.says_calls);
          tools = w.same_tools ∙ a.tools;
          next = w.same_next ∙ a.next;
          current =
              IsCurrent-same k q h t
                (write_chunk k empty_delta (some (final_reason k s)) (some u) t).0 w.same_idx
                a.current;
          reason = w.same_finish ∙ (rw w.same_tools a.reason);
          unsaid = a.unsaid;
          final = w.same_final;
          finish = w.adds_finish ∙ (rw w.same_tools (ap some r));
          open_end = w.same_closed ∙ a.open_end;
        },
        e,
      )

  -- One event.
  pub hear-Agrees :
      (e : Event) (h h' : Heard) (s : Translator)
      → h.ended ≡ false
      → hear_event e h ≡ some h'
      → Agrees h s
      → Agrees h' (handle_frame k e s).0 × ((handle_frame k e s).1 ≡ none)
  unfolding handle_frame hear_event
  hear-Agrees (message_start id input output) h h' s o e a =
      rw (sym (some_inj e)) (message_start-Agrees id input output h s a)
  hear-Agrees (block_start i t id name) h h' s o e a = elim (Bool-cases h.closing) [
    | inl y ↦ absurd (ground arith)
    | inr n ↦
        let e' : begun i (new_block t id name) h ≡ h' = ground arith in
        rw (sym e') (block_start-Agrees k q i t id name h s n o a)
  ]
  hear-Agrees (text_delta i t) h h' s o e a = text_delta-Agrees k q i t h h' s e a
  hear-Agrees (input_json_delta i t) h h' s o e a = input_delta-Agrees k q i t h h' s e a
  hear-Agrees (other_delta i) h h' s o e a = rw (sym (some_inj e)) (a, refl)
  hear-Agrees (message_delta reason input output) h h' s o e a =
      let e' : (if is_empty reason then h else record h { closing = true; reason = reason }) ≡ h' =
        ground arith in
      rw (sym e') (message_delta-Agrees reason input output h s o a, refl)
  hear-Agrees message_stop h h' s o e a = rw (sym (some_inj e)) (message_stop-Agrees h s o a)
  hear-Agrees (error_event kind message) h h' s o e a = absurd cc
  hear-Agrees skipped h h' s o e a = rw (sym (some_inj e)) (a, refl)
  hear-Agrees (unreadable event) h h' s o e a = absurd cc
