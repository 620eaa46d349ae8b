-- ===== src/Messages/SearchRounds/Conclusion.antt =====
-- internal/messages/toolsearch.go: what has reached the client when the rounds of searches are over.
use kiroxy.Prelude.{
  ℕ, zero, suc, ◌/◌, ◌<◌, ◌≡◌, ◌⊎◌, inl, inr, refl, subst, Bool, true, false, List, [], ◌∷◌, arith,
  Option-cases,
}
use kiroxy.Prelude.Bytes.{Bytes}
use kiroxy.Reqconv.{Message}
use kiroxy.Respconv.Accumulator.{new_accumulator}
use kiroxy.Respconv.Accumulator.Budget.{WithinBudget}
use kiroxy.Respconv.Events.{Event}
use kiroxy.Respconv.Streaming.{Sse, Writer, new_writer}
use kiroxy.Respconv.Streaming.Handler.{handle_event, finish}
use kiroxy.Respconv.Streaming.Handling.{Handled, handle_event-Handled}
use kiroxy.Respconv.Streaming.Preservation.{finish-ended, write_error-Between, write_error-visible}
use kiroxy.Respconv.Streaming.Protocol.{
  Phase, Follows, Between, Inside, InsideOf, Shown, is_hidden, all_hidden, Running, InStep, is_some,
  read_all,
}
use kiroxy.Respconv.Streaming.Settled.{Going, Settled, handle_event-Settled}
use kiroxy.Respconv.Streaming.ToolSearch.{
  write_tool_search_result, write_tool_search_error, reset_accumulator, write_block-Between,
  write_server_tool_use-Between,
}
use kiroxy.Toolsearch.{Context}
use kiroxy.Toolsearch.Search.{SearchError, search}
use kiroxy.Messages.Gate.{Reaches, Follows-Reaches}
use kiroxy.Messages.{delivered, Ending, severed, stopped, drained}
use kiroxy.Messages.SearchRounds.{
  NameMap, SearchWorld, RoundEnd, found, over, SearchOutcome, refused, errored, cut_off, again,
  done, SearchRun, receive_round, write_streaming_or_json_error, end_round, begin_round,
  write_results, answer_search, run_rounds, handle_streaming, max_results_field,
}

Sum-cases {ℓ} : {A B : Type ℓ} (s : A ⊎ B) → ((a : A) × (s ≡ inl a)) ⊎ ((b : B) × (s ≡ inr b))
Sum-cases (inl a) = inl (a, refl)
Sum-cases (inr b) = inr (b, refl)

-- What the reader of the stream has at each outcome.
unfoldable pub Concluded : Writer × SearchOutcome → Type 0
Concluded (w, done) = Reaches w Phase.ended
Concluded (w, errored) = Between w × (delivered w ≡ w.written)
Concluded (w, refused status kind message) = (w.started ≡ false) ⊎ (delivered w ≡ [])
Concluded (w, again) = delivered w ≡ []
Concluded (w, cut_off) = delivered w ≡ w.written

RoundEnd-cases :
    (x : RoundEnd) → ((e : Ending) × (x ≡ over e)) ⊎ ((input : Bytes) × (x ≡ found input))
RoundEnd-cases (over e) = inl (e, refl)
RoundEnd-cases (found input) = inr (input, refl)

-- How a round leaves the writer.
unfoldable Received : Writer × RoundEnd → Type 0
Received (w, found input) = InStep w
Received (w, over drained) = InStep w
Received (w, over stopped) = Follows w Phase.ended
Received (w, over severed) = Unit

found-InStep :
    (q : Writer × RoundEnd) {input : Bytes} → q.1 ≡ found input → Received q → InStep (q.0)
unfolding Received
found-InStep q {input} e h = subst (λ y. Received (q.0, y)) e h

module _ (fails : List Sse → Sse → Bool) (estimate : ℕ → ℕ → ℕ) (valid : Bytes → Bool) where
  receive_round-Received :
      (es : List Event) (w : Writer)
      → InStep w
      → Going fails estimate w.acc
      → Received (receive_round fails estimate valid es w)
  unfolding receive_round Received Handled Settled Going
  receive_round-Received [] w h g = h
  receive_round-Received (x ∷ es) w h g =
      let p = handle_event fails estimate valid x w in
      ground (
        arith,
        handle_event-Handled fails estimate valid x w h,
        handle_event-Settled fails estimate valid x w h g,
        receive_round-Received es (p.0),
      )

  write_streaming_or_json_error-Concluded :
      (status : ℕ) (kind message : Bytes) (w : Writer)
      → InStep w
      → Concluded (write_streaming_or_json_error fails estimate valid status kind message w)
  unfolding write_streaming_or_json_error Concluded InStep delivered
  write_streaming_or_json_error-Concluded status kind message w h = ground (
    arith,
    h,
    write_error-Between fails estimate kind message w,
    write_error-visible fails estimate kind message w,
  )

  end_round-Concluded :
      (failed : Bool) (e : Ending) (w : Writer)
      → Received (w, over e)
      → Concluded (end_round fails estimate valid failed e w)
  unfolding end_round Concluded Received delivered
  end_round-Concluded failed severed w h = ground arith
  end_round-Concluded failed stopped w h = Follows-Reaches w Phase.ended h
  end_round-Concluded true drained w h = write_streaming_or_json_error-Concluded _ _ _ w h
  end_round-Concluded false drained w h = ground (
    arith,
    Follows-Reaches (finish fails estimate w) Phase.ended (finish-ended fails estimate w h),
  )

  module _ (p : SearchWorld) (window : ℕ) (seqs : List Bytes) (budget : ℕ) where
    -- How a round finds the writer.
    unfoldable Ready : ℕ → Writer → Type 0
    Ready zero w = InStep w × Going fails estimate w.acc
    Ready (suc n) w = Between w

    Ready-InStep : (n : ℕ) (w : Writer) → Ready n w → InStep w
    unfolding Ready InStep Running
    Ready-InStep zero w h = h.0
    Ready-InStep (suc n) w h = inr (inl h)

    -- A response with nothing counted is inside its budget.
    nothing-WithinBudget : (budget ≡ 0) ⊎ (0 / 4 < budget)
    nothing-WithinBudget = ground arith

    begin_round-InStep :
        (n : ℕ) (names : NameMap) (w : Writer)
        → Ready n w
        → let v = begin_round fails estimate valid p window seqs budget n names w in
          InStep v × Going fails estimate v.acc
    unfolding Ready begin_round InStep Running Between Inside InsideOf Follows Shown Going
        WithinBudget new_accumulator reset_accumulator
    begin_round-InStep zero names w h = h
    begin_round-InStep (suc n) names w h =
        (inr (inl (h.0, (refl, h.1.1))), (refl, inr nothing-WithinBudget))

    write_results-Between :
        (id : Bytes) (results : SearchError ⊎ List Bytes) (w : Writer)
        → Between w
        → Between (write_results fails estimate valid p window seqs budget id results w)
    unfolding write_results write_tool_search_result write_tool_search_error Running is_hidden
    write_results-Between id (inl e) w h = write_block-Between fails _ id [] w refl (inl h)
    write_results-Between id (inr refs) w h = write_block-Between fails _ id [] w refl (inl h)

    answer_search-Between :
        (n : ℕ) (names : NameMap) (query : Bytes) (max_results : ℕ) (r : SearchRun)
        → InStep r.writer
        → Between
            (answer_search fails estimate valid p window seqs budget n names query max_results
              r).writer
    unfolding answer_search
    answer_search-Between n names query max_results r h =
        let c = r.context in
        let input = p.marshal_input query (max_results_field max_results) in
        write_results-Between (p.fresh_id n)
          (search p.search_calls query c.deferred_tools c.search_type max_results) _
          (write_server_tool_use-Between fails (p.fresh_id n) c.search_tool_name input r.writer h)

    answered-Ready :
        (n : ℕ) (names : NameMap) (query : Bytes) (max_results : ℕ) (r : SearchRun)
        → InStep r.writer
        → Ready
            (suc n)
            (answer_search fails estimate valid p window seqs budget n names query max_results
              r).writer
    unfolding Ready
    answered-Ready n names query max_results r h =
        answer_search-Between n names query max_results r h

    finish_Concluded :
        (n : ℕ) (r : SearchRun)
        → Ready n r.writer
        → Concluded (finish fails estimate r.writer, done)
    unfolding Concluded
    finish_Concluded n r h =
        Follows-Reaches _ Phase.ended
          (finish-ended fails estimate r.writer (Ready-InStep n r.writer h))

    run_rounds-Concluded :
        (left n : ℕ) (r : SearchRun)
        → Ready n r.writer
        → Concluded (run_rounds fails estimate valid p window seqs budget left n r)
    unfolding run_rounds
    run_rounds-Concluded zero n r h = finish_Concluded n r h
    run_rounds-Concluded (suc left) n r h =
        let before = Ready-InStep n r.writer h in
        elim (Sum-cases (p.build_payload r.messages r.context)) [
          | inl (message, e) ↦
              rw (run_rounds, e)
                (write_streaming_or_json_error-Concluded 400 _ message r.writer before)
          | inr (names, e) ↦ elim (Option-cases (p.call n r.messages r.context)) [
            | inl f ↦
                rw (run_rounds, e, f)
                  (write_streaming_or_json_error-Concluded 502 _ _ r.writer before)
            | inr ((events, failed), f) ↦
                let v = begin_round fails estimate valid p window seqs budget n names r.writer in
                let q = receive_round fails estimate valid events v in
                let (k, g) = begin_round-InStep n names r.writer h in
                let got = receive_round-Received events v k g in
                elim (RoundEnd-cases q.1) [
                  | inl (end, x) ↦
                      rw (run_rounds, e, f, x)
                        (end_round-Concluded failed end q.0 (subst (λ y. Received (q.0, y)) x got))
                  | inr (input, x) ↦ elim (Sum-cases (p.parse_tool_search_input input)) [
                    | inl (message, y) ↦
                        rw (run_rounds, e, f, x, y)
                          (write_streaming_or_json_error-Concluded 400 _ message q.0
                            (found-InStep q x got))
                    | inr ((query, m), y) ↦
                        rw (run_rounds, e, f, x, y)
                          (run_rounds-Concluded left (suc n) _ (
                            answered-Ready n names query m (record r { writer = q.0 })
                              (found-InStep q x got)))
                  ]
                ]
          ]
        ]

    -- However the upstream answers the rounds of a streamed request with searches for tools: where
    -- the outcome is the stream, the events written are a whole message, up to a write that
    -- failed, and the client has all of them, or nothing where they hold no text and no call of a
    -- tool; where it is an error event, the client has the message so far with no block open, up
    -- to a write that failed; where the stream is cut off, it has all that was written; where it
    -- is another request, it has nothing, and where it is a JSON error, nothing or no message had
    -- begun.
    pub handle_streaming-Concluded :
        (ms : List Message) (c : Context)
        → Concluded (handle_streaming fails estimate valid p window seqs budget ms c)
    unfolding handle_streaming Ready InStep Follows Shown all_hidden is_some read_all new_writer
        Going WithinBudget new_accumulator
    handle_streaming-Concluded ms c =
        run_rounds-Concluded 3 0 _
          (inl (refl, (refl, (refl, (refl, inr refl, inr refl)))), (refl, inr nothing-WithinBudget))
