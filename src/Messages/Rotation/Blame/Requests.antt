-- ===== src/Messages/Rotation/Blame/Requests.antt =====
-- internal/messages/execute.go: a whole request blames the accounts whose calls failed, and no others.
use Prim.Native.String.{◌++◌}
use kiroxy.Prelude.{
  ℕ, max, ◌≡◌, refl, Bool, true, false, if◌then◌else◌, String, str_eq, ◌⊎◌, inl, inr, Option-cases,
}
use kiroxy.Messages.Errors.{CallError, StreamCode, is_structural_error, rotation_failure_reason}
use kiroxy.Messages.World.{World, Run, Invocation, answer, error_of}
use kiroxy.Messages.Rotation.{
  Loop, rotate, start, quarantine, give_up, handle_response, conclude, call_and_handle,
}
use kiroxy.Messages.Rotation.Induction.{rotate_inv}
use kiroxy.Messages.Rotation.Blame.{Coherent, Justifies, Justified, Knows}
use kiroxy.Messages.Rotation.Blame.Rounds.{
  generate-Known, round-Knows, note_structural-Known, Knows-Failed,
}
use kiroxy.Messages.Retry.{execute_with_retry, give_up_retry}

module _ (code_name : StreamCode → String) (status_text : ℕ → String) where
  module _ {S R : Type 0} (W : World S R) where
    quarantine-Justified :
        (e : CallError) (l : Loop S R)
        → l.result ≡ inl e
        → Knows code_name status_text l
        → Justified code_name status_text (quarantine W code_name status_text e l).log
    unfolding quarantine
    quarantine-Justified e l h k = elim (Option-cases (is_structural_error e)) [
      | inl n ↦ rw (quarantine, n) k.0
      | inr (ue, n) ↦
          rw (quarantine, n)
            (note_structural-Known code_name status_text W l.inv.creds.account_id
              (rotation_failure_reason code_name status_text ue) l.inv (error_of l.result) l.run
              (record {
                e = e;
                ue = ue;
                failed = Knows-Failed code_name status_text W e l h k;
                cause = inr (n, refl);
              })
              k).0
    ]

    conclude-Justified :
        (l : Loop S R)
        → Knows code_name status_text l
        → Justified code_name status_text (conclude W code_name status_text l).0.log
    unfolding conclude give_up answer handle_response Justified Justifies
    conclude-Justified l k = by_result l.result refl
      where
        by_result :
            (x : CallError ⊎ R)
            → l.result ≡ x
            → Justified code_name status_text (conclude W code_name status_text l).0.log
        by_result (inl e) h = rw (h, conclude) (_, quarantine-Justified e l h k)
        by_result (inr x) h = rw (h, conclude) (_, k.0)

    -- What an attempt does is justified, and the invocation it leaves can be sent again.
    call_and_handle-Justified :
        (pool_retries : ℕ) (inv : Invocation) (r : Run S)
        → Coherent inv
        → Justified code_name status_text r.log
        → let (q, again, reason) = call_and_handle W code_name status_text pool_retries inv r in
          Justified code_name status_text q.log × Coherent again
    unfolding call_and_handle start
    call_and_handle-Justified pool_retries inv r c j =
        let first = start W code_name status_text pool_retries inv r in
        let l = rotate W code_name status_text (max pool_retries 3) first in
        let k =
          rotate_inv W code_name status_text (λ m. Knows code_name status_text m)
            (round-Knows code_name status_text W) (max pool_retries 3) first
            (generate-Known code_name status_text W inv r c j) in
        (conclude-Justified l k, k.2)

    Justified-if :
        (b : Bool) (u v : Run S)
        → Justified code_name status_text u.log
        → Justified code_name status_text v.log
        → Justified code_name status_text (if b then u else v).log
    Justified-if true u v h k = h
    Justified-if false u v h k = k

    give_up_retry-Justified :
        (reason : String) (r : Run S)
        → Justified code_name status_text r.log
        → Justified code_name status_text (give_up_retry W code_name status_text reason r).log
    unfolding give_up_retry answer Justified Justifies
    give_up_retry-Justified reason r j =
        Justified-if (str_eq reason "empty_visible_end_turn")
          (answer W 502 "upstream returned empty response" r)
          (answer W 400 ("invalid state: " ++ reason) r) (_, j) (_, j)

    -- If the credentials and the profile of a request are of one account, and what was done before
    -- is justified, then so is all that the request does: every call is made with credentials and
    -- profile of one account; a failure is recorded only of the account whose call came last and
    -- failed, with the kind and the reason of that error, which is worth another account and is no
    -- shortage of capacity and no ban; and a structural error is recorded only of such an account,
    -- for an error that is a ban, or with the reason of an error of the structural kind.
    pub execute_with_retry-Justified :
        (pool_retries : ℕ) (inv : Invocation) (r : Run S)
        → Coherent inv
        → Justified code_name status_text r.log
        → Justified code_name status_text
            (execute_with_retry W code_name status_text pool_retries inv r).log
    unfolding execute_with_retry
    execute_with_retry-Justified pool_retries inv r c j =
        let (q, again, reason) = call_and_handle W code_name status_text pool_retries inv r in
        let inv2 = record again { conversation_id = "" } in
        let (q2, again2, reason2) = call_and_handle W code_name status_text pool_retries inv2 q in
        let first = call_and_handle-Justified pool_retries inv r c j in
        let second = call_and_handle-Justified pool_retries inv2 q first.1 first.0 in
        let last = give_up_retry W code_name status_text reason2 q2 in
        Justified-if (str_eq reason "") q (if str_eq reason2 "" then q2 else last) first.0 (
          Justified-if (str_eq reason2 "") q2 last second.0
            (give_up_retry-Justified reason2 q2 second.0))
