-- ===== src/Messages/Rotation.antt =====
-- internal/messages/execute.go: an upstream call, sent again with other accounts of the pool while it
-- fails.
pub mod Induction
pub mod Termination
pub mod Counts
pub mod Blame
pub mod Totals
pub mod Liveness
use kiroxy.Prelude.{
  ℕ, zero, suc, ◌+◌, ◌-◌, ◌*◌, ◌/◌, ◌%◌, ◌^◌, max, Bool, true, false, not, ◌&&◌, ltb, leb, ◌==◌,
  if◌then◌else◌, List, [], ◌∷◌, Option, none, some, String, str_eq, ◌⊎◌, inl, inr,
}
use kiroxy.Messages.World.{
  handled, World, Run, Invocation, Credentials, generate, note_structural, note_failure,
  rotation_sleep, answer,
}
use kiroxy.Messages.Errors.{
  UpstreamError, CallError, StreamCode, is_rotatable_upstream_error, is_suspicious_activity_error,
  is_capacity_shortage, is_quota_failure, is_structural_error, rotation_failure_reason,
}

-- The variables of the loop; `stopped` says that it was left by a `break`.
pub record Loop (S R : Type 0) : Type 0 where
  pub run : Run S
  pub inv : Invocation
  pub result : CallError ⊎ R
  pub attempt : ℕ
  pub retries : ℕ
  pub bans : ℕ
  pub stopped : Bool

abbrev pub upstream_pool_retries : ℕ
upstream_pool_retries = 3

abbrev pub max_suspicious_bans_per_rotation : ℕ
max_suspicious_bans_per_rotation = 2

abbrev pub millisecond : ℕ
millisecond = 1000000

abbrev pub pool_rotation_base_delay : ℕ
pool_rotation_base_delay = 500 * millisecond

abbrev pub capacity_shortage_base_delay : ℕ
capacity_shortage_base_delay = 2000 * millisecond

abbrev pub suspicious_ban_rotation_delay : ℕ
suspicious_ban_rotation_delay = 3000 * millisecond

-- `base << (attempt - 1)`
unfoldable pub backoff : ℕ → ℕ → ℕ
backoff base attempt = base * 2 ^ (attempt - 1) % 2 ^ 64

module _ {S R : Type 0} where
  abbrev pub stop : Loop S R → Loop S R
  stop l = record l { stopped = true }

  -- The loop goes on: its condition holds, and it was not left.
  unfoldable pub continues : Loop S R → Bool
  continues l =
      not l.stopped && elim l.result [ inl e ↦ true | inr r ↦ false ] && ltb l.attempt l.retries

  -- A model that the account's plan does not have is always worth the rotations.
  unfoldable pub raise_retries : UpstreamError → Loop S R → Loop S R
  raise_retries ue l =
      if str_eq ue.reason "INVALID_MODEL_ID" && ltb l.retries upstream_pool_retries
      then record l { retries = upstream_pool_retries }
      else l

module _ {S R : Type 0} (W : World S R) where
  -- `rotationBackoffFor`
  unfoldable pub rotation_backoff_for : ℕ → ℕ → Run S → Run S × ℕ
  unfolding backoff
  rotation_backoff_for attempt base r =
      let d = backoff base attempt in
      let (s, jitter) = W.rand (d / 2) r.world in
      if attempt == 0 then (r, 0) else (record r { world = s }, d - d / 4 + jitter)

  -- The next account, where there is one, and the call with its credentials.
  unfoldable pub call_with : Option Credentials → Loop S R → Loop S R
  unfolding generate
  call_with none l = stop l
  call_with (some c) l =
      let i = record l.inv { creds = c; profile_arn = c.profile_arn } in
      let (r, x) = generate W i l.run in
      record l { run = r; inv = i; result = x; attempt = l.attempt + 1 }

  unfoldable pub next_account : Loop S R → Loop S R
  unfolding call_with
  next_account l =
      let (s, token) = W.get_token l.run.world in
      call_with token (record l { run = record l.run { world = s } })

  -- The wait before the next account; the loop is left where it was cut short.
  unfoldable pub wait_and_go : ℕ → Loop S R → Loop S R
  unfolding rotation_sleep next_account
  wait_and_go delay l =
      let (r, awake) = rotation_sleep W delay l.run in
      if awake then next_account (record l { run = r }) else stop (record l { run = r })

  -- An account banned for suspicious activity.
  unfoldable pub rotate_banned : Loop S R → Loop S R
  unfolding note_structural wait_and_go
  rotate_banned l =
      let r = note_structural W l.inv.creds.account_id "suspicious_activity_ban" l.run in
      let k = record l { run = r; bans = l.bans + 1 } in
      if leb max_suspicious_bans_per_rotation (l.bans + 1)
      then stop k
      else wait_and_go suspicious_ban_rotation_delay k

  module _ (code_name : StreamCode → String) (status_text : ℕ → String) where
    -- Any other failure: recorded, unless the upstream lacks capacity for every account.
    unfoldable pub rotate_failed : UpstreamError → Loop S R → Loop S R
    unfolding note_failure rotation_backoff_for wait_and_go
    rotate_failed ue l =
        let short = is_capacity_shortage ue in
        let noted =
          note_failure W l.inv.creds.account_id (is_quota_failure ue)
            (rotation_failure_reason code_name status_text ue) l.run in
        let r = if short then l.run else noted in
        let base = if short then capacity_shortage_base_delay else pool_rotation_base_delay in
        let (q, delay) = rotation_backoff_for l.attempt base r in
        wait_and_go delay (record l { run = q })

    unfoldable pub rotate_on : UpstreamError → Loop S R → Loop S R
    unfolding rotate_banned rotate_failed
    rotate_on ue l = if is_suspicious_activity_error ue then rotate_banned l else rotate_failed ue l

    -- The body of the loop.
    unfoldable pub round : Loop S R → Loop S R
    unfolding raise_retries rotate_on
    round l = elim l.result [
      | inr r ↦ l
      | inl e ↦ elim (is_rotatable_upstream_error code_name status_text e) [
        | none ↦ stop l
        | some ue ↦ rotate_on ue (raise_retries ue l)
      ]
    ]

    unfoldable pub rotate : ℕ → Loop S R → Loop S R
    unfolding round continues
    rotate zero l = l
    rotate (suc fuel) l = elim (continues l) [ true ↦ rotate fuel (round l) | false ↦ l ]

    -- The first call, with the account of the invocation.
    unfoldable pub start : ℕ → Invocation → Run S → Loop S R
    unfolding generate
    start pool_retries inv r =
        let (q, x) = generate W inv r in
        record {
          run = q;
          inv = inv;
          result = x;
          attempt = 0;
          retries = pool_retries;
          bans = 0;
          stopped = false;
        }

    unfoldable pub quarantine : CallError → Loop S R → Run S
    unfolding note_structural
    quarantine e l = elim (is_structural_error e) [
      | none ↦ l.run
      | some ue ↦
          note_structural W l.inv.creds.account_id
            (rotation_failure_reason code_name status_text ue) l.run
    ]

    -- The end of a call whose last error is `e`.
    unfoldable pub give_up : CallError → Loop S R → Run S
    unfolding quarantine answer
    give_up e l = answer W 502 "upstream API error" (quarantine e l)

    unfoldable pub note_latency : String → S → S
    note_latency i s = elim W.latency_recorder [
      | none ↦ s
      | some f ↦ if str_eq i "" then s else f i s
    ]

    -- The response, and the reason to send the request again.
    unfoldable pub handle_response : R → Loop S R → Run S × String
    unfolding note_latency
    handle_response x l =
        let (s, reason) = W.handle x l.run.world in
        (
          record { world = note_latency l.inv.creds.account_id s; log = handled ∷ l.run.log },
          reason,
        )

    unfoldable pub conclude : Loop S R → Run S × String
    unfolding give_up handle_response
    conclude l = elim l.result [ inl e ↦ (give_up e l, "") | inr x ↦ handle_response x l ]

    -- `callAndHandle`. The invocation keeps the credentials of the last account.
    unfoldable pub call_and_handle : ℕ → Invocation → Run S → Run S × Invocation × String
    unfolding start rotate conclude
    call_and_handle pool_retries inv r =
        let l = rotate (max pool_retries upstream_pool_retries) (start pool_retries inv r) in
        let (q, reason) = conclude l in (q, l.inv, reason)
