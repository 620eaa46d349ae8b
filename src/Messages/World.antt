-- ===== src/Messages/World.antt =====
-- internal/messages/service.go, internal/messages/execute.go: what the execution of a request calls. The
-- upstream, the clock, the accounts' bookkeeping and the client are operations on a world.
use kiroxy.Prelude.{
  ℕ, Bool, true, ◌==◌, if◌then◌else◌, List, ◌∷◌, Option, none, some, String, str_eq, ◌⊎◌, inl, inr,
}
use kiroxy.Messages.Errors.{CallError}

-- The `Credentials` that a call is made with.
pub record Credentials : Type 0 where
  pub account_id : String
  pub access_token : String
  pub profile_arn : String
  pub region : String
  pub machine_id : String

-- `invocation`: the credentials and the two fields of the payload that this code changes.
pub record Invocation : Type 0 where
  pub creds : Credentials
  pub profile_arn : String
  pub conversation_id : String

-- What the service calls. `sleep` says whether the wait went to its end, `rand` is `rand.Int64N`, a
-- recorder is none where the token getter does not implement it, and `handle` gives the reason to send
-- the request again, or "".
pub record World (S R : Type 0) : Type 0 where
  pub generate : Invocation → S → S × (CallError ⊎ R)
  pub get_token : S → S × Option Credentials
  pub sleep : ℕ → S → S × Bool
  pub rand : ℕ → S → S × ℕ
  pub failure_recorder : Option (String → Bool → String → S → S)
  pub structural_recorder : Option (String → String → S → S)
  pub latency_recorder : Option (String → S → S)
  pub write_error : ℕ → String → S → S
  pub handle : R → S → S × String

-- What was done, in the order of time reversed: a call with its error, what was recorded of an account,
-- and what the client got.
pub data Action : Type 0 where
  called : Invocation → Option CallError → Action
  recorded_failure : String → Bool → String → Action
  recorded_structural : String → String → Action
  wrote_error : ℕ → String → Action
  handled : Action

pub record Run (S : Type 0) : Type 0 where
  pub world : S
  pub log : List Action

abbrev pub error_of : {R : Type 0} → CallError ⊎ R → Option CallError
error_of (inl e) = some e
error_of (inr r) = none

module _ {S R : Type 0} (W : World S R) where
  unfoldable pub generate : Invocation → Run S → Run S × (CallError ⊎ R)
  generate inv r =
      let (s, x) = W.generate inv r.world in
      (record { world = s; log = called inv (error_of x) ∷ r.log }, x)

  unfoldable pub note_structural : String → String → Run S → Run S
  note_structural i reason r = elim W.structural_recorder [
    | none ↦ r
    | some f ↦
        if str_eq i ""
        then r
        else record { world = f i reason r.world; log = recorded_structural i reason ∷ r.log }
  ]

  unfoldable pub note_failure : String → Bool → String → Run S → Run S
  note_failure i quota reason r = elim W.failure_recorder [
    | none ↦ r
    | some f ↦ if str_eq i "" then r else record {
      world = f i quota reason r.world;
      log = recorded_failure i quota reason ∷ r.log;
    }
  ]

  -- `rotationSleep`
  unfoldable pub rotation_sleep : ℕ → Run S → Run S × Bool
  rotation_sleep delay r =
      let (s, awake) = W.sleep delay r.world in
      if delay == 0 then (r, true) else (record r { world = s }, awake)

  -- `httpx.WriteError`
  unfoldable pub answer : ℕ → String → Run S → Run S
  answer status text r = record {
    world = W.write_error status text r.world;
    log = wrote_error status text ∷ r.log;
  }
