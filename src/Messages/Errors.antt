-- ===== src/Messages/Errors.antt =====
-- internal/kiroclient/aws_error.go and internal/messages/execute.go: the errors of an upstream call, and
-- what the code makes of each.
use Prim.Native.String.{◌++◌}
use text.Mathlib.Text.{find?}
use kiroxy.Prelude.{
  ℕ, Bool, true, false, not, ◌&&◌, ◌||◌, ◌==◌, if◌then◌else◌, List, [], ◌∷◌, Option, none, some,
  String, str_eq,
}

-- `UpstreamError`; its content type is only logged.
pub record UpstreamError : Type 0 where
  pub status : ℕ
  pub exception : String
  pub reason : String
  pub body : String

-- The codes of an HTTP/2 stream error that are told apart.
pub data StreamCode : Type 0 where
  refused_stream enhance_your_calm cancel internal_error protocol_error other_code : StreamCode

-- What `errors.As` and `errors.Is` find in an error, of an `UpstreamError`, a `GoAwayError`, a
-- `StreamError`, a deadline that was exceeded and a network error that is a timeout.
pub record CallError : Type 0 where
  pub upstream : Option UpstreamError
  pub go_away : Bool
  pub stream : Option StreamCode
  pub deadline_exceeded : Bool
  pub timeout : Bool

abbrev pub plain_error : CallError
plain_error = record {
  upstream = none;
  go_away = false;
  stream = none;
  deadline_exceeded = false;
  timeout = false;
}

abbrev pub of_upstream : UpstreamError → CallError
of_upstream ue = record plain_error { upstream = some ue }

-- `slices.Contains`, in place of the cases of a `switch`.
unfoldable pub one_of : String → List String → Bool
one_of s [] = false
one_of s (t ∷ ts) = str_eq s t || one_of s ts

unfoldable pub code_one_of : ℕ → List ℕ → Bool
code_one_of s [] = false
code_one_of s (t ∷ ts) = s == t || code_one_of s ts

-- `strings.Contains`
abbrev pub contains : String → String → Bool
contains s t = elim (find? s t) [ none ↦ false | some i ↦ true ]

-- `IsRetryableAWSException`
unfoldable pub is_retryable_aws_exception : String → Bool
unfolding one_of
is_retryable_aws_exception e = one_of e (
    "ThrottlingException" ∷ "TooManyRequestsException" ∷ "ServiceUnavailableException"
    ∷ "InternalServerException" ∷ "InternalFailureException" ∷ "InternalServerError" ∷ [])

-- `IsSuspiciousActivityError`
unfoldable pub is_suspicious_activity_error : UpstreamError → Bool
is_suspicious_activity_error ue =
    contains ue.body "suspicious activity" && contains ue.body "imposing temporary limits"

-- `isCapacityShortage`
unfoldable pub is_capacity_shortage : UpstreamError → Bool
is_capacity_shortage ue =
    if is_suspicious_activity_error ue
    then false
    else str_eq ue.reason "INSUFFICIENT_MODEL_CAPACITY"
      || (str_eq ue.exception "ThrottlingException" && contains ue.body "experiencing high traffic")

-- `isQuotaFailure`
unfoldable pub is_quota_failure : UpstreamError → Bool
unfolding one_of code_one_of
is_quota_failure ue =
    not (is_capacity_shortage ue)
    && (one_of ue.exception (
          "ThrottlingException" ∷ "TooManyRequestsException" ∷ "ServiceQuotaExceededException" ∷ [])
        || code_one_of ue.status (429 ∷ 402 ∷ []))

-- `isStructuralError`, of the error that `errors.As` finds.
unfoldable pub is_structural_exception : UpstreamError → Bool
unfolding one_of
is_structural_exception ue = one_of ue.exception (
    "UnknownOperationException" ∷ "AccessDeniedException" ∷ "ResourceNotFoundException"
    ∷ "UnrecognizedClientException" ∷ "InvalidSignatureException" ∷ [])

unfoldable pub is_structural_error : CallError → Option UpstreamError
unfolding is_structural_exception
is_structural_error e = elim e.upstream [
  | none ↦ none
  | some ue ↦ if is_structural_exception ue then some ue else none
]

-- Whether an `UpstreamError` is worth another account.
unfoldable pub is_rotatable : UpstreamError → Bool
unfolding one_of code_one_of is_retryable_aws_exception
is_rotatable ue =
    is_retryable_aws_exception ue.exception
    || code_one_of ue.status (502 ∷ 503 ∷ 504 ∷ 401 ∷ 403 ∷ 402 ∷ [])
    || str_eq ue.exception "ServiceQuotaExceededException"
    || (str_eq ue.exception "ValidationException" && str_eq ue.reason "INVALID_MODEL_ID")

-- `code_name` stands for `ErrCode.String` and `status_text` for `http.StatusText`.
module _ (code_name : StreamCode → String) (status_text : ℕ → String) where
  -- `classifyTransportError`, the errors that are tried last first.
  unfoldable pub classify_timeout : CallError → Option String
  classify_timeout e = if e.deadline_exceeded || e.timeout then some "TransportTimeout" else none

  unfoldable pub classify_stream : StreamCode → CallError → Option String
  classify_stream other_code e = classify_timeout e
  classify_stream c e = some ("Http2:" ++ code_name c)

  unfoldable pub classify_transport_error : CallError → Option String
  unfolding classify_timeout classify_stream
  classify_transport_error e =
      if e.go_away
      then some "Http2:GOAWAY"
      else elim e.stream [ none ↦ classify_timeout e | some c ↦ classify_stream c e ]

  -- The error that is made of a transport error.
  abbrev pub synthetic : String → UpstreamError
  synthetic s = record { status = 0; exception = s; reason = ""; body = "" }

  -- `isRotatableUpstreamError`: the error to rotate on, if it is one.
  unfoldable pub is_rotatable_upstream_error : CallError → Option UpstreamError
  unfolding is_rotatable classify_transport_error
  is_rotatable_upstream_error e = elim e.upstream [
    | some ue ↦ if is_rotatable ue then some ue else none
    | none ↦ elim (classify_transport_error e) [ some s ↦ some (synthetic s) | none ↦ none ]
  ]

  -- `rotationFailureReason`
  unfoldable pub rotation_failure_reason : UpstreamError → String
  rotation_failure_reason ue =
      if not (str_eq ue.exception "")
      then "upstream_exception:"
        ++ (if str_eq ue.reason "" then ue.exception else ue.exception ++ ("/" ++ ue.reason))
      else if not (ue.status == 0)
      then "upstream_status:" ++ status_text ue.status
      else "upstream_error"
