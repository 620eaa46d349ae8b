-- ===== src/Messages/Tests.antt =====
-- Runs of the execution of a request, of internal/messages/execute.go, and the theorems at them.
use kiroxy.Prelude.{
  ℕ, zero, suc, ◌+◌, ◌≤◌, ◌<◌, max, ◌≡◌, refl, inl, inr, true, false, List, [], ◌∷◌, none, some,
  String, arith, subst, some_inj, if◌then◌else◌, ◌==◌,
}
use kiroxy.Prelude.{◌++◌}
use kiroxy.Prelude.Bytes.{Bytes, codes, is_empty}
use kiroxy.Kiroproto.Frame.{read_frame}
use kiroxy.Kiroproto.Headers.RoundTrip.{text_headers}
use kiroxy.Kiroproto.ToolUse.{idle}
use kiroxy.Kiroproto.Stream.{Decoders}
use kiroxy.Kiroproto.Stream.Delivery.{Frames, encode_stream}
use kiroxy.Kiroproto.Stream.Events.{stream_events}
use kiroxy.Respconv.Streaming.{new_writer}
use kiroxy.Messages.{handle_streaming_response}
use kiroxy.Messages.Upstream.{is_error, stream_response, stream_response-events}
use kiroxy.Messages.Errors.{
  UpstreamError, CallError, StreamCode, of_upstream, is_rotatable_upstream_error,
  is_suspicious_activity_error, is_rotatable, is_retryable_aws_exception, one_of, code_one_of,
}
use kiroxy.Messages.World.{World, Run, Invocation, Credentials, Action, handled}
use kiroxy.Messages.Rotation.{continues, call_and_handle}
use kiroxy.Messages.Rotation.Counts.{calls, accusations, answers}
use kiroxy.Messages.Rotation.Totals.{last, last-continues, call_and_handle-counts}
use kiroxy.Messages.Rotation.Blame.{Justified}
use kiroxy.Messages.Rotation.Blame.Requests.{execute_with_retry-Justified}
use kiroxy.Messages.Rotation.Liveness.{Recovers, call_and_handle-served}
use kiroxy.Messages.Retry.{execute_with_retry}
use kiroxy.Messages.Pooled.{Pooled, call_and_handle-Out}
use kiroxy.Messages.Rotation.{start, rotate}
use kiroxy.Messages.World.{generate}
use kiroxy.Messages.Errors.{is_structural_error, is_structural_exception, is_capacity_shortage}
use kiroxy.Pool.{Account, Pool, find_account}
use kiroxy.Pool.Cooldowns.{Out}
use kiroxy.Pool.Reports.{report_structural_error, structural_cooldown}

abbrev throttled : UpstreamError
throttled = record {
  status = 429;
  exception = "ThrottlingException";
  reason = "";
  body = "slow down";
}

abbrev account : String → Credentials
account i = record {
  account_id = i;
  access_token = "token";
  profile_arn = "arn";
  region = "us-east-1";
  machine_id = "";
}

-- An upstream that fails as often as the world says, and then answers.
abbrev world : World ℕ ℕ
world = record {
  generate = λ inv s. elim s [ zero ↦ (0, inr 7) | suc n ↦ (n, inl (of_upstream throttled)) ];
  get_token = λ s. (s, some (account "b"));
  sleep = λ d s. (s, true);
  rand = λ n s. (s, 0);
  failure_recorder = some (λ i quota reason s. s);
  structural_recorder = some (λ i reason s. s);
  latency_recorder = none;
  write_error = λ status text s. s;
  handle = λ r s. (s, "");
}

abbrev code_name : StreamCode → String
code_name c = "CANCEL"

abbrev status_text : ℕ → String
status_text n = "Bad Gateway"

abbrev request : Invocation
request = record { creds = account "a"; profile_arn = "arn"; conversation_id = "c" }

abbrev fails_twice : Run ℕ
fails_twice = record { world = 2; log = [] }

last-continues_example : continues (last world code_name status_text 3 request fails_twice) ≡ false
last-continues_example = last-continues world code_name status_text 3 request fails_twice

call_and_handle-counts_example :
    let q = (call_and_handle world code_name status_text 3 request fails_twice).0 in
    (calls q.log ≤ 0 + 1 + max 3 3) × (accusations q.log ≤ 0 + 3) × (answers q.log ≡ 0 + 1)
call_and_handle-counts_example =
    call_and_handle-counts world code_name status_text 3 request fails_twice

execute_with_retry-Justified_example :
    Justified code_name status_text
      (execute_with_retry world code_name status_text 3 request fails_twice).log
unfolding Justified
execute_with_retry-Justified_example =
    execute_with_retry-Justified code_name status_text world 3 request fails_twice refl _

world-Recovers : Recovers world code_name status_text (λ n. n)
unfolding is_rotatable_upstream_error is_suspicious_activity_error is_rotatable
    is_retryable_aws_exception one_of code_one_of
world-Recovers = record {
  fails = fails;
  has_account = λ s h. cc;
  token_rank = λ s. omega arith;
  awake = λ d s. refl;
  sleep_rank = λ d s. omega arith;
  rand_rank = λ n s. omega arith;
  failure_rank =
      λ f i quota reason s h. subst (λ g. g i quota reason s ≤ s) (some_inj h) (omega arith);
}
  where
    fails :
        (inv : Invocation) (s : ℕ) (e : CallError)
        → (world.generate inv s).1 ≡ inl e
        → (ue : UpstreamError) × (is_rotatable_upstream_error code_name status_text e ≡ some ue)
          × (is_suspicious_activity_error ue ≡ false)
          × ((world.generate inv s).0 < s)
    fails inv zero e h = cc
    fails inv (suc n) e h =
        let same : of_upstream throttled ≡ e = cc in
        (
          throttled,
          subst (λ x. is_rotatable_upstream_error code_name status_text x ≡ some throttled) same
              refl,
          refl,
          omega arith,
        )

call_and_handle-served_example :
    (log : List Action) × ((call_and_handle world code_name status_text 3 request fails_twice).0.log
      ≡ handled ∷ log)
call_and_handle-served_example =
    call_and_handle-served world code_name status_text (λ n. n) world-Recovers 3 request fails_twice
      (omega arith)

-- Payloads that are the texts themselves.
abbrev text_decoders : Decoders
text_decoders = record {
  exception_message = λ p. p;
  assistant = λ p. some p;
  reasoning = λ p. none;
  tool_use = λ p. none;
  metadata = λ p. none;
  metering = λ p. none;
  invalid_state = λ p. none;
  message_metadata = λ p. none;
  context_usage = λ p. none;
}

abbrev no_checksum : Bytes → ℕ
no_checksum s = 0

abbrev hello : Frames
hello =
    (
      text_headers (
          (codes ":message-type", codes "event")
          ∷ (codes ":event-type", codes "assistantResponseEvent")
          ∷ []),
      codes "hello",
    )
    ∷ []

stream_response-events_example :
    let w = new_writer 200 [] 0 0 in
    let (es, x) = stream_events text_decoders (λ n. n ∷ []) (λ n. false) none 0 hello idle in
    stream_response
      (λ xs x. false)
      (λ p n. p)
      (λ s. true)
      text_decoders
      (λ n. n ∷ [])
      (λ n. false)
      no_checksum
      (encode_stream no_checksum hello ++ [])
      w
    ≡ some (handle_streaming_response (λ xs x. false) (λ p n. p) (λ s. true) (is_error x) es w)
unfolding read_frame is_empty
stream_response-events_example =
    stream_response-events (λ xs x. false) (λ p n. p) (λ s. true) text_decoders (λ n. n ∷ [])
      (λ n. false) no_checksum none hello [] (new_writer 200 [] 0 0) refl (λ t. omega arith)
      (omega arith)

-- An upstream that denies access, on an account of a pool.
abbrev denied : UpstreamError
denied = record { status = 400; exception = "AccessDeniedException"; reason = ""; body = "" }

abbrev accounts : List Account
accounts =
    record {
      id = "a";
      label = "";
      provider = "kiro";
      region = "us-east-1";
      enabled = true;
      last_used = 0;
      request_count = 0;
      error_count = 0;
    }
    ∷ []

abbrev pool : Pool
pool = record {
  accounts = accounts;
  health = [];
  policy = record {
    consecutive_error_threshold = 3;
    short_cooldown = 60;
    quota_cooldown = 3600;
    max_cooldown = 7200;
    min_rest_period = 5;
    suspicious_ban_cooldown = 900;
  };
  pins = some (record { session = "session"; account = "a"; expires = 9000 } ∷ []);
  ttl = 5000;
  consecutive401 = 0;
  consecutive401_first = 0;
}

-- A world of a clock and a pool: the first call is throttled, calls and waits move the clock, and there is
-- another token.
abbrev pool_world : World (ℕ × Pool) ℕ
pool_world = record {
  generate =
      λ inv s. ((suc s.0, s.1), inl (of_upstream (if s.0 == 100 then throttled else denied)));
  get_token = λ s. (s, some request.creds);
  sleep = λ d s. ((s.0 + d, s.1), true);
  rand = λ n s. (s, 0);
  failure_recorder = none;
  structural_recorder = some (λ i reason s. (s.0, report_structural_error s.0 i reason s.1));
  latency_recorder = none;
  write_error = λ status text s. s;
  handle = λ r s. (s, "");
}

pool_world-Pooled : Pooled pool_world code_name status_text (λ s. s.0) (λ s. s.1)
pool_world-Pooled = record {
  recorder = λ i reason s. (s.0, report_structural_error s.0 i reason s.1);
  records = refl;
  reports = λ i reason s. refl;
  answers = λ status text s. refl;
}

call_and_handle-Out_example :
    Out 200 "a" "session"
      (call_and_handle pool_world code_name status_text 1 request
        (record { world = (100, pool); log = [] })).0.world.1
unfolding start rotate generate continues find_account is_structural_error is_structural_exception
    one_of structural_cooldown is_rotatable_upstream_error is_suspicious_activity_error
    is_capacity_shortage
call_and_handle-Out_example =
    call_and_handle-Out pool_world code_name status_text (λ s. s.0) (λ s. s.1) pool_world-Pooled 1
      200 request (record { world = (100, pool); log = [] }) (of_upstream denied) denied
      (record {
        id = "a";
        label = "";
        provider = "kiro";
        region = "us-east-1";
        enabled = true;
        last_used = 0;
        request_count = 0;
        error_count = 0;
      })
      "session" refl refl (λ e. cc) refl (omega arith)
