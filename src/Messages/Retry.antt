-- ===== src/Messages/Retry.antt =====
-- internal/messages/execute.go: a request that is sent again once, in a new conversation.
use Prim.Native.String.{◌++◌}
use kiroxy.Prelude.{ℕ, if◌then◌else◌, String, str_eq}
use kiroxy.Messages.Errors.{StreamCode}
use kiroxy.Messages.World.{World, Run, Invocation, answer}
use kiroxy.Messages.Rotation.{call_and_handle}

module _ {S R : Type 0} (W : World S R) (code_name : StreamCode → String)
    (status_text : ℕ → String) where
  -- What the client gets when the second call asks to be made again too.
  unfoldable pub give_up_retry : String → Run S → Run S
  unfolding answer
  give_up_retry reason r =
      if str_eq reason "empty_visible_end_turn"
      then answer W 502 "upstream returned empty response" r
      else answer W 400 ("invalid state: " ++ reason) r

  -- `executeWithRetry`
  unfoldable pub execute_with_retry : ℕ → Invocation → Run S → Run S
  unfolding give_up_retry call_and_handle
  execute_with_retry pool_retries inv r =
      let (r1, inv1, reason) = call_and_handle W code_name status_text pool_retries inv r in
      let again = record inv1 { conversation_id = "" } in
      let (r2, inv2, reason2) = call_and_handle W code_name status_text pool_retries again r1 in
      if str_eq reason "" then r1 else if str_eq reason2 "" then r2 else give_up_retry reason2 r2
