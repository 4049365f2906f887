-- ===== src/Dbus.antt =====
-- server/ttsd_dbus.c: the messages that the daemon sends to a client.
use framework_uifw_voice_tts.Prelude.{not, [], ◌∷◌, ℤ, pos, if◌then◌else◌}
use framework_uifw_voice_tts.Types.{AppState, state_code, minus_one}
use framework_uifw_voice_tts.Action.{Action, pure, ◌>>=◌, ◌>>◌}
use framework_uifw_voice_tts.Platform.{
  Platform, Method, method_hello, method_utterance_started, method_utterance_completed,
  method_error, method_set_state, Reply, no_reply, malformed, answered,
}
use framework_uifw_voice_tts.Daemon.{Daemon, outside}

-- No answer means that the client is gone, and is told apart from an answer that cannot be read.
abbrev pub hello_result : Reply → ℤ
hello_result no_reply = pos 0
hello_result malformed = minus_one
hello_result (answered result) = result

module _ (p : Platform) where
  open p use {World, bus}

  unfoldable pub send_hello : ℤ → ℤ → Action (Daemon World) ℤ
  send_hello pid uid = do
    made ← outside (bus.new_method_call pid method_hello)
    if not made then pure minus_one else do
      reply ← outside (bus.send_with_reply method_hello (uid ∷ []))
      pure (hello_result reply)

  -- A message that could not be sent counts as sent.
  unfoldable pub send_message : ℤ → ℤ → ℤ → Method → Action (Daemon World) ℤ
  send_message pid uid payload method = do
    made ← outside (bus.new_method_call pid method)
    if not made
        then pure minus_one
        else do outside (bus.send method (uid ∷ payload ∷ [])); pure (pos 0)

  unfoldable pub send_utt_start_message : ℤ → ℤ → ℤ → Action (Daemon World) ℤ
  send_utt_start_message pid uid uttid = send_message pid uid uttid method_utterance_started

  unfoldable pub send_utt_finish_message : ℤ → ℤ → ℤ → Action (Daemon World) ℤ
  send_utt_finish_message pid uid uttid = send_message pid uid uttid method_utterance_completed

  unfoldable pub send_set_state_message : ℤ → ℤ → AppState → Action (Daemon World) ℤ
  send_set_state_message pid uid state = send_message pid uid (state_code state) method_set_state

  unfoldable pub send_error_message : ℤ → ℤ → ℤ → ℤ → Action (Daemon World) ℤ
  send_error_message pid uid uttid reason = do
    made ← outside (bus.new_method_call pid method_error)
    if not made
        then pure minus_one
        else do outside (bus.send method_error (uid ∷ uttid ∷ reason ∷ [])); pure (pos 0)
