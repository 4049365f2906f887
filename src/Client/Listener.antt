-- ===== src/Client/Listener.antt =====
-- client/tts_dbus.c: what the library does with a message of the daemon.
use framework_uifw_voice_tts.Prelude.{Option, List, ℤ, pos, ltb_ℤ, if◌then◌else◌}
use framework_uifw_voice_tts.Types.{minus_one}
use framework_uifw_voice_tts.Action.{Action, pure, ◌>>=◌, ◌>>◌, case_option}
use framework_uifw_voice_tts.Platform.{
  Method, method_hello, method_utterance_started, method_utterance_completed, method_error,
  method_set_state,
}
use framework_uifw_voice_tts.Wire.{Arg, get_int, get_int_int, get_int_int_int}
use framework_uifw_voice_tts.Client.{Handles, client_get_by_uid}
use framework_uifw_voice_tts.Client.Link.{LibPlatform, Library, external, ask_handles}
use framework_uifw_voice_tts.Client.Notify.{
  cb_error, cb_set_state, cb_utt_started, cb_utt_completed,
}

module _ (p : LibPlatform) where
  open p use {World, pop_message, send_reply}

  -- The answer to a hello: whether there is a client with that uid; a uid that cannot be read is 0.
  abbrev pub hello_response : ℤ → Handles → ℤ
  hello_response uid s =
      if ltb_ℤ (pos 0) uid
      then case_option (client_get_by_uid uid s) (pos 0) (λ c. pos 1)
      else minus_one

  unfoldable pub receive_hello : Option ℤ → Action (Library World) (Unit {0})
  receive_hello uid = do
    response ← ask_handles (hello_response (case_option uid (pos 0) (λ n. n)))
    external (send_reply response)

  -- The branches of listener_event_callback; nothing happens if the arguments cannot be read.
  unfoldable pub receive : Method → List Arg → Action (Library World) (Unit {0})
  receive method_hello args = receive_hello (get_int args)
  receive method_utterance_started args =
      case_option (get_int_int args) (pure tt) λ r. do cb_utt_started p r.0 r.1; pure tt
  receive method_utterance_completed args =
      case_option (get_int_int args) (pure tt) λ r. do cb_utt_completed p r.0 r.1; pure tt
  receive method_set_state args =
      case_option (get_int_int args) (pure tt) λ r. do cb_set_state p r.0 r.1; pure tt
  receive method_error args =
      case_option (get_int_int_int args) (pure tt)
        λ r. let (uid, uttid, reason) = r in (do cb_error p uid reason uttid; pure tt)

  -- listener_event_callback
  unfoldable pub listener : Action (Library World) (Unit {0})
  listener = do
    message ← external pop_message
    case_option message (pure tt) λ m. case_option m.0 (pure tt) λ method. receive method m.1
