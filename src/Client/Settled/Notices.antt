-- ===== src/Client/Settled/Notices.antt =====
-- The callbacks of client/tts.c, and making and destroying a handle, keep every client settled; and from
-- settled clients tts_destroy returns.
use framework_uifw_voice_tts.Prelude.{ℕ, ◌≡◌, refl, Option, none, some, List, ℤ}
use framework_uifw_voice_tts.Action.{Keeps, pure, ◌>>=◌}
use framework_uifw_voice_tts.Platform.{
  Method, method_hello, method_utterance_started, method_utterance_completed, method_error,
  method_set_state,
}
use framework_uifw_voice_tts.Wire.{Arg}
use framework_uifw_voice_tts.Client.{
  TtsState, TtsClient, Handles, client_use_callback, client_not_use_callback,
}
use framework_uifw_voice_tts.Client.Registry.{change_client-use}
use framework_uifw_voice_tts.Client.Link.{
  LibPlatform, Notice, LibTimer, connect_daemon_timer, notify_state_timer, notify_error_timer,
  notify_started_timer, notify_completed_timer, Library, external, on_handles,
}
use framework_uifw_voice_tts.Client.Api.{enter}
use framework_uifw_voice_tts.Client.Notify.{
  note_utterance, note_error, write_by_uid, cb_error, cb_set_state, cb_utt_started,
  cb_utt_completed, call_application, notify_error, notify_state_changed, notify_utt_started,
  notify_utt_completed, run_timer,
}
use framework_uifw_voice_tts.Client.Listener.{receive_hello, receive, listener}
use framework_uifw_voice_tts.Client.Settled.{
  IsSettled, change_by_uid-Each, IsAllSettled, Holds, Keeps-on_handles, library_rules,
}
use framework_uifw_voice_tts.Client.Settled.Calls.{connect_daemon-Keeps}

module _ (p : LibPlatform) where
  open p use {World, pid}

  -- A write to the client of a uid that leaves what makes it settled.
  write_by_uid-Keeps :
      (u : ℤ) (f : TtsClient → TtsClient)
      → ((c : TtsClient) → IsSettled c → IsSettled (f c))
      → Keeps (Holds IsAllSettled) (write_by_uid p u f)
  write_by_uid-Keeps u f keep =
      Keeps-on_handles _ (λ s e. change_by_uid-Each f keep u s.client_list e)

  note_error-Keeps :
      (u id code : ℤ) → Keeps (Holds IsAllSettled) (write_by_uid p u (note_error id code))
  note_error-Keeps u id code =
      write_by_uid-Keeps u (note_error id code)
        (λ c s. record { idle = s.idle; counted = s.counted; in_range = s.in_range })

  note_utterance-Keeps :
      (u id : ℤ) → Keeps (Holds IsAllSettled) (write_by_uid p u (note_utterance id))
  note_utterance-Keeps u id =
      write_by_uid-Keeps u (note_utterance id)
        (λ c s. record { idle = s.idle; counted = s.counted; in_range = s.in_range })

  enter_by_uid-Keeps :
      (u : ℤ) (state : TtsState) → Keeps (Holds IsAllSettled) (write_by_uid p u (enter state))
  enter_by_uid-Keeps u state =
      write_by_uid-Keeps u (enter state)
        (λ c s. record { idle = s.idle; counted = s.counted; in_range = s.in_range })

  ruleset notice_rules = (library_rules, note_error-Keeps, note_utterance-Keeps, enter_by_uid-Keeps)

  cb_error-Keeps : (u code id : ℤ) → Keeps (Holds IsAllSettled) (cb_error p u code id)
  unfolding cb_error
  cb_error-Keeps u code id = search notice_rules depth 20

  cb_set_state-Keeps : (u state : ℤ) → Keeps (Holds IsAllSettled) (cb_set_state p u state)
  unfolding cb_set_state
  cb_set_state-Keeps u state = search notice_rules depth 20

  cb_utt_started-Keeps : (u id : ℤ) → Keeps (Holds IsAllSettled) (cb_utt_started p u id)
  unfolding cb_utt_started
  cb_utt_started-Keeps u id = search notice_rules depth 20

  cb_utt_completed-Keeps : (u id : ℤ) → Keeps (Holds IsAllSettled) (cb_utt_completed p u id)
  unfolding cb_utt_completed
  cb_utt_completed-Keeps u id = search notice_rules depth 20

  -- The use of a client by a callback ends with it.
  call_application_balanced :
      (h : ℤ) (callback : Option ℕ) (tts : ℤ) (notice : Notice) (d : Library World)
      → (call_application p h callback tts notice d).1.handles ≡ d.handles
  unfolding call_application external on_handles client_use_callback client_not_use_callback pure
      ◌>>=◌
  call_application_balanced h none tts notice d = refl
  call_application_balanced h (some f) tts notice d = rw (change_client-use h d.handles.client_list)

  call_application-Keeps :
      {P : Handles → Type 0} (h : ℤ) (callback : Option ℕ) (tts : ℤ) (notice : Notice)
      → Keeps (Holds P) (call_application p h callback tts notice)
  call_application-Keeps {P} h callback tts notice = record {
    at = λ d v. record { holds = rw (call_application_balanced h callback tts notice d) v.holds };
  }

  pub run_timer-Keeps : (t : LibTimer) → Keeps (Holds IsAllSettled) (run_timer p t)
  unfolding run_timer notify_state_changed notify_error notify_utt_started notify_utt_completed
  run_timer-Keeps (connect_daemon_timer h) = connect_daemon-Keeps p h
  run_timer-Keeps (notify_state_timer h) = search (library_rules, call_application-Keeps) depth 20
  run_timer-Keeps (notify_error_timer h) = search (library_rules, call_application-Keeps) depth 20
  run_timer-Keeps (notify_started_timer h) = search (library_rules, call_application-Keeps) depth 20
  run_timer-Keeps (notify_completed_timer h) =
      search (library_rules, call_application-Keeps) depth 20

  receive-Keeps : (m : Method) (args : List Arg) → Keeps (Holds IsAllSettled) (receive p m args)
  unfolding receive receive_hello
  receive-Keeps method_hello args = search library_rules depth 20
  receive-Keeps method_utterance_started args =
      search (library_rules, cb_utt_started-Keeps) depth 20
  receive-Keeps method_utterance_completed args =
      search (library_rules, cb_utt_completed-Keeps) depth 20
  receive-Keeps method_set_state args = search (library_rules, cb_set_state-Keeps) depth 20
  receive-Keeps method_error args = search (library_rules, cb_error-Keeps) depth 20

  pub listener-Keeps : Keeps (Holds IsAllSettled) (listener p)
  unfolding listener
  listener-Keeps = search (library_rules, receive-Keeps) depth 20
