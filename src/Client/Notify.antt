-- ===== src/Client/Notify.antt =====
-- client/tts.c: the application's callbacks. A message of the daemon notes what happened in the client and
-- adds a timer; the timer calls the application. A callback may change the `World` only, not the handles.
use framework_uifw_voice_tts.Prelude.{
  ℕ, Bool, false, not, Option, none, some, ℤ, pos, ◌==ℤ◌, if◌then◌else◌, List, [], ◌∷◌,
}
use framework_uifw_voice_tts.Types.{error_invalid_parameter, error_invalid_state, minus_one}
use framework_uifw_voice_tts.Action.{Action, pure, ◌>>=◌, ◌>>◌, case_option}
use framework_uifw_voice_tts.Client.{
  TtsState, tts_created, tts_ready, tts_playing, tts_paused, tts_other, TtsClient,
  client_get_by_uid, client_use_callback, client_not_use_callback,
}
use framework_uifw_voice_tts.Client.Link.{
  LibPlatform, Notice, state_notice, utterance_notice, error_notice, LibTimer, connect_daemon_timer,
  notify_state_timer, notify_error_timer, notify_started_timer, notify_completed_timer, Library,
  external, ask_handles, on_handles, add_timer,
}
use framework_uifw_voice_tts.Client.Api.{
  is_created, enter, has_callback, write_client, with_client, connect_daemon,
}

-- The number of a state, and the cast of a number to a state.
abbrev pub state_number : TtsState → ℤ
state_number tts_created = pos 0
state_number tts_ready = pos 1
state_number tts_playing = pos 2
state_number tts_paused = pos 3
state_number (tts_other n) = n

unfoldable pub state_of : ℤ → TtsState
state_of n =
    if n ==ℤ pos 0
    then tts_created
    else if n ==ℤ pos 1
    then tts_ready
    else if n ==ℤ pos 2
    then tts_playing
    else if n ==ℤ pos 3
    then tts_paused
    else tts_other n

-- A write through the pointer that tts_client_get_by_uid returned.
abbrev pub change_by_uid : ℤ → (TtsClient → TtsClient) → List TtsClient → List TtsClient
change_by_uid uid f [] = []
change_by_uid uid f (c ∷ l) = if uid ==ℤ c.uid then f c ∷ l else c ∷ change_by_uid uid f l

abbrev pub note_utterance : ℤ → TtsClient → TtsClient
note_utterance id c = record c { utt_id = id }

abbrev pub note_error : ℤ → ℤ → TtsClient → TtsClient
note_error id code c = record c { utt_id = id; reason = code }

module _ (p : LibPlatform) where
  open p use {World, application}

  abbrev pub write_by_uid : ℤ → (TtsClient → TtsClient) → Action (Library World) (Unit {0})
  write_by_uid uid f =
      on_handles (λ s. record s { client_list = change_by_uid uid f s.client_list })

  -- The lookup with which a message of the daemon begins.
  abbrev pub with_uid : ℤ → ℤ → (TtsClient → Action (Library World) ℤ) → Action (Library World) ℤ
  with_uid refused uid f = do
    found ← ask_handles (client_get_by_uid uid)
    case_option found (pure refused) f

  -- A timer for the application, if it set the callback.
  abbrev pub add_timer_for : Option ℕ → LibTimer → Action (Library World) (Unit {0})
  add_timer_for callback t = if has_callback callback then add_timer t else pure tt

  -- __tts_cb_error
  unfoldable pub cb_error : ℤ → ℤ → ℤ → Action (Library World) ℤ
  cb_error uid code id = with_uid error_invalid_parameter uid λ c. do
    write_by_uid uid (note_error id code)
    add_timer_for c.error_cb (notify_error_timer c.handle)
    pure (pos 0)

  -- __tts_cb_set_state
  unfoldable pub cb_set_state : ℤ → ℤ → Action (Library World) ℤ
  cb_set_state uid state = with_uid minus_one uid λ c.
      if state_number c.current_state ==ℤ state then pure (pos 0) else do
        add_timer_for c.state_changed_cb (notify_state_timer c.handle)
        write_by_uid uid (enter (state_of state))
        pure (pos 0)

  -- __tts_cb_utt_started
  unfoldable pub cb_utt_started : ℤ → ℤ → Action (Library World) ℤ
  cb_utt_started uid id = with_uid error_invalid_parameter uid λ c. do
    write_by_uid uid (note_utterance id)
    add_timer_for c.utt_started_cb (notify_started_timer c.handle)
    pure (pos 0)

  -- __tts_cb_utt_completed
  unfoldable pub cb_utt_completed : ℤ → ℤ → Action (Library World) ℤ
  cb_utt_completed uid id = with_uid error_invalid_parameter uid λ c. do
    write_by_uid uid (note_utterance id)
    add_timer_for c.utt_completed_cb (notify_completed_timer c.handle)
    pure (pos 0)

  -- The call of the application, between tts_client_use_callback and tts_client_not_use_callback.
  unfoldable pub call_application : ℤ → Option ℕ → ℤ → Notice → Action (Library World) (Unit {0})
  call_application h callback tts notice = case_option callback (pure tt) λ f. do
    on_handles (client_use_callback h)
    external (application f tts notice)
    on_handles (client_not_use_callback h)

  -- __tts_notify_error
  unfoldable pub notify_error : ℤ → Action (Library World) Bool
  notify_error h =
      with_client p false (some h) λ k c. do
        call_application k c.error_cb c.handle (error_notice c.utt_id c.reason)
        pure false

  -- __tts_notify_state_changed
  unfoldable pub notify_state_changed : ℤ → Action (Library World) Bool
  notify_state_changed h = with_client p false (some h) λ k c. do
    call_application k c.state_changed_cb c.handle
        (state_notice (state_number c.before_state) (state_number c.current_state))
    pure false

  -- __tts_notify_utt_started
  unfoldable pub notify_utt_started : ℤ → Action (Library World) Bool
  notify_utt_started h =
      with_client p false (some h) λ k c. do
        call_application k c.utt_started_cb c.handle (utterance_notice c.utt_id)
        pure false

  -- __tts_notify_utt_completed
  unfoldable pub notify_utt_completed : ℤ → Action (Library World) Bool
  notify_utt_completed h = with_client p false (some h) λ k c. do
    call_application k c.utt_completed_cb c.handle (utterance_notice c.utt_id)
    pure false

  -- What a timer runs; it stays if that returns `true`.
  unfoldable pub run_timer : LibTimer → Action (Library World) Bool
  run_timer (connect_daemon_timer h) = connect_daemon p h
  run_timer (notify_state_timer h) = notify_state_changed h
  run_timer (notify_error_timer h) = notify_error h
  run_timer (notify_started_timer h) = notify_utt_started h
  run_timer (notify_completed_timer h) = notify_utt_completed h

  -- The checks that setting and unsetting a callback share, and the write.
  unfoldable pub set_when_created : Option ℤ → (TtsClient → TtsClient) → Action (Library World) ℤ
  set_when_created tts f = with_client p error_invalid_parameter tts λ h c.
      if not (is_created c.current_state)
      then pure error_invalid_state
      else do write_client p h f; pure (pos 0)

  unfoldable pub set_state_changed_cb : Option ℤ → Option ℕ → Action (Library World) ℤ
  set_state_changed_cb tts callback =
      case_option callback (pure error_invalid_parameter)
        λ f. set_when_created tts (λ c. record c { state_changed_cb = some f })

  unfoldable pub unset_state_changed_cb : Option ℤ → Action (Library World) ℤ
  unset_state_changed_cb tts = set_when_created tts (λ c. record c { state_changed_cb = none })

  unfoldable pub set_utterance_started_cb : Option ℤ → Option ℕ → Action (Library World) ℤ
  set_utterance_started_cb tts callback =
      case_option callback (pure error_invalid_parameter)
        λ f. set_when_created tts (λ c. record c { utt_started_cb = some f })

  unfoldable pub unset_utterance_started_cb : Option ℤ → Action (Library World) ℤ
  unset_utterance_started_cb tts = set_when_created tts (λ c. record c { utt_started_cb = none })

  unfoldable pub set_utterance_completed_cb : Option ℤ → Option ℕ → Action (Library World) ℤ
  set_utterance_completed_cb tts callback =
      case_option callback (pure error_invalid_parameter)
        λ f. set_when_created tts (λ c. record c { utt_completed_cb = some f })

  unfoldable pub unset_utterance_completed_cb : Option ℤ → Action (Library World) ℤ
  unset_utterance_completed_cb tts =
      set_when_created tts (λ c. record c { utt_completed_cb = none })

  unfoldable pub set_error_cb : Option ℤ → Option ℕ → Action (Library World) ℤ
  set_error_cb tts callback =
      case_option callback (pure error_invalid_parameter)
        λ f. set_when_created tts (λ c. record c { error_cb = some f })

  unfoldable pub unset_error_cb : Option ℤ → Action (Library World) ℤ
  unset_error_cb tts = set_when_created tts (λ c. record c { error_cb = none })
