-- ===== src/Client/Api.antt =====
-- client/tts.c: the calls of an application on a handle. The callbacks are in Client/Notify.antt.
use Prim.Native.String.{String}
use framework_uifw_voice_tts.Prelude.{
  ℕ, Bool, true, false, not, ◌||◌, Option, none, some, ℤ, pos, negsuc, ◌==ℤ◌, is_nonzero, ◌==◌,
  if◌then◌else◌,
}
use framework_uifw_voice_tts.Types.{
  error_none, error_invalid_parameter, error_invalid_state, error_engine_not_found,
  error_operation_failed, minus_one,
}
use framework_uifw_voice_tts.Action.{Action, pure, ◌>>=◌, ◌>>◌, case_option}
use framework_uifw_voice_tts.Client.{
  TtsState, tts_created, tts_ready, tts_playing, tts_paused, tts_other, TtsClient, int_suc,
  change_client, client_new, client_get, client_get_size, client_destroy,
}
use framework_uifw_voice_tts.Client.Link.{
  LibPlatform, connect_daemon_timer, notify_state_timer, notify_error_timer, Library, external,
  ask_handles, on_handles, get_is_daemon_started, set_is_daemon_started, add_timer, open_connection,
  close_connection, request_hello, request_initialize, request_finalize, request_play, request_stop,
  request_pause, request_add_text, request_get_default_voice, request_get_support_voice,
}

-- TTS_ERROR_TIMED_OUT; the other codes of client/tts.h have the numbers of the daemon's.
abbrev pub error_timed_out : ℤ
error_timed_out = negsuc 0x100023

-- MAX_TEXT_COUNT
abbrev pub max_text_count : ℕ
max_text_count = 1000

abbrev pub is_created : TtsState → Bool
is_created tts_created = true
is_created _ = false

abbrev pub is_ready : TtsState → Bool
is_ready tts_ready = true
is_ready _ = false

abbrev pub is_playing : TtsState → Bool
is_playing tts_playing = true
is_playing _ = false

abbrev pub is_other : TtsState → Bool
is_other (tts_other _) = true
is_other _ = false

-- `client->before_state = client->current_state; client->current_state = …`
abbrev pub enter : TtsState → TtsClient → TtsClient
enter state c = record c { before_state = c.current_state; current_state = state }

-- The id that tts_add_text gives next: 1 to 9999, and 1 again.
abbrev pub next_utt_id : ℤ → ℤ
next_utt_id i = if int_suc i ==ℤ pos 10000 then pos 1 else int_suc i

abbrev pub count_utterance : TtsClient → TtsClient
count_utterance c = record c { current_utt_id = next_utt_id c.current_utt_id }

abbrev pub has_callback : Option ℕ → Bool
has_callback none = false
has_callback (some _) = true

-- The error that __tts_connect_daemon leaves for the application.
abbrev pub note_failure : ℤ → TtsClient → TtsClient
note_failure code c = record c { reason = code; utt_id = minus_one }

abbrev pub language_or_default : Option String → String
language_or_default language = case_option language "default" (λ l. l)

module _ (p : LibPlatform) where
  open p use {World, pid, check_daemon}

  -- A write through the pointer to the client of a handle.
  abbrev pub write_client : ℤ → (TtsClient → TtsClient) → Action (Library World) (Unit {0})
  write_client h f = on_handles (λ s. record s { client_list = change_client h f s.client_list })

  -- The lookup with which the calls begin. A NULL handle is not found.
  abbrev pub with_client :
      {A : Type 0}
      → A
      → Option ℤ
      → (ℤ → TtsClient → Action (Library World) A)
      → Action (Library World) A
  with_client refused tts f =
      case_option tts (pure refused)
        λ h. do found ← ask_handles (client_get (some h)); case_option found (pure refused) (f h)

  unfoldable pub create : Bool → Action (Library World) (ℤ × Option ℤ)
  create has_out = if not has_out then pure (error_invalid_parameter, none) else do
    size ← ask_handles client_get_size
    opened ← (if size == 0 then open_connection p else pure (pos 0))
    if is_nonzero opened then pure (error_operation_failed, none) else do
      made ← ask_handles (client_new pid)
      on_handles (λ s. (client_new pid s).1)
      pure (error_none, some made.0)

  -- The end of tts_destroy, when the client is off the list.
  unfoldable pub close_if_last : Action (Library World) ℤ
  close_if_last = do
    size ← ask_handles client_get_size
    if size == 0 then (do close_connection p; pure error_none) else pure error_none

  -- What the switch of tts_destroy does first: every state but `created` asks the daemon.
  unfoldable pub finalize_if_prepared : TtsClient → Action (Library World) (Unit {0})
  finalize_if_prepared c =
      if is_created c.current_state then pure tt else (do request_finalize p c.uid; pure tt)

  -- The cases of the switch. A state that is none of them is left as it is, client and all.
  unfoldable pub destroy_found : ℤ → TtsClient → Library World → Option (ℤ × Library World)
  destroy_found h c d =
      if is_other c.current_state
      then some (close_if_last d)
      else let e = (finalize_if_prepared c d).1 in
        case_option (client_destroy (some h) e.handles) none
          λ r. some (close_if_last (record e { handles = r.1 }))

  -- tts_destroy, `none` if it waits for ever: until a callback ends that uses the client.
  unfoldable pub destroy : Option ℤ → Library World → Option (ℤ × Library World)
  destroy tts d = case_option tts (some (error_invalid_parameter, d)) λ h.
      case_option (client_get (some h) d.handles) (some (error_invalid_parameter, d))
        λ c. destroy_found h c d

  unfoldable pub fail_connection : ℤ → TtsClient → ℤ → Action (Library World) Bool
  fail_connection h c code = do
    write_client h (note_failure code)
    add_timer (notify_error_timer c.handle)
    pure false

  unfoldable pub start_daemon : Action (Library World) (Unit {0})
  start_daemon = do
    started ← get_is_daemon_started
    if started then pure tt else do set_is_daemon_started; external check_daemon; pure tt

  unfoldable pub connect_found : ℤ → TtsClient → Action (Library World) Bool
  connect_found h c = do
    hello ← request_hello p
    if is_nonzero hello then (do start_daemon; pure true) else do
      result ← request_initialize p c.uid
      if result ==ℤ error_engine_not_found
          then fail_connection h c error_engine_not_found
          else if is_nonzero result
          then fail_connection h c error_timed_out
          else do
            write_client h (enter tts_ready)
            add_timer (notify_state_timer c.handle)
            pure false

  -- __tts_connect_daemon, a timer that goes on until the daemon answers.
  unfoldable pub connect_daemon : ℤ → Action (Library World) Bool
  connect_daemon h = with_client false (some h) connect_found

  unfoldable pub prepare : Option ℤ → Action (Library World) ℤ
  prepare tts = with_client error_invalid_parameter tts λ h c.
      if not (is_created c.current_state)
      then pure error_invalid_state
      else do add_timer (connect_daemon_timer h); pure error_none

  unfoldable pub unprepare : Option ℤ → Action (Library World) ℤ
  unprepare tts = with_client error_invalid_parameter tts λ h c.
      if not (is_ready c.current_state) then pure error_invalid_state else do
        request_finalize p c.uid
        write_client h (enter tts_created)
        add_timer (notify_state_timer h)
        pure error_none

  unfoldable pub foreach_supported_voices : Option ℤ → Option ℕ → Action (Library World) (Option ℤ)
  foreach_supported_voices tts callback =
      case_option callback (pure (some error_invalid_parameter)) λ f.
        with_client (some error_invalid_parameter) tts λ h c.
          if not (is_ready c.current_state)
          then pure (some error_invalid_state)
          else request_get_support_voice p c.uid c.handle f

  unfoldable pub get_default_voice :
      Option ℤ → Bool → Action (Library World) (ℤ × Option (String × ℤ))
  get_default_voice tts has_out =
      with_client (error_invalid_parameter, none) tts
        λ h c.
          if not (is_ready c.current_state)
          then pure (error_invalid_state, none)
          else if not has_out
          then pure (error_invalid_parameter, none)
          else request_get_default_voice p c.uid

  unfoldable pub get_max_text_count : Option ℤ → Bool → Action (Library World) (ℤ × Option ℕ)
  get_max_text_count tts has_out =
      if not has_out
      then pure (error_invalid_parameter, none)
      else with_client (error_invalid_parameter, none) tts
          λ h c.
            if not (is_ready c.current_state)
            then pure (error_invalid_state, none)
            else pure (error_none, some max_text_count)

  unfoldable pub get_state : Option ℤ → Bool → Action (Library World) (ℤ × Option TtsState)
  get_state tts has_out =
      if not has_out
      then pure (error_invalid_parameter, none)
      else with_client (error_invalid_parameter, none) tts
          λ h c. pure (error_none, some c.current_state)

  -- The id counts up, and is handed out, whatever the daemon answers.
  unfoldable pub add_text :
      Option ℤ
      → Option String
      → Option String
      → ℤ
      → ℤ
      → Bool
      → Action (Library World) (ℤ × Option ℤ)
  add_text tts text language voice_type speed has_out =
      if not has_out
      then pure (error_invalid_parameter, none)
      else with_client (error_invalid_parameter, none) tts
          λ h c. if is_created c.current_state then pure (error_invalid_state, none) else do
            write_client h count_utterance
            let id = next_utt_id c.current_utt_id
            result ←
                request_add_text p c.uid text (language_or_default language) voice_type speed id
            pure (result, some id)

  -- The end of tts_play, tts_stop and tts_pause when the daemon agreed.
  unfoldable pub enter_state : ℤ → TtsClient → TtsState → Action (Library World) ℤ
  enter_state h c state = do
    write_client h (enter state)
    if has_callback c.state_changed_cb
        then (do add_timer (notify_state_timer h); pure error_none)
        else pure error_none

  unfoldable pub play : Option ℤ → Action (Library World) ℤ
  play tts = with_client error_invalid_parameter tts λ h c.
      if is_playing c.current_state || is_created c.current_state
      then pure error_invalid_state
      else do
        result ← request_play p c.uid
        if is_nonzero result then pure result else enter_state h c tts_playing

  unfoldable pub stop : Option ℤ → Action (Library World) ℤ
  stop tts = with_client error_invalid_parameter tts λ h c.
      if is_created c.current_state then pure error_invalid_state else do
        result ← request_stop p c.uid
        if is_nonzero result then pure result else enter_state h c tts_ready

  unfoldable pub pause : Option ℤ → Action (Library World) ℤ
  pause tts = with_client error_invalid_parameter tts λ h c.
      if not (is_playing c.current_state) then pure error_invalid_state else do
        result ← request_pause p c.uid
        if is_nonzero result then pure result else enter_state h c tts_paused
