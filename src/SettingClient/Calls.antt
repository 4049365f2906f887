-- ===== src/SettingClient/Calls.antt =====
-- client/tts_setting.c: the calls of an application and the timers of the library. A `char*` is `none` for
-- NULL, a callback that may be NULL an optional number, and a pointer to a result a Boolean that says
-- whether it is there.
use Prim.Native.String.{String}
use framework_uifw_voice_tts.Prelude.{
  ℕ, zero, suc, Bool, true, false, not, ◌&&◌, ltb, Option, none, some, ℤ, pos, ◌==ℤ◌, is_nonzero,
  if◌then◌else◌,
}
use framework_uifw_voice_tts.Types.{
  error_none, error_invalid_parameter, error_invalid_state, error_engine_not_found,
  error_operation_failed,
}
use framework_uifw_voice_tts.Action.{Action, pure, ◌>>=◌, ◌>>◌, case_option}
use framework_uifw_voice_tts.Client.Api.{error_timed_out}
use framework_uifw_voice_tts.SettingClient.{
  SettingState, setting_state_none, setting_state_ready, SettingPlatform, connect_daemon_timer,
  initialized_timer, SettingLibrary, beyond, get_library, set_state, set_reason, set_daemon_started,
  set_callback, add_timer, open_connection, close_connection,
}
use framework_uifw_voice_tts.SettingClient.Requests.{
  request_hello, request_initialize, request_finalize, request_set_engine,
  request_set_default_voice, request_set_default_speed, request_set_engine_setting,
  request_get_engine, request_get_default_voice, request_get_default_speed, request_get_engine_list,
  request_get_voice_list, request_get_engine_setting,
}

abbrev pub is_ready : SettingState → Bool
is_ready setting_state_none = false
is_ready setting_state_ready = true

-- TTS_SETTING_VOICE_TYPE_MALE to TTS_SETTING_VOICE_TYPE_USER3
abbrev pub is_voice_type : ℤ → Bool
is_voice_type (pos (suc n)) = ltb n 6
is_voice_type _ = false

-- TTS_SETTING_SPEED_VERY_SLOW to TTS_SETTING_SPEED_VERY_FAST
abbrev pub is_speed : ℤ → Bool
is_speed (pos (suc n)) = ltb n 5
is_speed _ = false

module _ (p : SettingPlatform) where
  open p use {World, check_daemon, sleep, initialized_callback}

  -- What `g_state` and `g_reason` are when the timer runs is told to the application.
  unfoldable pub setting_initialized : Action (SettingLibrary World) Bool
  setting_initialized = do
    d ← get_library
    beyond (initialized_callback d.initialized_cb d.state d.reason)
    pure false

  -- Starts the daemon, the first time.
  unfoldable pub start_daemon : Action (SettingLibrary World) Bool
  start_daemon = do
    d ← get_library
    if d.is_daemon_started then pure true else do set_daemon_started; beyond check_daemon; pure true

  -- Whether the timer stays.
  unfoldable pub setting_connect_daemon : Action (SettingLibrary World) Bool
  setting_connect_daemon = do
    hello ← request_hello p
    if is_nonzero hello then start_daemon else do
      ret ← request_initialize p
      (if is_nonzero ret then pure tt else set_state setting_state_ready)
      set_reason ret
      add_timer initialized_timer
      pure false

  -- The loop of tts_setting_initialize, with the number of requests that are left: none of them may follow
  -- an answer that the engine is missing.
  unfoldable pub try_initialize : ℕ → Action (SettingLibrary World) ℤ
  try_initialize zero = pure error_timed_out
  try_initialize (suc left) = do
    ret ← request_initialize p
    if ret ==ℤ error_engine_not_found
        then pure ret
        else if is_nonzero ret
        then (beyond sleep >> try_initialize left)
        else pure ret

  unfoldable pub initialize : Action (SettingLibrary World) ℤ
  initialize = do
    d ← get_library
    if is_ready d.state then pure error_none else do
      opened ← open_connection p
      if is_nonzero opened then pure error_operation_failed else do
        hello ← request_hello p
        (if is_nonzero hello then beyond check_daemon else pure (pos 0))
        ret ← try_initialize 3
        (if is_nonzero ret then pure tt else set_state setting_state_ready)
        pure ret

  unfoldable pub initialize_async : ℕ → Action (SettingLibrary World) ℤ
  initialize_async callback = do
    d ← get_library
    if is_ready d.state then pure error_none else do
      opened ← open_connection p
      if is_nonzero opened
          then pure error_operation_failed
          else do set_callback callback; add_timer connect_daemon_timer; pure error_none

  unfoldable pub finalize : Action (SettingLibrary World) ℤ
  finalize = do
    d ← get_library
    if not (is_ready d.state) then pure error_invalid_state else do
      ret ← request_finalize p
      if is_nonzero ret
          then pure error_operation_failed
          else do close_connection p; set_state setting_state_none; pure error_none

  -- The guard that the calls below start with.
  unfoldable pub when_ready :
      {A : Type 0} → A → Action (SettingLibrary World) A → Action (SettingLibrary World) A
  when_ready refused m = do d ← get_library; if is_ready d.state then m else pure refused

  unfoldable pub foreach_supported_engines : Option ℕ → Action (SettingLibrary World) (Option ℤ)
  foreach_supported_engines callback =
      when_ready (some error_invalid_state)
        (case_option callback (pure (some error_invalid_parameter)) (request_get_engine_list p))

  unfoldable pub foreach_supported_voices : Option ℕ → Action (SettingLibrary World) (Option ℤ)
  foreach_supported_voices callback =
      when_ready (some error_invalid_state)
        (case_option callback (pure (some error_invalid_parameter)) (request_get_voice_list p))

  unfoldable pub foreach_engine_settings : Option ℕ → Action (SettingLibrary World) (Option ℤ)
  foreach_engine_settings callback =
      when_ready (some error_invalid_state)
        (case_option callback (pure (some error_invalid_parameter)) (request_get_engine_setting p))

  unfoldable pub get_engine : Bool → Action (SettingLibrary World) (ℤ × Option (Option String))
  get_engine there =
      when_ready (error_invalid_state, none)
        (if there then request_get_engine p else pure (error_invalid_parameter, none))

  unfoldable pub set_engine : Option String → Action (SettingLibrary World) ℤ
  set_engine engine_id =
      when_ready error_invalid_state
        (case_option engine_id (pure error_invalid_parameter) (request_set_engine p))

  unfoldable pub get_default_voice :
      Bool → Bool → Action (SettingLibrary World) (ℤ × Option (Option String × ℤ))
  get_default_voice language voice_type =
      when_ready (error_invalid_state, none)
        (if language && voice_type
          then request_get_default_voice p
          else pure (error_invalid_parameter, none))

  unfoldable pub set_default_voice : Option String → ℤ → Action (SettingLibrary World) ℤ
  set_default_voice language voice_type = when_ready error_invalid_state (
      case_option language (pure error_invalid_parameter) λ l.
        if is_voice_type voice_type
        then request_set_default_voice p l voice_type
        else pure error_invalid_parameter)

  unfoldable pub get_default_speed : Bool → Action (SettingLibrary World) (ℤ × Option ℤ)
  get_default_speed there =
      when_ready (error_invalid_state, none)
        (if there then request_get_default_speed p else pure (error_invalid_parameter, none))

  unfoldable pub set_default_speed : ℤ → Action (SettingLibrary World) ℤ
  set_default_speed speed =
      when_ready error_invalid_state
        (if is_speed speed then request_set_default_speed p speed else pure error_invalid_parameter)

  unfoldable pub set_engine_setting :
      Option String → Option String → Action (SettingLibrary World) ℤ
  set_engine_setting key value = when_ready error_invalid_state (
      case_option key (pure error_invalid_parameter)
        λ k. case_option value (pure error_invalid_parameter) λ v. request_set_engine_setting p k v)
