-- ===== src/SettingClient/Requests.antt =====
-- client/tts_setting_dbus.c: the requests to the daemon, each with the process id first, and how their
-- answers are read. Callers have made sure that pointers to results and callbacks are not NULL.
use Prim.Native.String.{String}
use framework_uifw_voice_tts.Prelude.{
  ℕ, zero, suc, not, Option, none, some, List, [], ◌∷◌, ℤ, pos, negsuc, is_nonzero, if◌then◌else◌,
}
use framework_uifw_voice_tts.Types.{error_operation_failed, error_out_of_memory, minus_one}
use framework_uifw_voice_tts.Action.{Action, pure, ◌>>=◌, case_option}
use framework_uifw_voice_tts.Wire.{
  ServerMethod, setting_hello_method, setting_initialize_method, setting_finalize_method,
  get_engine_list_method, get_engine_method, set_engine_method, get_voice_list_method,
  get_default_voice_method, set_default_voice_method, get_default_speed_method,
  set_default_speed_method, get_engine_setting_method, set_engine_setting_method, Arg, arg_int,
  arg_string, get_int, get_int_int, get_int_string, get_int_string_int,
}
use framework_uifw_voice_tts.SettingClient.{SettingPlatform, SettingLibrary, beyond}

-- An iterator over the arguments: what stands at it, and the arguments that follow.
abbrev pub take_int : List Arg → Option (ℤ × List Arg)
take_int (arg_int n ∷ rest) = some (n, rest)
take_int _ = none

abbrev pub take_string : List Arg → Option (String × List Arg)
take_string (arg_string s ∷ rest) = some (s, rest)
take_string _ = none

abbrev pub take_strings : List Arg → Option (String × String × String × List Arg)
take_strings (arg_string id ∷ arg_string name ∷ arg_string path ∷ rest) =
    some (id, name, path, rest)
take_strings _ = none

abbrev pub take_voice : List Arg → Option (String × ℤ × List Arg)
take_voice (arg_string lang ∷ arg_int voice_type ∷ rest) = some (lang, voice_type, rest)
take_voice _ = none

abbrev pub take_setting : List Arg → Option (String × String × List Arg)
take_setting (arg_string key ∷ arg_string value ∷ rest) = some (key, value, rest)
take_setting _ = none

-- How often `for (i = 0; i < size; i++)` may run.
abbrev pub rounds : ℤ → ℕ
rounds (pos n) = n
rounds (negsuc _) = 0

module _ (p : SettingPlatform) where
  open p use {
    World, pid, new_method_call, append_args, send_with_reply, strdup, engine_callback,
    voice_callback, setting_callback,
  }

  unfoldable pub request_hello : Action (SettingLibrary World) ℤ
  request_hello = do
    made ← beyond (new_method_call setting_hello_method)
    if not made then pure error_operation_failed else do
      reply ← beyond (send_with_reply setting_hello_method [])
      case_option reply (pure minus_one) λ answer. pure (pos 0)

  -- What all other requests do: a message with the process id and the arguments, and the answer, which
  -- `read` gets. Without a message, or without an answer, the result is `failed` or `silent`.
  unfoldable pub send_request :
      {A : Type 0}
      → ServerMethod
      → List Arg
      → A
      → A
      → (List Arg → Action (SettingLibrary World) A)
      → Action (SettingLibrary World) A
  send_request method args failed silent read = do
    made ← beyond (new_method_call method)
    if not made then pure failed else do
      held ← beyond (append_args (arg_int (pos pid) ∷ args))
      reply ← beyond (send_with_reply method held)
      case_option reply (pure silent) read

  -- The result of an answer, or `bad` if its first argument is not an INT32.
  unfoldable pub result_or : ℤ → List Arg → Action (SettingLibrary World) ℤ
  result_or bad answer = pure (case_option (get_int answer) bad (λ r. r))

  unfoldable pub request_result : ServerMethod → List Arg → Action (SettingLibrary World) ℤ
  request_result method args =
      send_request method args error_operation_failed error_operation_failed
        (result_or error_operation_failed)

  unfoldable pub request_initialize : Action (SettingLibrary World) ℤ
  request_initialize = request_result setting_initialize_method []

  -- No answer counts as success here.
  unfoldable pub request_finalize : Action (SettingLibrary World) ℤ
  request_finalize =
      send_request setting_finalize_method [] error_operation_failed (pos 0)
        (result_or error_operation_failed)

  unfoldable pub request_set_engine : String → Action (SettingLibrary World) ℤ
  request_set_engine engine_id = request_result set_engine_method (arg_string engine_id ∷ [])

  unfoldable pub request_set_default_voice : String → ℤ → Action (SettingLibrary World) ℤ
  request_set_default_voice language voicetype =
      request_result set_default_voice_method (arg_string language ∷ arg_int voicetype ∷ [])

  unfoldable pub request_set_default_speed : ℤ → Action (SettingLibrary World) ℤ
  request_set_default_speed speed = request_result set_default_speed_method (arg_int speed ∷ [])

  unfoldable pub request_set_engine_setting : String → String → Action (SettingLibrary World) ℤ
  request_set_engine_setting key value =
      send_request set_engine_setting_method (arg_string key ∷ arg_string value ∷ [])
        error_operation_failed error_operation_failed (result_or minus_one)

  -- What is written through the pointer, if anything is: a copy of the id, or NULL without memory.
  unfoldable pub read_engine : List Arg → Action (SettingLibrary World) (ℤ × Option (Option String))
  read_engine answer =
      case_option (get_int_string answer) (pure (error_operation_failed, none)) λ r.
        if is_nonzero r.0 then pure (r.0, none) else do
          copy ← beyond (strdup r.1)
          pure (case_option copy (error_out_of_memory, some none) λ s. (r.0, some (some s)))

  unfoldable pub request_get_engine : Action (SettingLibrary World) (ℤ × Option (Option String))
  request_get_engine =
      send_request get_engine_method [] (error_operation_failed, none)
        (error_operation_failed, none) read_engine

  -- The type of the voice is written even if there is no memory for the language.
  unfoldable pub read_default_voice :
      List Arg → Action (SettingLibrary World) (ℤ × Option (Option String × ℤ))
  read_default_voice answer =
      case_option (get_int_string_int answer) (pure (error_operation_failed, none)) λ r.
        if is_nonzero r.0 then pure (r.0, none) else do
          copy ← beyond (strdup r.1)
          pure (
              case_option copy (error_out_of_memory, some (none, r.2))
                λ s. (r.0, some (some s, r.2)))

  unfoldable pub request_get_default_voice :
      Action (SettingLibrary World) (ℤ × Option (Option String × ℤ))
  request_get_default_voice =
      send_request get_default_voice_method [] (error_operation_failed, none)
        (error_operation_failed, none) read_default_voice

  unfoldable pub read_speed : List Arg → Action (SettingLibrary World) (ℤ × Option ℤ)
  read_speed answer = pure (
      case_option (get_int_int answer) (error_operation_failed, none)
        λ r. if is_nonzero r.0 then (r.0, none) else (r.0, some r.1))

  unfoldable pub request_get_default_speed : Action (SettingLibrary World) (ℤ × Option ℤ)
  request_get_default_speed =
      send_request get_default_speed_method [] (error_operation_failed, none)
        (error_operation_failed, none) read_speed

  -- The entries of an answer, handed to the callback until it declines. The count that comes first is
  -- believed: `none` is an entry that is read behind the end of the message, or with another type.
  unfoldable pub each_engine : ℕ → ℕ → List Arg → Action (SettingLibrary World) (Option ℤ)
  each_engine zero callback args = pure (some (pos 0))
  each_engine (suc n) callback args = case_option (take_strings args) (pure none) λ e. do
    more ← beyond (engine_callback callback e.0 e.1 e.2)
    if more then each_engine n callback e.3 else pure (some (pos 0))

  unfoldable pub each_voice : ℕ → ℕ → String → List Arg → Action (SettingLibrary World) (Option ℤ)
  each_voice zero callback id args = pure (some (pos 0))
  each_voice (suc n) callback id args = case_option (take_voice args) (pure none) λ e. do
    more ← beyond (voice_callback callback id e.0 e.1)
    if more then each_voice n callback id e.2 else pure (some (pos 0))

  unfoldable pub each_setting : ℕ → ℕ → String → List Arg → Action (SettingLibrary World) (Option ℤ)
  each_setting zero callback id args = pure (some (pos 0))
  each_setting (suc n) callback id args = case_option (take_setting args) (pure none) λ e. do
    more ← beyond (setting_callback callback id e.0 e.1)
    if more then each_setting n callback id e.2 else pure (some (pos 0))

  -- What follows a result of 0; without a result, `result` keeps the value it starts with.
  unfoldable pub after_result :
      (List Arg → Action (SettingLibrary World) (Option ℤ))
      → List Arg
      → Action (SettingLibrary World) (Option ℤ)
  after_result read answer =
      case_option (take_int answer) (pure (some error_operation_failed))
        λ r. if is_nonzero r.0 then pure (some r.0) else read r.1

  -- A count that is not there would be read from an uninitialised variable, but for voices, where it is 0.
  unfoldable pub read_engines : ℕ → List Arg → Action (SettingLibrary World) (Option ℤ)
  read_engines callback =
      after_result
        λ args. case_option (take_int args) (pure none) λ c. each_engine (rounds c.0) callback c.1

  unfoldable pub read_voices : ℕ → List Arg → Action (SettingLibrary World) (Option ℤ)
  read_voices callback = after_result λ args. case_option (take_string args) (pure none) λ i.
      case_option (take_int i.1) (pure (some (pos 0))) λ c. each_voice (rounds c.0) callback i.0 c.1

  unfoldable pub read_settings : ℕ → List Arg → Action (SettingLibrary World) (Option ℤ)
  read_settings callback = after_result λ args.
      case_option (take_string args) (pure none)
        λ i. case_option (take_int i.1) (pure none) λ c. each_setting (rounds c.0) callback i.0 c.1

  unfoldable pub request_list :
      ServerMethod
      → (ℕ → List Arg → Action (SettingLibrary World) (Option ℤ))
      → ℕ
      → Action (SettingLibrary World) (Option ℤ)
  request_list method read callback =
      send_request method [] (some error_operation_failed) (some error_operation_failed)
        (read callback)

  unfoldable pub request_get_engine_list : ℕ → Action (SettingLibrary World) (Option ℤ)
  request_get_engine_list = request_list get_engine_list_method read_engines

  unfoldable pub request_get_voice_list : ℕ → Action (SettingLibrary World) (Option ℤ)
  request_get_voice_list = request_list get_voice_list_method read_voices

  unfoldable pub request_get_engine_setting : ℕ → Action (SettingLibrary World) (Option ℤ)
  request_get_engine_setting = request_list get_engine_setting_method read_settings
