-- ===== src/SettingClient/Keeps.antt =====
-- client/tts_setting_dbus.c: no request changes the state of the library.
use Prim.Native.String.{String}
use framework_uifw_voice_tts.Prelude.{◌≡◌, ℕ, zero, suc, Bool, List, ℤ}
use framework_uifw_voice_tts.Wire.{ServerMethod, Arg}
use framework_uifw_voice_tts.Action.{
  Action, Keeps, Leads-bind, Keeps-pure, keeps_rules, pure, ◌>>=◌,
}
use framework_uifw_voice_tts.SettingClient.{
  SettingState, SettingPlatform, SettingTimer, SettingLibrary, beyond, get_library, set_conn,
  set_callback, add_timer, open_connection,
}
use framework_uifw_voice_tts.SettingClient.Requests.{
  send_request, result_or, request_result, request_hello, request_initialize, request_finalize,
  request_set_engine, request_set_default_voice, request_set_default_speed,
  request_set_engine_setting, read_engine, request_get_engine, read_default_voice,
  request_get_default_voice, read_speed, request_get_default_speed, each_engine, each_voice,
  each_setting, after_result, read_engines, read_voices, read_settings, request_list,
  request_get_engine_list, request_get_voice_list, request_get_engine_setting,
}

pub record StateIs {World : Type 0} (st : SettingState) (d : SettingLibrary World) : Type 0 where
  pub state_is : d.state ≡ st

module _ {World : Type 0} {st : SettingState} where
  pub Keeps-beyond : {A : Type 0} (f : World → A × World) → Keeps (StateIs st) (beyond f)
  unfolding beyond
  Keeps-beyond f = record { at = λ d h. record { state_is = h.state_is } }

  pub Keeps-get_library : Keeps (StateIs {World = World} st) get_library
  unfolding get_library
  Keeps-get_library = record { at = λ d h. h }

  pub Keeps-set_conn : (b : Bool) → Keeps (StateIs {World = World} st) (set_conn b)
  unfolding set_conn
  Keeps-set_conn b = record { at = λ d h. record { state_is = h.state_is } }

  pub Keeps-set_callback : (n : ℕ) → Keeps (StateIs {World = World} st) (set_callback n)
  unfolding set_callback
  Keeps-set_callback n = record { at = λ d h. record { state_is = h.state_is } }

  pub Keeps-add_timer : (t : SettingTimer) → Keeps (StateIs {World = World} st) (add_timer t)
  unfolding add_timer
  Keeps-add_timer t = record { at = λ d h. record { state_is = h.state_is } }

pub ruleset state_rules = (
  keeps_rules, Keeps-beyond, Keeps-get_library, Keeps-set_conn, Keeps-set_callback, Keeps-add_timer,
)

module _ (p : SettingPlatform) {st : SettingState} where
  open p use {World}

  pub open_connection-Keeps : Keeps (StateIs st) (open_connection p)
  unfolding open_connection
  open_connection-Keeps = search state_rules depth 30

  pub hello-Keeps : Keeps (StateIs st) (request_hello p)
  unfolding request_hello
  hello-Keeps = search state_rules depth 30

  send_request-Keeps :
      {A : Type 0} (method : ServerMethod) (args : List Arg) (failed silent : A)
      (read : List Arg → Action (SettingLibrary World) A)
      → ((answer : List Arg) → Keeps (StateIs st) (read answer))
      → Keeps (StateIs st) (send_request p method args failed silent read)
  unfolding send_request
  send_request-Keeps method args failed silent read k = search (state_rules, k) depth 30

  result_or-Keeps : (bad : ℤ) (answer : List Arg) → Keeps (StateIs st) (result_or p bad answer)
  unfolding result_or
  result_or-Keeps bad answer = Keeps-pure _

  request_result-Keeps :
      (method : ServerMethod) (args : List Arg) → Keeps (StateIs st) (request_result p method args)
  unfolding request_result
  request_result-Keeps method args = send_request-Keeps method args _ _ _ (result_or-Keeps _)

  pub initialize-Keeps : Keeps (StateIs st) (request_initialize p)
  unfolding request_initialize
  initialize-Keeps = request_result-Keeps _ _

  pub finalize-Keeps : Keeps (StateIs st) (request_finalize p)
  unfolding request_finalize
  finalize-Keeps = send_request-Keeps _ _ _ _ _ (result_or-Keeps _)

  pub set_engine-Keeps : (s : String) → Keeps (StateIs st) (request_set_engine p s)
  unfolding request_set_engine
  set_engine-Keeps s = request_result-Keeps _ _

  pub set_default_voice-Keeps :
      (s : String) (v : ℤ) → Keeps (StateIs st) (request_set_default_voice p s v)
  unfolding request_set_default_voice
  set_default_voice-Keeps s v = request_result-Keeps _ _

  pub set_default_speed-Keeps : (v : ℤ) → Keeps (StateIs st) (request_set_default_speed p v)
  unfolding request_set_default_speed
  set_default_speed-Keeps v = request_result-Keeps _ _

  pub set_engine_setting-Keeps :
      (k v : String) → Keeps (StateIs st) (request_set_engine_setting p k v)
  unfolding request_set_engine_setting
  set_engine_setting-Keeps k v = send_request-Keeps _ _ _ _ _ (result_or-Keeps _)

  read_engine-Keeps : (answer : List Arg) → Keeps (StateIs st) (read_engine p answer)
  unfolding read_engine
  read_engine-Keeps answer = search state_rules depth 30

  pub get_engine-Keeps : Keeps (StateIs st) (request_get_engine p)
  unfolding request_get_engine
  get_engine-Keeps = send_request-Keeps _ _ _ _ _ read_engine-Keeps

  read_default_voice-Keeps : (answer : List Arg) → Keeps (StateIs st) (read_default_voice p answer)
  unfolding read_default_voice
  read_default_voice-Keeps answer = search state_rules depth 30

  pub get_default_voice-Keeps : Keeps (StateIs st) (request_get_default_voice p)
  unfolding request_get_default_voice
  get_default_voice-Keeps = send_request-Keeps _ _ _ _ _ read_default_voice-Keeps

  read_speed-Keeps : (answer : List Arg) → Keeps (StateIs st) (read_speed p answer)
  unfolding read_speed
  read_speed-Keeps answer = Keeps-pure _

  pub get_default_speed-Keeps : Keeps (StateIs st) (request_get_default_speed p)
  unfolding request_get_default_speed
  get_default_speed-Keeps = send_request-Keeps _ _ _ _ _ read_speed-Keeps

  each_engine-Keeps :
      (n callback : ℕ) (args : List Arg) → Keeps (StateIs st) (each_engine p n callback args)
  unfolding each_engine
  each_engine-Keeps zero callback args = Keeps-pure _
  each_engine-Keeps (suc n) callback args = search (state_rules, each_engine-Keeps n) depth 30

  each_voice-Keeps :
      (n callback : ℕ) (id : String) (args : List Arg)
      → Keeps (StateIs st) (each_voice p n callback id args)
  unfolding each_voice
  each_voice-Keeps zero callback id args = Keeps-pure _
  each_voice-Keeps (suc n) callback id args = search (state_rules, each_voice-Keeps n) depth 30

  each_setting-Keeps :
      (n callback : ℕ) (id : String) (args : List Arg)
      → Keeps (StateIs st) (each_setting p n callback id args)
  unfolding each_setting
  each_setting-Keeps zero callback id args = Keeps-pure _
  each_setting-Keeps (suc n) callback id args = search (state_rules, each_setting-Keeps n) depth 30

  read_engines-Keeps :
      (callback : ℕ) (answer : List Arg) → Keeps (StateIs st) (read_engines p callback answer)
  unfolding read_engines after_result
  read_engines-Keeps callback answer = search (state_rules, each_engine-Keeps) depth 30

  read_voices-Keeps :
      (callback : ℕ) (answer : List Arg) → Keeps (StateIs st) (read_voices p callback answer)
  unfolding read_voices after_result
  read_voices-Keeps callback answer = search (state_rules, each_voice-Keeps) depth 30

  read_settings-Keeps :
      (callback : ℕ) (answer : List Arg) → Keeps (StateIs st) (read_settings p callback answer)
  unfolding read_settings after_result
  read_settings-Keeps callback answer = search (state_rules, each_setting-Keeps) depth 30

  pub get_engine_list-Keeps :
      (callback : ℕ) → Keeps (StateIs st) (request_get_engine_list p callback)
  unfolding request_get_engine_list request_list
  get_engine_list-Keeps callback = send_request-Keeps _ _ _ _ _ (read_engines-Keeps callback)

  pub get_voice_list-Keeps : (callback : ℕ) → Keeps (StateIs st) (request_get_voice_list p callback)
  unfolding request_get_voice_list request_list
  get_voice_list-Keeps callback = send_request-Keeps _ _ _ _ _ (read_voices-Keeps callback)

  pub get_engine_setting-Keeps :
      (callback : ℕ) → Keeps (StateIs st) (request_get_engine_setting p callback)
  unfolding request_get_engine_setting request_list
  get_engine_setting-Keeps callback = send_request-Keeps _ _ _ _ _ (read_settings-Keeps callback)
