-- ===== src/System/Settings.antt =====
-- The library of setting clients (client/tts_setting.c) and the daemon together, on a bus that delivers.
pub mod Lists
mod Examples
use Prim.Native.String.{String}
use framework_uifw_voice_tts.Prelude.{
  ℕ, ◌≡◌, refl, sym, ap, ◌∙◌, Bool, true, false, inl, inr, Option, none, some, List, [], ◌∷◌, ℤ,
  pos, is_nonzero, Bool-cases, if◌then◌else◌, length,
}
use framework_uifw_voice_tts.Types.{error_operation_failed}
use framework_uifw_voice_tts.Wire.{ServerMethod, Arg, arg_int, arg_string}
use framework_uifw_voice_tts.Action.{Action, case_option, pure, ◌>>=◌}
use framework_uifw_voice_tts.Platform.{Platform, Engine, Voice, EngineSetting}
use framework_uifw_voice_tts.Daemon.{Daemon}
use framework_uifw_voice_tts.Server.Setting
use framework_uifw_voice_tts.Server.Queries.{
  setting_get_engine_list, setting_get_voice_list, setting_get_engine_setting,
  setting_set_default_voice, setting_set_engine_setting, setting_set_default_speed,
}
use framework_uifw_voice_tts.DbusServer.{serve}
use framework_uifw_voice_tts.DbusServer.SettingRequests
use framework_uifw_voice_tts.DbusServer.Reply.{
  engine_args, voice_args, setting_args, respond, run_request, answer_request,
}
use framework_uifw_voice_tts.System.Delivered.{zero_of_result}
use framework_uifw_voice_tts.SettingClient.{
  SettingState, setting_state_ready, SettingPlatform, SettingLibrary, beyond, get_library,
}
use framework_uifw_voice_tts.SettingClient.Requests
use framework_uifw_voice_tts.SettingClient.Calls

-- What a setting application brings along: its process id, and its callbacks, on a state of its own.
pub record SettingApplication : Type 1 where
  pub State : Type 0
  pub pid : ℕ
  pub on_initialized : ℕ → SettingState → ℤ → State → State
  pub on_engine : ℕ → String → String → String → State → Bool × State
  pub on_voice : ℕ → String → String → ℤ → State → Bool × State
  pub on_setting : ℕ → String → String → String → State → Bool × State

module _ (p : Platform) (q : SettingApplication) where
  abbrev Both : Type 0
  Both = Daemon p.World × q.State

  -- A call that always succeeds and changes nothing.
  abbrev fine : {A : Type 0} → A → Both → A × Both
  fine a w = (a, w)

  abbrev told : (q.State → Bool × q.State) → Both → Bool × Both
  told f w = let (more, s) = f w.1 in (more, (w.0, s))

  abbrev deliver : ServerMethod → List Arg → Both → Option (List Arg) × Both
  deliver method args w = elim (serve p method args w.0) [
    | none ↦ (none, w)
    | some r ↦ (some r.0, (r.1, w.1))
  ]

  -- The library's surroundings, with the daemon in them.
  abbrev pub setting_linked : SettingPlatform
  setting_linked = record {
    World = Both;
    pid = q.pid;
    bus_get_private = fine true;
    request_name = fine true;
    release_name = fine tt;
    connection_close = fine tt;
    new_method_call = λ m. fine true;
    append_args = λ args. fine args;
    send_with_reply = deliver;
    strdup = λ s. fine (some s);
    check_daemon = fine (pos 0);
    sleep = fine tt;
    initialized_callback = λ f state reason w. (tt, (w.0, q.on_initialized f state reason w.1));
    engine_callback = λ f id name path. told (q.on_engine f id name path);
    voice_callback = λ f id lang type. told (q.on_voice f id lang type);
    setting_callback = λ f id key value. told (q.on_setting f id key value);
  }

  -- The library and the daemon when the daemon has run a request and sent its result.
  abbrev pub setting_answered :
      Action (Daemon p.World) ℤ → SettingLibrary Both → ℤ × SettingLibrary Both
  setting_answered run d =
      let (ret, e) = run d.world.0 in
      (ret, record d { world = ((respond p (arg_int ret ∷ []) e).1, d.world.1) })

  -- Of an initialised library, on a bus that delivers: tts_setting_set_default_voice with a type from MALE
  -- to USER3, tts_setting_set_default_speed with a speed from VERY_SLOW to VERY_FAST, and
  -- tts_setting_set_engine_setting each run the daemon's function once, as the setting client that has the
  -- process id of the application, on the same values, and bring back its result unchanged.
  pub setting_calls-delivered :
      (lang key value : String) (voice speed : ℤ) (d : SettingLibrary Both)
      → d.state ≡ setting_state_ready
      → Calls.is_voice_type voice ≡ true
      → Calls.is_speed speed ≡ true
      → (Calls.set_default_voice setting_linked (some lang) voice d
          ≡ setting_answered (setting_set_default_voice p (pos q.pid) lang voice) d)
        × (Calls.set_default_speed setting_linked speed d
            ≡ setting_answered (setting_set_default_speed p (pos q.pid) speed) d)
        × (Calls.set_engine_setting setting_linked (some key) (some value) d
            ≡ setting_answered (setting_set_engine_setting p (pos q.pid) key value) d)
  unfolding Calls.set_default_voice Calls.set_default_speed Calls.set_engine_setting
      Calls.when_ready Requests.request_set_default_voice Requests.request_set_default_speed
      Requests.request_set_engine_setting Requests.request_result Requests.send_request
      Requests.result_or get_library beyond pure ◌>>=◌ serve SettingRequests.set_default_voice
      SettingRequests.set_speed SettingRequests.set_engine_setting answer_request run_request
      respond
  setting_calls-delivered lang key value voice speed d ready type_known speed_known =
      let up = ap Calls.is_ready ready in
      (rw up (rw type_known refl), rw up (rw speed_known refl), rw up refl)
