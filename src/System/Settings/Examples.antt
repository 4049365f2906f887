-- ===== src/System/Settings/Examples.antt =====
-- A setting application that counts what it is told, and the daemon, at concrete inputs.
use framework_uifw_voice_tts.Prelude.{
  ℕ, suc, ◌≡◌, refl, true, false, some, [], pos, is_nonzero, if◌then◌else◌,
}
use framework_uifw_voice_tts.Sample.{sample, scene}
use framework_uifw_voice_tts.Daemon.{Daemon}
use framework_uifw_voice_tts.Server.Queries.{
  setting_get_engine_list, setting_get_voice_list, setting_get_engine_setting,
  setting_set_default_voice, setting_set_engine_setting, setting_set_default_speed,
}
use framework_uifw_voice_tts.SettingClient.{setting_state_ready, SettingLibrary}
use framework_uifw_voice_tts.SettingClient.Calls
use framework_uifw_voice_tts.System.Settings.{
  SettingApplication, setting_linked, setting_answered, setting_calls-delivered,
}
use framework_uifw_voice_tts.System.Settings.Lists.{
  give_engines, give_voices, give_settings, setting_engines-delivered, setting_voices-delivered,
  engine_settings-delivered,
}

abbrev counter : SettingApplication
counter = record {
  State = ℕ;
  pid = 50;
  on_initialized = λ f state reason s. s;
  on_engine = λ f id name path s. (true, suc s);
  on_voice = λ f id lang type s. (true, suc s);
  on_setting = λ f id key value s. (false, suc s);
}

abbrev ready : SettingLibrary (Daemon ℕ × ℕ)
ready = record {
  is_daemon_started = true;
  state = setting_state_ready;
  initialized_cb = 0;
  reason = pos 0;
  conn = true;
  timers = [];
  world = (scene, 0);
}

setting_calls-delivered_example :
    (Calls.set_default_voice (setting_linked sample counter) (some "en_US") (pos 2) ready
      ≡ setting_answered sample counter
          (setting_set_default_voice sample (pos 50) "en_US" (pos 2))
          ready)
    × (Calls.set_default_speed (setting_linked sample counter) (pos 3) ready
        ≡ setting_answered sample counter (setting_set_default_speed sample (pos 50) (pos 3)) ready)
    × (Calls.set_engine_setting (setting_linked sample counter) (some "pitch") (some "2") ready
        ≡ setting_answered sample counter
            (setting_set_engine_setting sample (pos 50) "pitch" "2")
            ready)
setting_calls-delivered_example =
    setting_calls-delivered sample counter "en_US" "pitch" "2" (pos 2) (pos 3) ready refl refl refl

setting_engines-delivered_example :
    let (ret, engines) = (setting_get_engine_list sample (pos 50) scene).0 in
    let (result, e) =
      Calls.foreach_supported_engines (setting_linked sample counter) (some 3) ready in
    (result ≡ some ret)
    × (e.world.1 ≡ (if is_nonzero ret then 0 else give_engines counter 3 engines 0))
setting_engines-delivered_example = setting_engines-delivered sample counter 3 ready refl

setting_voices-delivered_example :
    let (ret, id, voices) = (setting_get_voice_list sample (pos 50) scene).0 in
    let (result, e) =
      Calls.foreach_supported_voices (setting_linked sample counter) (some 3) ready in
    (result ≡ some ret)
    × (e.world.1 ≡ (if is_nonzero ret then 0 else give_voices counter 3 id voices 0))
setting_voices-delivered_example = setting_voices-delivered sample counter 3 ready refl

engine_settings-delivered_example :
    let (ret, id, settings) = (setting_get_engine_setting sample (pos 50) scene).0 in
    let (result, e) =
      Calls.foreach_engine_settings (setting_linked sample counter) (some 3) ready in
    (result ≡ some ret)
    × (e.world.1 ≡ (if is_nonzero ret then 0 else give_settings counter 3 id settings 0))
engine_settings-delivered_example = engine_settings-delivered sample counter 3 ready refl
