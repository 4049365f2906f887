-- ===== src/SettingClient/Examples.antt =====
-- A setting client and a daemon that answers every request, at concrete inputs.
use framework_uifw_voice_tts.Prelude.{ℕ, true, false, some, List, [], ◌∷◌, pos}
use framework_uifw_voice_tts.Sample.{reply}
use framework_uifw_voice_tts.Wire.{arg_int}
use framework_uifw_voice_tts.SettingClient.{setting_state_none, SettingPlatform, SettingLibrary}
use framework_uifw_voice_tts.SettingClient.Calls
use framework_uifw_voice_tts.SettingClient.Lifetime.{
  SettingCall, initialize_call, finalize_call, request_call, set_speed_request, speed_request,
  Trace, setting_run, setting_run-Trace,
}

abbrev bus : SettingPlatform
bus = record {
  World = ℕ;
  pid = 70;
  bus_get_private = reply true;
  request_name = reply true;
  release_name = reply tt;
  connection_close = reply tt;
  new_method_call = λ method. reply true;
  append_args = λ args. reply args;
  send_with_reply = λ method args. reply (some (arg_int (pos 0) ∷ []));
  strdup = λ s. reply (some s);
  check_daemon = reply (pos 0);
  sleep = reply tt;
  initialized_callback = λ callback state reason. reply tt;
  engine_callback = λ callback id name path. reply true;
  voice_callback = λ callback id lang type. reply true;
  setting_callback = λ callback id key value. reply true;
}

abbrev fresh : SettingLibrary ℕ
fresh = record {
  is_daemon_started = false;
  state = setting_state_none;
  initialized_cb = 0;
  reason = pos 0;
  conn = false;
  timers = [];
  world = 0;
}

abbrev session : List SettingCall
session =
    request_call (set_speed_request (pos 3))
    ∷ initialize_call
    ∷ request_call (set_speed_request (pos 3))
    ∷ request_call (speed_request false)
    ∷ finalize_call
    ∷ []

setting_run-Trace_example :
    let (codes, e) = setting_run bus session fresh in
    Trace (Calls.is_ready fresh.state) codes (Calls.is_ready e.state)
setting_run-Trace_example = setting_run-Trace bus session fresh
