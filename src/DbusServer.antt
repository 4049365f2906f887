-- ===== src/DbusServer.antt =====
-- server/ttsd_dbus.c: a message that comes to the daemon is handed to the function of its method.
pub mod Reply
pub mod Requests
pub mod SettingRequests
use framework_uifw_voice_tts.Prelude.{Option, none, some, List}
use framework_uifw_voice_tts.Wire.{
  ServerMethod, hello_method, initialize_method, finalize_method, get_support_voices_method,
  get_current_voice_method, add_queue_method, play_method, stop_method, pause_method,
  setting_hello_method, setting_initialize_method, setting_finalize_method, get_engine_list_method,
  get_engine_method, set_engine_method, get_voice_list_method, get_default_voice_method,
  set_default_voice_method, get_default_speed_method, set_default_speed_method,
  get_engine_setting_method, set_engine_setting_method, Arg,
}
use framework_uifw_voice_tts.Platform.{Platform}
use framework_uifw_voice_tts.Daemon.{Daemon}
use framework_uifw_voice_tts.DbusServer.Requests
use framework_uifw_voice_tts.DbusServer.SettingRequests

module _ (p : Platform) where
  open p use {World}

  -- The branches of listener_event_callback, with the answer that is sent; `none` if a loop over the clients
  -- reads outside their table.
  unfoldable pub serve : ServerMethod → List Arg → Daemon World → Option (List Arg × Daemon World)
  serve hello_method args d = some (Requests.hello p d)
  serve initialize_method args d = some (Requests.initialize p args d)
  serve finalize_method args d = some (Requests.finalize p args d)
  serve get_support_voices_method args d = some (Requests.support_voices p args d)
  serve get_current_voice_method args d = some (Requests.current_voice p args d)
  serve add_queue_method args d = some (Requests.add_text p args d)
  serve play_method args d = some (Requests.play p args d)
  serve stop_method args d = some (Requests.stop p args d)
  serve pause_method args d = some (Requests.pause p args d)
  serve setting_hello_method args d = some (Requests.hello p d)
  serve setting_initialize_method args d = some (SettingRequests.setting_initialize p args d)
  serve setting_finalize_method args d = some (SettingRequests.setting_finalize p args d)
  serve get_engine_list_method args d = some (SettingRequests.get_engine_list p args d)
  serve get_engine_method args d = some (SettingRequests.get_engine p args d)
  serve set_engine_method args d = SettingRequests.set_engine p args d
  serve get_voice_list_method args d = some (SettingRequests.get_voice_list p args d)
  serve get_default_voice_method args d = some (SettingRequests.get_default_voice p args d)
  serve set_default_voice_method args d = some (SettingRequests.set_default_voice p args d)
  serve get_default_speed_method args d = some (SettingRequests.get_speed p args d)
  serve set_default_speed_method args d = some (SettingRequests.set_speed p args d)
  serve get_engine_setting_method args d = some (SettingRequests.get_engine_setting p args d)
  serve set_engine_setting_method args d = some (SettingRequests.set_engine_setting p args d)
