-- ===== src/Sample.antt =====
-- A concrete platform for examples, on which the sound library, the bus and the engine always succeed
-- and `World` counts the calls; and a state of the daemon on it: a client that plays and has two texts
-- waiting, and a second one that is ready.
use framework_uifw_voice_tts.Prelude.{ℕ, suc, true, false, some, [], ◌∷◌, ℤ, pos, arith}
use framework_uifw_voice_tts.Types.{raw, state_playing, SpeakData, AppData, Store, no_speak}
use framework_uifw_voice_tts.Data.{new_app}
use framework_uifw_voice_tts.Data.Invariant.{IsValid}
use framework_uifw_voice_tts.Daemon.{Daemon}
use framework_uifw_voice_tts.Player.{new_item}
use framework_uifw_voice_tts.Platform.{
  mm_null, MmPlayer, Files, answered, Bus, EngineAgent, Platform, Voice, Engine, EngineSetting,
  EngineSettings,
}

abbrev pub reply : {A : Type 0} → A → ℕ → A × ℕ
reply a n = (a, suc n)

abbrev pub sample_mm : MmPlayer ℕ
sample_mm = record {
  create = reply (true, 5);
  get_state = λ h. reply mm_null;
  unrealize = λ h. reply true;
  destroy = λ h. reply true;
  pause = λ h. reply true;
  resume = λ h. reply true;
  realize = λ h. reply true;
  start = λ h. reply true;
  set_message_callback = λ h u. reply true;
  set_attribute = λ h name. reply true;
}

abbrev pub sample_files : Files ℕ
sample_files = record {
  fopen = λ name. reply true;
  fwrite_header = λ h. reply true;
  fwrite_data = λ bytes size. reply true;
  access = λ name. reply true;
  remove = λ name. reply tt;
}

abbrev pub sample_bus : Bus ℕ
sample_bus = record {
  new_method_call = λ pid m. reply true;
  send_with_reply = λ m args. reply (answered (pos 0));
  send = λ m args. reply tt;
  send_reply = λ args. reply tt;
}

abbrev pub sample_agent : EngineAgent ℕ
sample_agent = record {
  agent_init = reply (pos 0);
  initialize_current_engine = reply (pos 0);
  load_current_engine = reply (pos 0);
  unload_current_engine = reply (pos 0);
  need_network = reply false;
  is_connected = reply true;
  select_valid_voice = λ lang voice. reply true;
  start_synthesis = λ lang voice text speed u. reply (pos 0);
  cancel_synthesis = reply (pos 0);
  get_audio_format = reply (pos 0, raw, pos 16000, pos 1);
  is_same_engine = λ id. reply false;
  set_engine = λ id. reply (pos 0);
}

abbrev pub english : Voice
english = record { language = "en_US"; voice_type = pos 1 }

abbrev sample_engine : Engine
sample_engine = record { engine_id = "engine"; engine_name = "Engine"; ug_name = "ug" }

abbrev sample_pitch : EngineSetting
sample_pitch = record { key = "pitch"; value = "2" }

abbrev pub sample_settings : EngineSettings ℕ
sample_settings = record {
  get_voice_list = reply (pos 0, english ∷ []);
  get_default_voice = reply (pos 0, english);
  setting_get_engine_list = reply (pos 0, sample_engine ∷ []);
  setting_get_engine = reply (pos 0, "engine");
  setting_get_voice_list = reply (pos 0, "engine", english ∷ []);
  setting_get_default_voice = reply (pos 0, english);
  setting_set_default_voice = λ lang voice. reply (pos 0);
  setting_get_default_speed = reply (pos 0, pos 3);
  setting_set_default_speed = λ speed. reply (pos 0);
  setting_get_engine_setting_info = reply (pos 0, "engine", sample_pitch ∷ []);
  setting_set_engine_setting = λ key value. reply (pos 0);
}

abbrev pub sample : Platform
sample = record {
  World = ℕ;
  mm = sample_mm;
  files = sample_files;
  bus = sample_bus;
  agent = sample_agent;
  settings = sample_settings;
  config_initialize = reply (pos 0);
  g_malloc0 = reply true;
}

abbrev pub say : ℤ → SpeakData
say n = record no_speak { utt_id = n }

abbrev pub reader : AppData
reader = record {
  pid = pos 41;
  uid = pos 7;
  utt_id_stopped = pos 0;
  state = state_playing;
  m_speak_data = say (pos 1) ∷ say (pos 2) ∷ [];
  m_wav_data = [];
}

abbrev pub waiter : AppData
waiter = new_app (pos 42) (pos 8)

abbrev pub two_clients : Store
two_clients = record { app_list = reader ∷ waiter ∷ []; setting_list = pos 50 ∷ [] }

-- The daemon with both clients, each with its player; the engine works for the one that plays.
abbrev pub scene : Daemon ℕ
scene = record {
  store = two_clients;
  player = record {
    player_init = true;
    player_list = new_item (pos 7) 5 ∷ new_item (pos 8) 6 ∷ [];
    playing_info = some (pos 7);
    index = 1;
  };
  is_engine = true;
  is_synthesizing = true;
  is_next_synthesis = false;
  timer_set = false;
  timers = [];
  world = 0;
}

pub two_clients-IsValid : IsValid two_clients
two_clients-IsValid = record {
  uids = λ u. ground (arith);
  playing = omega arith;
  settings = λ p. ground arith;
}
