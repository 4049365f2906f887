-- ===== src/Engine/Examples.antt =====
-- Two engines, and one with three voices, at concrete inputs.
use framework_uifw_voice_tts.Prelude.{
  ℕ, ◌≡◌, refl, ◌⊎◌, true, false, none, some, List, [], ◌∷◌, pos, is_nonzero,
}
use framework_uifw_voice_tts.Types.{raw, error_operation_failed}
use framework_uifw_voice_tts.Action.{pure, ◌>>=◌}
use framework_uifw_voice_tts.Platform.{Voice}
use framework_uifw_voice_tts.Sample.{reply, english}
use framework_uifw_voice_tts.Engine.{EngineInfo, EnginePlatform, Agent, beyond, get_agent}
use framework_uifw_voice_tts.Engine.Current.{find_engine}
use framework_uifw_voice_tts.Engine.Voices.{
  language_of, default_voice_of, find_voice, prefer_voice, choose_voice, choose_listed,
  select_valid_voice,
}
use framework_uifw_voice_tts.Engine.Voices.Choice.{
  Fits, select_valid_voice-Fits, select_valid_voice_mixed,
}
use framework_uifw_voice_tts.Engine.Settings.{setting_set_engine}
use framework_uifw_voice_tts.Engine.Settings.Rollback.{setting_set_engine-unknown}

abbrev korean : Voice
korean = record { language = "ko_KR"; voice_type = pos 2 }

abbrev german : Voice
german = record { language = "de_DE"; voice_type = pos 1 }

abbrev voices : List Voice
voices = english ∷ korean ∷ german ∷ []

abbrev plugin : EnginePlatform
plugin = record {
  World = ℕ;
  config_get_default_voice = reply none;
  config_get_default_speed = reply none;
  config_get_default_engine = reply none;
  config_set_default_voice = λ lang type. reply (pos 0);
  config_set_default_speed = λ speed. reply (pos 0);
  config_set_default_engine = λ id. reply (pos 0);
  read_directory = λ dir. reply [];
  dlopen = λ path. reply true;
  dlsym = λ symbol. reply true;
  dlclose = reply tt;
  get_engine_info = λ path. reply none;
  load_engine = reply (pos 0);
  unload_engine = reply tt;
  has_right_size = reply true;
  initialize = reply (some (pos 0));
  deinitialize = reply (some (pos 0));
  is_valid_voice = λ lang type. reply (some true);
  foreach_voices = reply (some (pos 0, voices));
  start_synth = λ voice text speed user. reply (some (pos 0));
  cancel_synth = reply (some (pos 0));
  get_audio_format = reply (some (pos 0, raw, pos 16000, pos 1));
  foreach_engine_setting = reply (some (pos 0, []));
  set_engine_setting = λ key value. reply (some (pos 0));
}

abbrev smart : EngineInfo
smart = record {
  engine_uuid = "27F277E9";
  engine_path = "/usr/lib/voice/tts/1.0/engine/smart";
  engine_name = "smart";
  setting_ug_path = "ug";
  use_network = false;
}

-- The Korean voice is the default one.
abbrev agent : Agent ℕ
agent = record {
  agent_init = true;
  engine_list = smart ∷ [];
  cur = record {
    info = some smart;
    is_set = true;
    is_loaded = true;
    need_network = false;
    default_lang = some "ko_KR";
    default_vctype = pos 2;
    default_speed = pos 3;
  };
  world = 0;
}

select_valid_voice-Fits_example :
    (((english.language, english.voice_type) ≡ default_voice_of agent.cur)
      ⊎ Fits "en" voices (english.language, english.voice_type))
    × (is_nonzero (pos 1) ≡ true
        → Fits "en" voices (english.language, english.voice_type) × (english.voice_type ≡ pos 1))
select_valid_voice-Fits_example =
    select_valid_voice-Fits plugin "en" (pos 1) voices agent (english.language, english.voice_type)
      refl refl
      (unfold select_valid_voice beyond get_agent choose_voice choose_listed find_voice pure
          ◌>>=◌ in
        refl)

-- A child's voice, which the Korean one is not: the type stays the Korean voice's, and the language is the
-- one of the last voice.
select_valid_voice_mixed_example :
    ((select_valid_voice plugin "default" (pos 3) agent).0 ≡ (true, some ("de_DE", pos 2)))
    × Fits (language_of agent.cur) voices (korean.language, korean.voice_type)
select_valid_voice_mixed_example =
    select_valid_voice_mixed plugin "default" (pos 3) (english ∷ korean ∷ []) german korean agent
      refl refl refl refl (unfold find_voice in refl) (unfold prefer_voice in refl)

setting_set_engine-unknown_example :
    let (code, e) = setting_set_engine plugin "other" agent in
    (code ≡ error_operation_failed) × (e.cur.info ≡ some smart) × (e.engine_list ≡ smart ∷ [])
setting_set_engine-unknown_example =
    setting_set_engine-unknown plugin "other" smart agent refl refl refl
      (unfold find_engine in refl)
