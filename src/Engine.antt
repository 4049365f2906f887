-- ===== src/Engine.antt =====
-- server/ttsd_engine_agent.c: the engines that are installed, and the one that is loaded.
pub mod Current
pub mod Voices
pub mod Synthesis
pub mod Settings
mod Examples
use Prim.Native.Char.{code}
use Prim.Native.String.{String}
use framework_uifw_voice_tts.Prelude.{
  ℕ, Bool, true, false, ◌&&◌, not, Option, none, some, List, [], ◌∷◌, ◌++◌, ℤ, pos, ◌==ℤ◌, ◌==◌,
  is_nonzero, if◌then◌else◌,
}
use framework_uifw_voice_tts.Types.{AudioType}
use framework_uifw_voice_tts.Action.{Action, pure, ◌>>=◌, ◌>>◌, case_option}
use framework_uifw_voice_tts.Platform.{Voice, EngineSetting}

-- `0 == strncmp(text, prefix, strlen(prefix))`
abbrev pub has_prefix : String → String → Bool
has_prefix text String.[] = true
has_prefix String.[] (String.◌∷◌ c prefix) = false
has_prefix (String.◌∷◌ d text) (String.◌∷◌ c prefix) = code d == code c && has_prefix text prefix

-- ttsengine_info_s
pub record EngineInfo : Type 0 where
  pub engine_uuid : String
  pub engine_path : String
  pub engine_name : String
  pub setting_ug_path : String
  pub use_network : Bool

-- ttsengine_s, without the functions of the engine; its uuid, name and path are set at once, to those of
-- an entry of the list.
pub record CurrentEngine : Type 0 where
  pub info : Option EngineInfo
  pub is_set : Bool
  pub is_loaded : Bool
  pub need_network : Bool
  pub default_lang : Option String
  pub default_vctype : ℤ
  pub default_speed : ℤ

-- ENGINE_DIRECTORY_DEFAULT and ENGINE_DIRECTORY_DOWNLOAD.
pub data Directory : Type 0 where
  default_directory download_directory : Directory

-- The functions that the agent looks for in an engine.
pub data Symbol : Type 0 where
  load_symbol unload_symbol info_symbol : Symbol

-- What the agent calls and this repository does not implement here: the configuration, the directories, the
-- dynamic linker, and the engine with its functions, where `none` is a function that the engine does not
-- have. A Boolean answer is success.
pub record EnginePlatform : Type 1 where
  pub World : Type 0
  pub config_get_default_voice : World → Option (String × ℤ) × World
  pub config_get_default_speed : World → Option ℤ × World
  pub config_get_default_engine : World → Option String × World
  pub config_set_default_voice : String → ℤ → World → ℤ × World
  pub config_set_default_speed : ℤ → World → ℤ × World
  pub config_set_default_engine : String → World → ℤ × World
  pub read_directory : Directory → World → List String × World
  pub dlopen : String → World → Bool × World
  pub dlsym : Symbol → World → Bool × World
  pub dlclose : World → Unit {0} × World
  pub get_engine_info : String → World → Option EngineInfo × World
  pub load_engine : World → ℤ × World
  pub unload_engine : World → Unit {0} × World
  pub has_right_size : World → Bool × World
  pub initialize : World → Option ℤ × World
  pub deinitialize : World → Option ℤ × World
  pub is_valid_voice : String → ℤ → World → Option Bool × World
  pub foreach_voices : World → Option (ℤ × List Voice) × World
  pub start_synth : Option (String × ℤ) → String → ℤ → ℤ × ℤ → World → Option ℤ × World
  pub cancel_synth : World → Option ℤ × World
  pub get_audio_format : World → Option (ℤ × AudioType × ℤ × ℤ) × World
  pub foreach_engine_setting : World → Option (ℤ × List EngineSetting) × World
  pub set_engine_setting : String → String → World → Option ℤ × World

-- The globals: `g_agent_init`, `g_engine_list` and `g_cur_engine`.
pub record Agent (World : Type 0) : Type 0 where
  pub agent_init : Bool
  pub engine_list : List EngineInfo
  pub cur : CurrentEngine
  pub world : World

module _ {World : Type 0} where
  unfoldable pub beyond : {A : Type 0} → (World → A × World) → Action (Agent World) A
  beyond f d = ((f d.world).0, record d { world = (f d.world).1 })

  unfoldable pub get_agent : Action (Agent World) (Agent World)
  get_agent d = (d, d)

  unfoldable pub set_engine_list : List EngineInfo → Action (Agent World) (Unit {0})
  set_engine_list l d = (tt, record d { engine_list = l })

  unfoldable pub set_init : Bool → Action (Agent World) (Unit {0})
  set_init b d = (tt, record d { agent_init = b })

  unfoldable pub on_current : (CurrentEngine → CurrentEngine) → Action (Agent World) (Unit {0})
  on_current f d = (tt, record d { cur = f d.cur })

  -- The checks with which most functions begin: the agent is initialised, and an engine is loaded.
  abbrev pub when_loaded :
      {A : Type 0} → A → (Agent World → Action (Agent World) A) → Action (Agent World) A
  when_loaded refused f = do
    d ← get_agent
    if not d.agent_init then pure refused else if not d.cur.is_loaded then pure refused else f d
