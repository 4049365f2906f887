-- ===== src/Platform.antt =====
-- What the daemon calls and this repository does not implement: libmm-player, the D-Bus library, the
-- file system; and, behind the interface of server/ttsd_engine_agent.h, the engine agent. `World` is
-- their state. Every call may change it, and answers as it likes.
use Prim.Native.String.{String}
use framework_uifw_voice_tts.Prelude.{ℕ, Bool, List, ℤ}
use framework_uifw_voice_tts.Wire.{Arg}
use framework_uifw_voice_tts.Types.{ResultEvent, AudioType}

-- MMPlayerStateType
pub data MmState : Type 0 where
  mm_null mm_ready mm_playing mm_paused mm_none : MmState

-- user_data_s of server/ttsd_player.cpp: what a message of the player refers to.
pub record UserData : Type 0 where
  pub uid : ℤ
  pub utt_id : ℤ
  pub event : ResultEvent
  pub filename : List ℕ

-- WavHeader of server/ttsd_player.cpp, its four character tags as bytes.
pub record WavHeader : Type 0 where
  pub riff : List ℕ
  pub file_size : ℕ
  pub wave : List ℕ
  pub fmt : List ℕ
  pub header_size : ℕ
  pub sample_format : ℕ
  pub n_channels : ℕ
  pub sample_rate : ℕ
  pub bytes_per_second : ℕ
  pub block_align : ℕ
  pub bits_per_sample : ℕ
  pub data_tag : List ℕ
  pub data_size : ℕ

-- mm_player.h, for a handle. A Boolean answer says whether the call returned MM_ERROR_NONE.
pub record MmPlayer (World : Type 0) : Type 0 where
  pub create : World → (Bool × ℕ) × World
  pub get_state : ℕ → World → MmState × World
  pub unrealize : ℕ → World → Bool × World
  pub destroy : ℕ → World → Bool × World
  pub pause : ℕ → World → Bool × World
  pub resume : ℕ → World → Bool × World
  pub realize : ℕ → World → Bool × World
  pub start : ℕ → World → Bool × World
  pub set_message_callback : ℕ → UserData → World → Bool × World
  pub set_attribute : ℕ → List ℕ → World → Bool × World

-- fopen, fwrite, access and remove on a path; `true` is success.
pub record Files (World : Type 0) : Type 0 where
  pub fopen : List ℕ → World → Bool × World
  pub fwrite_header : WavHeader → World → Bool × World
  pub fwrite_data : List ℕ → ℕ → World → Bool × World
  pub access : List ℕ → World → Bool × World
  pub remove : List ℕ → World → Unit {0} × World

-- What a blocking call on the bus comes back with.
pub data Reply : Type 0 where
  no_reply malformed : Reply
  answered : ℤ → Reply

-- The methods that the daemon calls on a client (common/tts_defs.h).
pub data Method : Type 0 where
  method_hello method_utterance_started method_utterance_completed method_error method_set_state :
      Method

-- dbus.h: `new_method_call` says whether a message could be made; `send_reply` makes the answer to a
-- request and sends it, if it can.
pub record Bus (World : Type 0) : Type 0 where
  pub new_method_call : ℤ → Method → World → Bool × World
  pub send_with_reply : Method → List ℤ → World → Reply × World
  pub send : Method → List ℤ → World → Unit {0} × World
  pub send_reply : List Arg → World → Unit {0} × World

-- voice_s, engine_s and engine_setting_s of server/ttsd_main.h.
pub record Voice : Type 0 where
  pub language : String
  pub voice_type : ℤ

pub record Engine : Type 0 where
  pub engine_id : String
  pub engine_name : String
  pub ug_name : String

pub record EngineSetting : Type 0 where
  pub key : String
  pub value : String

-- The functions of server/ttsd_engine_agent.h behind the requests that only pass them on. A result is
-- written to the caller's variables beside the code.
pub record EngineSettings (World : Type 0) : Type 0 where
  pub get_voice_list : World → (ℤ × List Voice) × World
  pub get_default_voice : World → (ℤ × Voice) × World
  pub setting_get_engine_list : World → (ℤ × List Engine) × World
  pub setting_get_engine : World → (ℤ × String) × World
  pub setting_get_voice_list : World → (ℤ × String × List Voice) × World
  pub setting_get_default_voice : World → (ℤ × Voice) × World
  pub setting_set_default_voice : String → ℤ → World → ℤ × World
  pub setting_get_default_speed : World → (ℤ × ℤ) × World
  pub setting_set_default_speed : ℤ → World → ℤ × World
  pub setting_get_engine_setting_info : World → (ℤ × String × List EngineSetting) × World
  pub setting_set_engine_setting : String → String → World → ℤ × World

-- server/ttsd_engine_agent.h and server/ttsd_network.h: result codes, 0 for success.
pub record EngineAgent (World : Type 0) : Type 0 where
  pub agent_init : World → ℤ × World
  pub initialize_current_engine : World → ℤ × World
  pub load_current_engine : World → ℤ × World
  pub unload_current_engine : World → ℤ × World
  pub need_network : World → Bool × World
  pub is_connected : World → Bool × World
  pub select_valid_voice : String → ℤ → World → Bool × World
  pub start_synthesis : String → ℤ → String → ℤ → ℤ × ℤ → World → ℤ × World
  pub cancel_synthesis : World → ℤ × World
  pub get_audio_format : World → (ℤ × AudioType × ℤ × ℤ) × World
  pub is_same_engine : String → World → Bool × World
  pub set_engine : String → World → ℤ × World

pub record Platform : Type 1 where
  pub World : Type 0
  pub mm : MmPlayer World
  pub files : Files World
  pub bus : Bus World
  pub agent : EngineAgent World
  pub settings : EngineSettings World
  -- ttsd_config_initialize
  pub config_initialize : World → ℤ × World
  -- Whether g_malloc0 had the memory for an utterance record.
  pub g_malloc0 : World → Bool × World
