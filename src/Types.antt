-- ===== src/Types.antt =====
-- The enumerations and error codes that the daemon's parts share: server/ttsp.h, server/ttsd_main.h
-- and server/ttsd_data.h. A value that a caller may cast to from any `int` (a voice type, a speed)
-- stays an integer.
use Prim.Native.String.{String}
use framework_uifw_voice_tts.Prelude.{ℕ, Bool, true, false, List, [], ℤ, pos, negsuc}

-- ttsp_result_event_e
pub data ResultEvent : Type 0 where
  event_fail event_start event_continue event_finish event_cancel : ResultEvent

-- ttsp_audio_type_e; `unknown` is any other value that an engine hands over.
pub data AudioType : Type 0 where
  raw wav mp3 amr : AudioType
  unknown : ℤ → AudioType

-- app_state_e
pub data AppState : Type 0 where
  state_created state_ready state_playing state_paused : AppState

-- The number that a state has on the bus.
abbrev pub state_code : AppState → ℤ
state_code state_created = pos 0
state_code state_ready = pos 1
state_code state_playing = pos 2
state_code state_paused = pos 3

-- ttsd_error_e: the negated errno values and the daemon's own codes.
abbrev pub error_none : ℤ
error_none = pos 0

abbrev pub error_out_of_memory : ℤ
error_out_of_memory = negsuc 11

abbrev pub error_invalid_parameter : ℤ
error_invalid_parameter = negsuc 21

abbrev pub error_out_of_network : ℤ
error_out_of_network = negsuc 99

abbrev pub error_invalid_state : ℤ
error_invalid_state = negsuc 0x100020

abbrev pub error_invalid_voice : ℤ
error_invalid_voice = negsuc 0x100021

abbrev pub error_engine_not_found : ℤ
error_engine_not_found = negsuc 0x100022

abbrev pub error_operation_failed : ℤ
error_operation_failed = negsuc 0x100024

-- The bare `-1` that many functions return.
abbrev pub minus_one : ℤ
minus_one = negsuc 0

pub record SpeakData : Type 0 where
  pub utt_id : ℤ
  pub text : String
  pub lang : String
  pub vctype : ℤ
  pub speed : ℤ

pub record SoundData : Type 0 where
  pub utt_id : ℤ
  pub bytes : List ℕ
  pub data_size : ℕ
  pub event : ResultEvent
  pub audio_type : AudioType
  pub rate : ℤ
  pub channels : ℤ

pub record AppData : Type 0 where
  pub pid : ℤ
  pub uid : ℤ
  pub utt_id_stopped : ℤ
  pub state : AppState
  pub m_speak_data : List SpeakData
  pub m_wav_data : List SoundData

-- setting_app_data_s has a pid and nothing else.
pub record Store : Type 0 where
  pub app_list : List AppData
  pub setting_list : List ℤ

abbrev pub is_playing : AppState → Bool
is_playing state_playing = true
is_playing _ = false

-- What an index outside the table would read; no function below reads there.
abbrev pub no_app : AppData
no_app = record {
  pid = pos 0;
  uid = pos 0;
  utt_id_stopped = pos 0;
  state = state_created;
  m_speak_data = [];
  m_wav_data = [];
}

-- The uninitialised local that the loops of ttsd_data_clear_data hand to the getters.
abbrev pub no_speak : SpeakData
no_speak = record { utt_id = pos 0; text = ""; lang = ""; vctype = pos 0; speed = pos 0 }

abbrev pub no_sound : SoundData
no_sound = record {
  utt_id = pos 0;
  bytes = [];
  data_size = 0;
  event = event_finish;
  audio_type = raw;
  rate = pos 0;
  channels = pos 0;
}
