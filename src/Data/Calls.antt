-- ===== src/Data/Calls.antt =====
-- Any history of calls of the writing functions of server/ttsd_data.cpp, from the empty tables.
use framework_uifw_voice_tts.Prelude.{List, [], ◌∷◌, ℤ, arith}
use framework_uifw_voice_tts.Types.{AppState, SpeakData, SoundData, Store}
use framework_uifw_voice_tts.Data.{
  new_client, delete_client, add_speak_data, get_speak_data, add_sound_data, get_sound_data,
  clear_data, set_client_state,
}
use framework_uifw_voice_tts.Data.Setting.{setting_add, setting_delete}
use framework_uifw_voice_tts.Data.Invariant.{IsValid}
use framework_uifw_voice_tts.Data.Invariant.Preserved.{
  new_client-IsValid, delete_client-IsValid, add_speak_data-IsValid, get_speak_data-IsValid,
  add_sound_data-IsValid, get_sound_data-IsValid, clear_data-IsValid, set_client_state-IsValid,
  setting_add-IsValid, setting_delete-IsValid,
}

pub data Call : Type 0 where
  calls_new_client : ℤ → ℤ → Call
  calls_delete_client : ℤ → Call
  calls_add_speak_data : ℤ → SpeakData → Call
  calls_get_speak_data : ℤ → SpeakData → Call
  calls_add_sound_data : ℤ → SoundData → Call
  calls_get_sound_data : ℤ → SoundData → Call
  calls_clear_data : ℤ → Call
  calls_set_client_state : ℤ → AppState → Call
  calls_setting_add : ℤ → Call
  calls_setting_delete : ℤ → Call

-- The tables that a call leaves.
unfoldable pub step : Call → Store → Store
step (calls_new_client pid uid) s = (new_client pid uid s).1
step (calls_delete_client uid) s = (delete_client uid s).1
step (calls_add_speak_data uid d) s = (add_speak_data uid d s).1
step (calls_get_speak_data uid out) s = (get_speak_data uid out s).2
step (calls_add_sound_data uid d) s = (add_sound_data uid d s).1
step (calls_get_sound_data uid out) s = (get_sound_data uid out s).2
step (calls_clear_data uid) s = (clear_data uid s).1
step (calls_set_client_state uid state) s = (set_client_state uid state s).1
step (calls_setting_add pid) s = (setting_add pid s).1
step (calls_setting_delete pid) s = (setting_delete pid s).1

unfoldable pub run : List Call → Store → Store
run [] s = s
run (c ∷ cs) s = run cs (step c s)

abbrev pub empty_store : Store
empty_store = record { app_list = []; setting_list = [] }

pub step-IsValid : (c : Call) (s : Store) → IsValid s → IsValid (step c s)
unfolding step
step-IsValid (calls_new_client pid uid) s v = new_client-IsValid pid uid s v
step-IsValid (calls_delete_client uid) s v = delete_client-IsValid uid s v
step-IsValid (calls_add_speak_data uid d) s v = add_speak_data-IsValid uid d s v
step-IsValid (calls_get_speak_data uid out) s v = get_speak_data-IsValid uid out s v
step-IsValid (calls_add_sound_data uid d) s v = add_sound_data-IsValid uid d s v
step-IsValid (calls_get_sound_data uid out) s v = get_sound_data-IsValid uid out s v
step-IsValid (calls_clear_data uid) s v = clear_data-IsValid uid s v
step-IsValid (calls_set_client_state uid state) s v = set_client_state-IsValid uid state s v
step-IsValid (calls_setting_add pid) s v = setting_add-IsValid pid s v
step-IsValid (calls_setting_delete pid) s v = setting_delete-IsValid pid s v

run-IsValid : (cs : List Call) (s : Store) → IsValid s → IsValid (run cs s)
unfolding run
run-IsValid [] s v = v
run-IsValid (c ∷ cs) s v = run-IsValid cs (step c s) (step-IsValid c s v)

empty_store-IsValid : IsValid empty_store
empty_store-IsValid = record {
  uids = λ u. omega arith;
  playing = omega arith;
  settings = λ p. omega arith;
}

-- After any calls at all, from the empty tables on: no uid and no setting pid is registered twice, and
-- at most one client is playing.
pub run_empty-IsValid : (cs : List Call) → IsValid (run cs empty_store)
run_empty-IsValid cs = run-IsValid cs empty_store empty_store-IsValid
