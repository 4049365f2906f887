-- ===== src/Data.antt =====
-- server/ttsd_data.cpp, server/ttsd_data.h: the daemon's table of clients, each with its queue of texts
-- and its queue of sounds, and the list of setting clients. The globals `g_app_list` and
-- `g_setting_list` are the store that every function takes and returns. An out parameter is an argument
-- and a result: a call that fails hands it back as it was.
use framework_uifw_voice_tts.Prelude.{
  ℕ, zero, suc, ◌+◌, Bool, true, false, Option, none, some, List, [], ◌∷◌, ◌++◌, ℤ, pos, negsuc,
  ◌==ℤ◌, ltb_ℤ, is_nonzero, ◌==◌, length, get_elem?, get_or, modify_at, erase_at, if◌then◌else◌,
  not,
}
use framework_uifw_voice_tts.Types.{
  AppState, state_ready, SpeakData, SoundData, AppData, Store, is_playing, no_app, no_speak,
  no_sound, error_none, error_invalid_parameter, minus_one,
}
pub mod Locate
pub mod Lookup
pub mod Reads
pub mod Clear
pub mod Setting
pub mod Invariant
pub mod Playing
pub mod Queues
pub mod Clients
pub mod Foreach
pub mod Calls
mod Examples

-- The loop of ttsd_data_is_client from index `i` on.
unfoldable pub client_index_from : ℕ → ℤ → List AppData → ℤ
client_index_from i uid [] = minus_one
client_index_from i uid (a ∷ l) = if a.uid ==ℤ uid then pos i else client_index_from (suc i) uid l

unfoldable pub is_client : ℤ → Store → ℤ
is_client uid s = client_index_from 0 uid s.app_list

abbrev pub app_at : ℕ → Store → AppData
app_at i s = get_or s.app_list i no_app

abbrev pub write_app : ℕ → (AppData → AppData) → Store → Store
write_app i f s = record s { app_list = modify_at i f s.app_list }

abbrev pub new_app : ℤ → ℤ → AppData
new_app pid uid = record {
  pid = pid;
  uid = uid;
  utt_id_stopped = pos 0;
  state = state_ready;
  m_speak_data = [];
  m_wav_data = [];
}

unfoldable pub new_client : ℤ → ℤ → Store → ℤ × Store
new_client pid uid s =
    if not (is_client uid s ==ℤ minus_one)
    then (error_invalid_parameter, s)
    else (error_none, record s { app_list = s.app_list ++ new_app pid uid ∷ [] })

unfoldable pub get_client_count : Store → ℕ
get_client_count s = length s.app_list + length s.setting_list

-- A uid that is not registered gives the error code where a pid is expected.
unfoldable pub get_pid : ℤ → Store → ℤ
get_pid uid s = elim (is_client uid s) [
  | negsuc _ ↦ error_invalid_parameter
  | pos i ↦ (app_at i s).pid
]

unfoldable pub get_speak_data_size : ℤ → Store → ℤ
get_speak_data_size uid s = elim (is_client uid s) [
  | negsuc _ ↦ error_invalid_parameter
  | pos i ↦ pos (length (app_at i s).m_speak_data)
]

-- `push` on the queue of texts; utterance 1 opens a new count, so nothing is stopped any more.
abbrev pub enqueue_speak : SpeakData → AppData → AppData
enqueue_speak data_in a =
    let queued = record a { m_speak_data = a.m_speak_data ++ data_in ∷ [] } in
    if data_in.utt_id ==ℤ pos 1 then record queued { utt_id_stopped = pos 0 } else queued

unfoldable pub add_speak_data : ℤ → SpeakData → Store → ℤ × Store
add_speak_data uid data_in s = elim (is_client uid s) [
  | negsuc _ ↦ (error_invalid_parameter, s)
  | pos i ↦ (error_none, write_app i (enqueue_speak data_in) s)
]

abbrev pub drop_speak : AppData → AppData
drop_speak a = record a { m_speak_data = erase_at 0 a.m_speak_data }

abbrev pub take_speak : ℕ → List SpeakData → SpeakData → Store → ℤ × SpeakData × Store
take_speak i [] out s = (minus_one, out, s)
take_speak i (d ∷ ds) out s = (error_none, d, write_app i drop_speak s)

unfoldable pub get_speak_data : ℤ → SpeakData → Store → ℤ × SpeakData × Store
get_speak_data uid out s = elim (is_client uid s) [
  | negsuc _ ↦ (error_invalid_parameter, out, s)
  | pos i ↦ take_speak i (app_at i s).m_speak_data out s
]

abbrev pub enqueue_sound : SoundData → AppData → AppData
enqueue_sound data_in a = record a { m_wav_data = a.m_wav_data ++ data_in ∷ [] }

unfoldable pub add_sound_data : ℤ → SoundData → Store → ℤ × Store
add_sound_data uid data_in s = elim (is_client uid s) [
  | negsuc _ ↦ (error_invalid_parameter, s)
  | pos i ↦ (error_none, write_app i (enqueue_sound data_in) s)
]

abbrev pub drop_sound : AppData → AppData
drop_sound a = record a { m_wav_data = erase_at 0 a.m_wav_data }

abbrev pub take_sound : ℕ → List SoundData → SoundData → Store → ℤ × SoundData × Store
take_sound i [] out s = (minus_one, out, s)
take_sound i (d ∷ ds) out s = (error_none, d, write_app i drop_sound s)

unfoldable pub get_sound_data : ℤ → SoundData → Store → ℤ × SoundData × Store
get_sound_data uid out s = elim (is_client uid s) [
  | negsuc _ ↦ (error_invalid_parameter, out, s)
  | pos i ↦ take_sound i (app_at i s).m_wav_data out s
]

unfoldable pub get_sound_data_size : ℤ → Store → ℤ
get_sound_data_size uid s = elim (is_client uid s) [
  | negsuc _ ↦ error_invalid_parameter
  | pos i ↦ pos (length (app_at i s).m_wav_data)
]

-- The first loop of ttsd_data_clear_data: takes texts until there is none, and keeps the last id.
unfoldable pub drain_speak : ℕ → ℤ → ℤ → Store → ℤ × Store
drain_speak zero uid last s = (last, s)
drain_speak (suc fuel) uid last s =
    let (code, taken, s') = get_speak_data uid no_speak s in
    let rest = drain_speak fuel uid taken.utt_id s' in if is_nonzero code then (last, s') else rest

-- The second loop.
unfoldable pub drain_sound : ℕ → ℤ → Store → Store
drain_sound zero uid s = s
drain_sound (suc fuel) uid s =
    let (code, taken, s') = get_sound_data uid no_sound s in
    let rest = drain_sound fuel uid s' in if is_nonzero code then s' else rest

abbrev pub note_stopped : ℤ → AppData → AppData
note_stopped last a = if not (last ==ℤ minus_one) then record a { utt_id_stopped = last } else a

-- Each loop runs at most once more than its queue is long, which is the fuel here.
unfoldable pub clear_data : ℤ → Store → ℤ × Store
clear_data uid s = elim (is_client uid s) [
  | negsuc _ ↦ (error_invalid_parameter, s)
  | pos i ↦
      let (last, s₁) = drain_speak (suc (length (app_at i s).m_speak_data)) uid minus_one s in
      let s₂ = write_app i (note_stopped last) s₁ in
      let s₃ = drain_sound (suc (length (app_at i s₂).m_wav_data)) uid s₂ in
      (error_none, write_app i (λ a. record a { m_speak_data = []; m_wav_data = [] }) s₃)
]

unfoldable pub delete_client : ℤ → Store → ℤ × Store
delete_client uid s = elim (is_client uid s) [
  | negsuc _ ↦ (minus_one, s)
  | pos i ↦
      let (code, s') = clear_data uid s in
      if is_nonzero code
      then (minus_one, s')
      else (error_none, record s' { app_list = erase_at i s'.app_list })
]

unfoldable pub get_client_state : ℤ → AppState → Store → ℤ × AppState
get_client_state uid out s = elim (is_client uid s) [
  | negsuc _ ↦ (error_invalid_parameter, out)
  | pos i ↦ (error_none, (app_at i s).state)
]

-- The search for a playing client that the functions below make.
unfoldable pub any_playing : List AppData → Bool
any_playing [] = false
any_playing (a ∷ l) = if is_playing a.state then true else any_playing l

abbrev pub write_state : AppState → AppData → AppData
write_state state a = record a { state = state }

-- Only one client plays: the state `playing` is refused while any client has it.
unfoldable pub set_client_state : ℤ → AppState → Store → ℤ × Store
set_client_state uid state s = elim (is_client uid s) [
  | negsuc _ ↦ (error_invalid_parameter, s)
  | pos i ↦
      if (if is_playing state then any_playing s.app_list else false)
      then (minus_one, s)
      else (error_none, write_app i (write_state state) s)
]

unfoldable pub playing_from : List AppData → ℤ
playing_from [] = minus_one
playing_from (a ∷ l) = if is_playing a.state then a.uid else playing_from l

unfoldable pub get_current_playing : Store → ℤ
get_current_playing s = playing_from s.app_list

unfoldable pub is_current_playing : Store → ℤ
is_current_playing s = playing_from s.app_list

-- The error code of an unregistered uid is returned as a `bool`, which makes it `true`.
unfoldable pub is_uttid_valid : ℤ → ℤ → Store → Bool
is_uttid_valid uid uttid s = elim (is_client uid s) [
  | negsuc _ ↦ is_nonzero error_invalid_parameter
  | pos i ↦ if ltb_ℤ uttid (app_at i s).utt_id_stopped then false else true
]
