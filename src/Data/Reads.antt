-- ===== src/Data/Reads.antt =====
-- The functions of server/ttsd_data.cpp that only read, in the terms of the lookup by uid.
use framework_uifw_voice_tts.Prelude.{
  ◌≡◌, inl, inr, Bool, true, false, Option, none, some, ℤ, pos, ltb_ℤ, length, arith, if◌then◌else◌,
}
use framework_uifw_voice_tts.Types.{AppData, Store, error_invalid_parameter}
use framework_uifw_voice_tts.Data.{
  get_pid, get_speak_data_size, get_sound_data_size, is_uttid_valid,
}
use framework_uifw_voice_tts.Data.Locate.{find, locate}

abbrev pub pid_read : Option AppData → ℤ
pid_read none = error_invalid_parameter
pid_read (some a) = a.pid

pub get_pid_lem : (uid : ℤ) (s : Store) → get_pid uid s ≡ pid_read (find uid s.app_list)
unfolding get_pid
get_pid_lem uid s = elim (locate uid s) [
  | inl (e, f) ↦ ground (arith, e, f)
  | inr (i, e, t) ↦ ground (arith, e, t.found)
]

abbrev pub speak_size_read : Option AppData → ℤ
speak_size_read none = error_invalid_parameter
speak_size_read (some a) = pos (length a.m_speak_data)

pub get_speak_data_size_lem :
    (uid : ℤ) (s : Store) → get_speak_data_size uid s ≡ speak_size_read (find uid s.app_list)
unfolding get_speak_data_size
get_speak_data_size_lem uid s = elim (locate uid s) [
  | inl (e, f) ↦ ground (arith, e, f)
  | inr (i, e, t) ↦ rw (e, get_speak_data_size, t.found)
]

abbrev pub sound_size_read : Option AppData → ℤ
sound_size_read none = error_invalid_parameter
sound_size_read (some a) = pos (length a.m_wav_data)

pub get_sound_data_size_lem :
    (uid : ℤ) (s : Store) → get_sound_data_size uid s ≡ sound_size_read (find uid s.app_list)
unfolding get_sound_data_size
get_sound_data_size_lem uid s = elim (locate uid s) [
  | inl (e, f) ↦ ground (arith, e, f)
  | inr (i, e, t) ↦ rw (e, get_sound_data_size, t.found)
]

abbrev pub uttid_read : ℤ → Option AppData → Bool
uttid_read uttid none = true
uttid_read uttid (some a) = if ltb_ℤ uttid a.utt_id_stopped then false else true

pub is_uttid_valid_lem :
    (uid uttid : ℤ) (s : Store)
    → is_uttid_valid uid uttid s ≡ uttid_read uttid (find uid s.app_list)
unfolding is_uttid_valid
is_uttid_valid_lem uid uttid s = elim (locate uid s) [
  | inl (e, f) ↦ ground (arith, e, f)
  | inr (i, e, t) ↦ rw (e, is_uttid_valid, t.found)
]
