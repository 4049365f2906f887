-- ===== src/Data/Invariant.antt =====
-- Well-formed tables of server/ttsd_data.cpp.
pub mod Preserved
use framework_uifw_voice_tts.Prelude.{
  ℕ, zero, suc, ◌+◌, ◌≤◌, ◌≡◌, refl, ap, ◌∙◌, ◌⊎◌, inl, inr, Bool, true, false, not, Option, none,
  some, List, [], ◌∷◌, ◌++◌, arith, ℤ, pos, negsuc, ◌==ℤ◌, ==ℤ_refl, eq_of_==ℤ, if◌then◌else◌,
  Bool-cases,
}
use framework_uifw_voice_tts.Types.{
  AppState, AppData, SpeakData, SoundData, Store, state_playing, is_playing, error_none,
  error_invalid_parameter, minus_one,
}
use framework_uifw_voice_tts.Data.{
  is_client, new_client, delete_client, add_speak_data, get_speak_data, add_sound_data,
  get_sound_data, clear_data, set_client_state, any_playing, write_state, enqueue_speak,
  enqueue_sound, drop_speak, drop_sound,
}
use framework_uifw_voice_tts.Data.Locate.{
  find, update, remove, locate, with_apps, written, add_speak_data_lem, add_sound_data_lem,
  set_client_state_lem, get_speak_data_lem, get_sound_data_lem, IsAt-update,
}
use framework_uifw_voice_tts.Data.Lookup.{KeepsUid}
use framework_uifw_voice_tts.Data.Clear.{cleared, clear_data_lem}
use framework_uifw_voice_tts.Data.Setting.{
  count_pid, setting_add, setting_delete, locate_setting, count_pid-append_end, count_pid-remove_le,
}

abbrev pub count_uid : ℤ → List AppData → ℕ
count_uid u [] = 0
count_uid u (a ∷ l) = if a.uid ==ℤ u then suc (count_uid u l) else count_uid u l

abbrev pub count_playing : List AppData → ℕ
count_playing [] = 0
count_playing (a ∷ l) = if is_playing a.state then suc (count_playing l) else count_playing l

pub record IsValid (s : Store) : Type 0 where
  pub uids : (u : ℤ) → count_uid u s.app_list ≤ 1
  pub playing : count_playing s.app_list ≤ 1
  pub settings : (p : ℤ) → count_pid p s.setting_list ≤ 1

pub count_uid-update :
    (v u : ℤ) (f : AppData → AppData) (l : List AppData)
    → KeepsUid f
    → count_uid v (update u f l) ≡ count_uid v l
count_uid-update v u f [] k = refl
count_uid-update v u f (a ∷ l) k = elim (Bool-cases (a.uid ==ℤ u)) [
  | inl hit ↦ rw hit (rw (k a))
  | inr miss ↦ rw miss (rw (count_uid-update v u f l k))
]

abbrev pub KeepsState : (AppData → AppData) → Type 0
KeepsState f = (a : AppData) → (f a).state ≡ a.state

pub count_playing-update :
    (u : ℤ) (f : AppData → AppData) (l : List AppData)
    → KeepsState f
    → count_playing (update u f l) ≡ count_playing l
count_playing-update u f [] k = refl
count_playing-update u f (a ∷ l) k = elim (Bool-cases (a.uid ==ℤ u)) [
  | inl hit ↦ rw hit (rw (k a))
  | inr miss ↦ rw miss (rw (count_playing-update u f l k))
]

-- A change of state makes one client more play at most, and none more if the state is another.
pub count_playing-write_state :
    (u : ℤ) (state : AppState) (l : List AppData)
    → count_playing (update u (write_state state) l)
      ≤ count_playing l + (if is_playing state then 1 else 0)
count_playing-write_state u state [] = omega arith
count_playing-write_state u state (a ∷ l) = ground (arith, count_playing-write_state u state l)

pub any_playing_lem : (l : List AppData) → any_playing l ≡ false → count_playing l ≡ 0
unfolding any_playing
any_playing_lem [] h = refl
any_playing_lem (a ∷ l) h = ground (arith, any_playing_lem l)

pub count_uid-none : (u : ℤ) (l : List AppData) → find u l ≡ none → count_uid u l ≡ 0
count_uid-none u [] h = refl
count_uid-none u (a ∷ l) h = ground (arith, count_uid-none u l)

pub count_uid-append_end :
    (u : ℤ) (l : List AppData) (a : AppData)
    → count_uid u (l ++ a ∷ []) ≡ count_uid u l + (if a.uid ==ℤ u then 1 else 0)
count_uid-append_end u [] a = ground arith
count_uid-append_end u (x ∷ l) a = ground (arith, count_uid-append_end u l a)

pub count_playing-append_end :
    (l : List AppData) (a : AppData)
    → count_playing (l ++ a ∷ []) ≡ count_playing l + (if is_playing a.state then 1 else 0)
count_playing-append_end [] a = ground arith
count_playing-append_end (x ∷ l) a = ground (arith, count_playing-append_end l a)

pub count_uid-remove_le : (v u : ℤ) (l : List AppData) → count_uid v (remove u l) ≤ count_uid v l
count_uid-remove_le v u [] = omega arith
count_uid-remove_le v u (a ∷ l) = ground (arith, count_uid-remove_le v u l)

pub count_playing-remove_le :
    (u : ℤ) (l : List AppData) → count_playing (remove u l) ≤ count_playing l
count_playing-remove_le u [] = omega arith
count_playing-remove_le u (a ∷ l) = ground (arith, count_playing-remove_le u l)

-- After a removal no entry with the uid is left, if there was one at most.
pub find-remove_self : (u : ℤ) (l : List AppData) → count_uid u l ≤ 1 → find u (remove u l) ≡ none
find-remove_self u [] h = refl
find-remove_self u (a ∷ l) h = elim (Bool-cases (a.uid ==ℤ u)) [
  | inl hit ↦ rw hit (find_none_of_count u l (ground (arith, hit)))
  | inr miss ↦ rw miss (rw miss (find-remove_self u l (ground (arith, miss))))
]
  where
    find_none_of_count : (u : ℤ) (l : List AppData) → count_uid u l ≡ 0 → find u l ≡ none
    find_none_of_count u [] h = refl
    find_none_of_count u (a ∷ l) h = ground (arith, find_none_of_count u l)
