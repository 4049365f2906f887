-- ===== src/Data/Invariant/Preserved.antt =====
-- The well-formedness of the tables under each function of server/ttsd_data.cpp that writes.
use framework_uifw_voice_tts.Prelude.{
  refl, inl, inr, Option, none, some, List, [], ◌∷◌, arith, ℤ, eq_of_==ℤ,
}
use framework_uifw_voice_tts.Types.{AppState, AppData, SpeakData, SoundData, Store}
use framework_uifw_voice_tts.Data.{
  new_app, new_client, delete_client, add_speak_data, get_speak_data, add_sound_data,
  get_sound_data, clear_data, set_client_state, write_state, enqueue_speak, enqueue_sound,
  drop_speak, drop_sound,
}
use framework_uifw_voice_tts.Data.Locate.{
  update, remove, locate, with_apps, written, add_speak_data_lem, add_sound_data_lem,
  set_client_state_lem, get_speak_data_lem, get_sound_data_lem, state_written, speak_taken,
  sound_taken,
}
use framework_uifw_voice_tts.Data.Lookup.{KeepsUid}
use framework_uifw_voice_tts.Data.Clear.{
  cleared, clear_data_lem, cleared-KeepsUid, delete_client_lem, deleted,
}
use framework_uifw_voice_tts.Data.Setting.{
  setting_add, setting_delete, locate_setting, count_pid-append_end, count_pid-remove_le,
}
use framework_uifw_voice_tts.Data.Invariant.{
  IsValid, KeepsState, count_uid-update, count_playing-update, count_playing-write_state,
  any_playing_lem, count_uid-none, count_uid-append_end, count_playing-append_end,
  count_uid-remove_le, count_playing-remove_le,
}

-- An update that keeps the uid and the state of an entry.
pub update-IsValid :
    (u : ℤ) (f : AppData → AppData) (s : Store)
    → KeepsUid f
    → KeepsState f
    → IsValid s
    → IsValid (with_apps s (update u f s.app_list))
update-IsValid u f s ku ks v = record {
  uids = λ w. rw (count_uid-update w u f s.app_list ku) (v.uids w);
  playing = rw (count_playing-update u f s.app_list ks) v.playing;
  settings = v.settings;
}

written-IsValid :
    (u : ℤ) (f : AppData → AppData) (s : Store) (o : Option AppData)
    → KeepsUid f
    → KeepsState f
    → IsValid s
    → IsValid (written u f s o).1
written-IsValid u f s none ku ks v = v
written-IsValid u f s (some a) ku ks v = update-IsValid u f s ku ks v

pub new_client-IsValid : (pid uid : ℤ) (s : Store) → IsValid s → IsValid (new_client pid uid s).1
unfolding new_client
new_client-IsValid pid uid s v = elim (locate uid s) [
  | inl (e, f) ↦
      rw (e, new_client)
        record {
          uids = λ w. ground (
            arith,
            v.uids w,
            count_uid-append_end w s.app_list (new_app pid uid),
            count_uid-none uid s.app_list f,
            eq_of_==ℤ uid w,
          );
          playing =
              ground (arith, v.playing, count_playing-append_end s.app_list (new_app pid uid));
          settings = v.settings;
        }
  | inr (i, e, t) ↦ rw (e, new_client) v
]

pub add_speak_data-IsValid :
    (uid : ℤ) (d : SpeakData) (s : Store) → IsValid s → IsValid (add_speak_data uid d s).1
add_speak_data-IsValid uid d s v =
    rw (add_speak_data_lem uid d s)
      (written-IsValid uid (enqueue_speak d) s _ (λ a. ground arith) (λ a. ground arith) v)

pub add_sound_data-IsValid :
    (uid : ℤ) (d : SoundData) (s : Store) → IsValid s → IsValid (add_sound_data uid d s).1
add_sound_data-IsValid uid d s v =
    rw (add_sound_data_lem uid d s)
      (written-IsValid uid (enqueue_sound d) s _ (λ a. refl) (λ a. refl) v)

pub clear_data-IsValid : (uid : ℤ) (s : Store) → IsValid s → IsValid (clear_data uid s).1
clear_data-IsValid uid s v =
    rw (clear_data_lem uid s)
      (written-IsValid uid cleared s _ cleared-KeepsUid (λ a. ground arith) v)

state_written-IsValid :
    (uid : ℤ) (state : AppState) (s : Store) (o : Option AppData)
    → IsValid s
    → IsValid (state_written uid state s o).1
state_written-IsValid uid state s none v = v
state_written-IsValid uid state s (some a) v = record {
  uids = λ w.
      ground (arith, v.uids w, count_uid-update w uid (write_state state) s.app_list (λ a. refl));
  playing = ground (
    arith,
    v.playing,
    any_playing_lem s.app_list,
    count_playing-write_state uid state s.app_list,
  );
  settings = λ p. ground (arith, v.settings p);
}

pub set_client_state-IsValid :
    (uid : ℤ) (state : AppState) (s : Store) → IsValid s → IsValid (set_client_state uid state s).1
set_client_state-IsValid uid state s v =
    rw (set_client_state_lem uid state s) (state_written-IsValid uid state s _ v)

pub setting_add-IsValid : (pid : ℤ) (s : Store) → IsValid s → IsValid (setting_add pid s).1
unfolding setting_add
setting_add-IsValid pid s v = elim (locate_setting pid s) [
  | inl (e, f) ↦
      rw (e, setting_add)
        record {
          uids = v.uids;
          playing = v.playing;
          settings = λ q.
              ground (
                arith,
                v.settings q,
                f,
                count_pid-append_end q pid s.setting_list,
                eq_of_==ℤ pid q,
              );
        }
  | inr (i, e, r, c) ↦ rw (e, setting_add) v
]

pub setting_delete-IsValid : (pid : ℤ) (s : Store) → IsValid s → IsValid (setting_delete pid s).1
unfolding setting_delete
setting_delete-IsValid pid s v = elim (locate_setting pid s) [
  | inl (e, f) ↦ rw (e, setting_delete) v
  | inr (i, e, r, c) ↦
      rw (e, setting_delete)
        record {
          uids = v.uids;
          playing = v.playing;
          settings =
              λ q. rw r (omega (arith, v.settings q, count_pid-remove_le q pid s.setting_list));
        }
]

remove-IsValid : (u : ℤ) (s : Store) → IsValid s → IsValid (with_apps s (remove u s.app_list))
remove-IsValid u s v = record {
  uids = λ w. omega (arith, v.uids w, count_uid-remove_le w u s.app_list);
  playing = omega (arith, v.playing, count_playing-remove_le u s.app_list);
  settings = v.settings;
}

deleted-IsValid :
    (uid : ℤ) (s : Store) (o : Option AppData) → IsValid s → IsValid (deleted uid s o).1
deleted-IsValid uid s none v = v
deleted-IsValid uid s (some a) v = remove-IsValid uid s v

pub delete_client-IsValid : (uid : ℤ) (s : Store) → IsValid s → IsValid (delete_client uid s).1
delete_client-IsValid uid s v = rw (delete_client_lem uid s) (deleted-IsValid uid s _ v)

speak_taken-IsValid :
    (uid : ℤ) (out : SpeakData) (s : Store) (o : Option AppData)
    → IsValid s
    → IsValid (speak_taken uid out s o).2
speak_taken-IsValid uid out s none v = v
speak_taken-IsValid uid out s (some a) v =
    taken a.m_speak_data (update-IsValid uid drop_speak s (λ a. refl) (λ a. refl) v)
  where
    taken :
        (q : List SpeakData)
        → IsValid (with_apps s (update uid drop_speak s.app_list))
        → IsValid (speak_taken uid out s (some (record a { m_speak_data = q }))).2
    taken [] w = v
    taken (d ∷ q) w = w

pub get_speak_data-IsValid :
    (uid : ℤ) (out : SpeakData) (s : Store) → IsValid s → IsValid (get_speak_data uid out s).2
get_speak_data-IsValid uid out s v =
    rw (get_speak_data_lem uid out s) (speak_taken-IsValid uid out s _ v)

sound_taken-IsValid :
    (uid : ℤ) (out : SoundData) (s : Store) (o : Option AppData)
    → IsValid s
    → IsValid (sound_taken uid out s o).2
sound_taken-IsValid uid out s none v = v
sound_taken-IsValid uid out s (some a) v =
    taken a.m_wav_data (update-IsValid uid drop_sound s (λ a. refl) (λ a. refl) v)
  where
    taken :
        (q : List SoundData)
        → IsValid (with_apps s (update uid drop_sound s.app_list))
        → IsValid (sound_taken uid out s (some (record a { m_wav_data = q }))).2
    taken [] w = v
    taken (d ∷ q) w = w

pub get_sound_data-IsValid :
    (uid : ℤ) (out : SoundData) (s : Store) → IsValid s → IsValid (get_sound_data uid out s).2
get_sound_data-IsValid uid out s v =
    rw (get_sound_data_lem uid out s) (sound_taken-IsValid uid out s _ v)
