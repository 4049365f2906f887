-- ===== src/Data/Clear.antt =====
-- ttsd_data_clear_data of server/ttsd_data.cpp in the terms of the lookup by uid.
use mathlib.Core.Option
use mathlib.Core.Path.{fun_ext}
use framework_uifw_voice_tts.Prelude.{
  ℕ, zero, suc, ◌<◌, ◌≡◌, refl, ◌∙◌, inl, inr, Option, none, some, List, [], ◌∷◌, arith, ℤ, pos,
  length, ap, erase_at, modify_at,
}
use framework_uifw_voice_tts.Types.{
  SpeakData, SoundData, AppData, Store, no_speak, no_sound, error_none, minus_one,
}
use framework_uifw_voice_tts.Data.{
  drain_speak, drain_sound, clear_data, drop_speak, drop_sound, note_stopped, delete_client, app_at,
  is_client, write_app,
}
use framework_uifw_voice_tts.Data.Locate.{
  locate, IsAt-update, find, update, remove, with_apps, written, get_speak_data_lem,
  get_sound_data_lem,
}
use framework_uifw_voice_tts.Data.Lookup.{
  KeepsUid, find-update_self, update-update, update_same, update_congr, remove-update,
}

abbrev pub no_texts : AppData → AppData
no_texts a = record a { m_speak_data = [] }

abbrev pub no_sounds : AppData → AppData
no_sounds a = record a { m_wav_data = [] }

-- The id of the last text of a queue, or what was kept before it.
abbrev pub last_id : ℤ → List SpeakData → ℤ
last_id last [] = last
last_id last (d ∷ q) = last_id d.utt_id q

drain_speak_lem :
    (fuel : ℕ) (uid last : ℤ) (s : Store) (a : AppData) (q : List SpeakData)
    → find uid s.app_list ≡ some a
    → a.m_speak_data ≡ q
    → length q < fuel
    → drain_speak fuel uid last s ≡ (last_id last q, with_apps s (update uid no_texts s.app_list))
unfolding drain_speak
drain_speak_lem zero uid last s a q h e lt = elim lt [ ]
drain_speak_lem (suc fuel) uid last s a [] h e lt =
    rw (get_speak_data_lem uid no_speak s, h)
      (rw e (rw (update_same uid no_texts s.app_list a h (ground (arith, e)))))
drain_speak_lem (suc fuel) uid last s a (d ∷ q) h e lt =
    rw (get_speak_data_lem uid no_speak s, h)
      (rw e (
        drain_speak_lem fuel uid d.utt_id s' (drop_speak a) q
          (find-update_self uid drop_speak s.app_list (λ a. refl) ∙ ap (Option.map drop_speak) h)
          (ap (erase_at 0) e) (omega arith)
        ∙ rw (update-update uid no_texts drop_speak s.app_list (λ a. refl))))
  where
    s' : Store
    s' = with_apps s (update uid drop_speak s.app_list)

drain_sound_lem :
    (fuel : ℕ) (uid : ℤ) (s : Store) (a : AppData) (q : List SoundData)
    → find uid s.app_list ≡ some a
    → a.m_wav_data ≡ q
    → length q < fuel
    → drain_sound fuel uid s ≡ with_apps s (update uid no_sounds s.app_list)
unfolding drain_sound
drain_sound_lem zero uid s a q h e lt = elim lt [ ]
drain_sound_lem (suc fuel) uid s a [] h e lt =
    rw (get_sound_data_lem uid no_sound s, h)
      (rw e (rw (update_same uid no_sounds s.app_list a h (ground (arith, e)))))
drain_sound_lem (suc fuel) uid s a (d ∷ q) h e lt =
    rw (get_sound_data_lem uid no_sound s, h)
      (rw e (
        drain_sound_lem fuel uid s' (drop_sound a) q
          (find-update_self uid drop_sound s.app_list (λ a. refl) ∙ ap (Option.map drop_sound) h)
          (ap (erase_at 0) e) (omega arith)
        ∙ rw (update-update uid no_sounds drop_sound s.app_list (λ a. refl))))
  where
    s' : Store
    s' = with_apps s (update uid drop_sound s.app_list)

-- What ttsd_data_clear_data makes of an entry: both queues empty, and the id of the last text kept as
-- the id up to which utterances are stopped, unless that id is -1 or there was no text.
abbrev pub cleared : AppData → AppData
cleared a = no_sounds (note_stopped (last_id minus_one a.m_speak_data) (no_texts a))

-- What the first loop and the noted id make of an entry, and the two loops together.
abbrev stopped : ℤ → AppData → AppData
stopped last a = note_stopped last (no_texts a)

abbrev emptied : AppData → AppData
emptied a = record a { m_speak_data = []; m_wav_data = [] }

stopped-KeepsUid : (last : ℤ) → KeepsUid (stopped last)
stopped-KeepsUid last a = ground arith

abbrev drained : ℤ → AppData → AppData
drained last a = no_sounds (stopped last a)

drained-KeepsUid : (last : ℤ) → KeepsUid (drained last)
drained-KeepsUid last a = ground arith

-- The last two calls of `clear` find both queues empty.
emptied_again :
    (last : ℤ) → ◌≡◌ {A = AppData → AppData} (λ a. emptied (drained last a)) (drained last)
emptied_again last = fun_ext λ a. ground arith

module _ (uid : ℤ) (i : ℕ) (last : ℤ) (s : Store) (at : is_client uid s ≡ pos i) where
  abbrev stopped_apps : List AppData
  stopped_apps = update uid (stopped last) s.app_list

  -- What the first loop leaves, with the id noted.
  noted_lem : modify_at i (note_stopped last) (update uid no_texts s.app_list) ≡ stopped_apps
  noted_lem =
      (IsAt-update uid i no_texts s (λ a. refl) at).modified (note_stopped last)
      ∙ update-update uid (note_stopped last) no_texts s.app_list (λ a. refl)

  -- The second loop, and the two queues cleared once more.
  emptied_lem :
      let s₂ = with_apps s stopped_apps in
      write_app i emptied (drain_sound (suc (length (app_at i s₂).m_wav_data)) uid s₂)
      ≡ with_apps s (update uid (drained last) s.app_list)
  emptied_lem =
      let t = IsAt-update uid i (stopped last) s (stopped-KeepsUid last) at in
      let s₂ = with_apps s stopped_apps in
      rw
        (drain_sound_lem (suc (length (app_at i s₂).m_wav_data)) uid s₂ (app_at i s₂) _ t.found refl
          (omega arith))
        (rw (update-update uid no_sounds (stopped last) s.app_list (stopped-KeepsUid last)) (
          ap (with_apps s) (
            (IsAt-update uid i (drained last) s (drained-KeepsUid last) at).modified emptied
            ∙ update-update uid emptied (drained last) s.app_list (drained-KeepsUid last)
            ∙ ap (λ f. update uid f s.app_list) (emptied_again last))))

pub cleared-KeepsUid : KeepsUid cleared
cleared-KeepsUid a = ground arith

pub clear_data_lem :
    (uid : ℤ) (s : Store) → clear_data uid s ≡ written uid cleared s (find uid s.app_list)
unfolding clear_data
clear_data_lem uid s = elim (locate uid s) [
  | inl (e, f) ↦ ground (arith, e, f)
  | inr (i, e, t) ↦
      rw (e, clear_data, t.found)
        (rw
          (drain_speak_lem (suc (length (app_at i s).m_speak_data)) uid minus_one s (app_at i s) _
            t.found refl (omega arith))
          (rw (noted_lem uid i (last_id minus_one (app_at i s).m_speak_data) s e) (
            rw (emptied_lem uid i (last_id minus_one (app_at i s).m_speak_data) s e) (
              ap (λ l. (error_none, with_apps s l))
                (update_congr uid _ cleared s.app_list (app_at i s) t.found refl)))))
]

-- ttsd_data_delete_client in the terms of the lookup.
abbrev pub deleted : ℤ → Store → Option AppData → ℤ × Store
deleted uid s none = (minus_one, s)
deleted uid s (some a) = (error_none, with_apps s (remove uid s.app_list))

pub delete_client_lem :
    (uid : ℤ) (s : Store) → delete_client uid s ≡ deleted uid s (find uid s.app_list)
unfolding delete_client
delete_client_lem uid s = elim (locate uid s) [
  | inl (e, f) ↦ ground (arith, e, f)
  | inr (i, e, t) ↦
      rw (e, delete_client, t.found)
        (rw (clear_data_lem uid s, t.found)
          (ap (λ l. (error_none, with_apps s l))
            ((IsAt-update uid i cleared s cleared-KeepsUid e).erased
              ∙ remove-update uid cleared s.app_list cleared-KeepsUid)))
]
