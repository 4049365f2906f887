-- ===== src/Data/Queues.antt =====
-- The queues of texts and sounds of server/ttsd_data.cpp, one of each for a registered uid, and the ids
-- of utterances that are still valid.
use framework_uifw_voice_tts.Prelude.{
  ℕ, zero, suc, ◌≡◌, refl, ap, ◌∙◌, true, false, not, none, some, List, [], ◌∷◌, ◌++◌, arith, ℤ,
  pos, ◌==ℤ◌, ltb_ℤ, if◌then◌else◌, length, sym, erase_at,
}
use mathlib.Core.List.{append-nil, append_assoc}
use framework_uifw_voice_tts.Types.{AppData, SpeakData, Store, no_speak, error_none, minus_one}
use framework_uifw_voice_tts.Data.{
  add_speak_data, get_speak_data, get_speak_data_size, get_sound_data_size, clear_data,
  is_uttid_valid, enqueue_speak, drop_speak,
}
use framework_uifw_voice_tts.Data.Locate.{
  find, update, with_apps, add_speak_data_lem, get_speak_data_lem,
}
use framework_uifw_voice_tts.Data.Reads.{
  get_speak_data_size_lem, get_sound_data_size_lem, is_uttid_valid_lem,
}
use framework_uifw_voice_tts.Data.Lookup.{find-update_self, find-update_ne}
use framework_uifw_voice_tts.Data.Clear.{cleared, clear_data_lem, cleared-KeepsUid, last_id}

-- Every other uid has the entry that it had.
abbrev pub SameOthers : ℤ → Store → Store → Type 0
SameOthers uid s s' = (v : ℤ) → (uid ==ℤ v) ≡ false → find v s'.app_list ≡ find v s.app_list

-- A text for a registered uid goes to the end of its queue, and utterance 1 takes back what was
-- stopped; the other uids and the setting clients are as before.
pub add_speak_data_queues :
    (uid : ℤ) (d : SpeakData) (s : Store) (a : AppData)
    → find uid s.app_list ≡ some a
    → let (code, s') = add_speak_data uid d s in
      (code ≡ error_none)
      × (find uid s'.app_list
          ≡ some (record a {
            m_speak_data = a.m_speak_data ++ d ∷ [];
            utt_id_stopped = if d.utt_id ==ℤ pos 1 then pos 0 else a.utt_id_stopped;
          }))
      × SameOthers uid s s'
      × (s'.setting_list ≡ s.setting_list)
add_speak_data_queues uid d s a h =
    rw (add_speak_data_lem uid d s, h)
      (
        refl,
        rw (find-update_self uid (enqueue_speak d) s.app_list (λ a. ground arith), h)
            (ground arith),
        λ v ne. find-update_ne uid v (enqueue_speak d) s.app_list (λ a. ground arith) ne,
        refl,
      )

-- The oldest text of a registered uid is handed over and leaves the queue.
pub get_speak_data_takes :
    (uid : ℤ) (out d : SpeakData) (q : List SpeakData) (s : Store) (a : AppData)
    → find uid s.app_list ≡ some a
    → a.m_speak_data ≡ d ∷ q
    → let (code, taken, s') = get_speak_data uid out s in
      (code ≡ error_none)
      × (taken ≡ d)
      × (find uid s'.app_list ≡ some (record a { m_speak_data = q }))
      × SameOthers uid s s'
get_speak_data_takes uid out d q s a h e =
    rw (get_speak_data_lem uid out s, h)
      (rw e (
        refl,
        refl,
        rw (find-update_self uid drop_speak s.app_list (λ a. refl), h)
            (ap (λ r. some (record a { m_speak_data = erase_at 0 r })) e),
        λ v ne. find-update_ne uid v drop_speak s.app_list (λ a. refl) ne,
      ))

pub get_speak_data_empty :
    (uid : ℤ) (out : SpeakData) (s : Store) (a : AppData)
    → find uid s.app_list ≡ some a
    → a.m_speak_data ≡ []
    → get_speak_data uid out s ≡ (minus_one, out, s)
get_speak_data_empty uid out s a h e = rw (get_speak_data_lem uid out s, h) (rw e)

-- A client's texts added one after the other, and texts taken one after the other.
unfoldable pub add_each : ℤ → List SpeakData → Store → Store
add_each uid [] s = s
add_each uid (d ∷ ds) s = add_each uid ds (add_speak_data uid d s).1

unfoldable pub take_each : ℕ → ℤ → Store → List SpeakData × Store
take_each zero uid s = ([], s)
take_each (suc n) uid s =
    let (code, d, s') = get_speak_data uid no_speak s in
    let (ds, t) = take_each n uid s' in (d ∷ ds, t)

add_each_lem :
    (uid : ℤ) (ds : List SpeakData) (s : Store) (a : AppData)
    → find uid s.app_list ≡ some a
    → (b : AppData) × (find uid (add_each uid ds s).app_list ≡ some b)
      × (b.m_speak_data ≡ a.m_speak_data ++ ds)
unfolding add_each
add_each_lem uid [] s a h = (a, h, sym (append-nil _))
add_each_lem uid (d ∷ ds) s a h =
    let (b, f, e) =
      add_each_lem uid ds (add_speak_data uid d s).1 _ (add_speak_data_queues uid d s a h).1 in
    (b, f, e ∙ append_assoc a.m_speak_data (d ∷ []) ds)

take_each_lem :
    (uid : ℤ) (q : List SpeakData) (s : Store) (a : AppData)
    → find uid s.app_list ≡ some a
    → a.m_speak_data ≡ q
    → ((take_each (length q) uid s).0 ≡ q)
      × (find uid (take_each (length q) uid s).1.app_list ≡ some (record a { m_speak_data = [] }))
unfolding take_each
take_each_lem uid [] s a h e = (refl, h ∙ ground (arith, e))
take_each_lem uid (d ∷ q) s a h e =
    let step = get_speak_data_takes uid no_speak d q s a h e in
    let rest =
      take_each_lem uid q (get_speak_data uid no_speak s).2 (record a { m_speak_data = q }) step.2
        refl in
    (ground (arith, step.1, rest.0), rest.1)

-- First in, first out: texts that are added to a registered uid come out behind those that waited, in
-- the order in which they were added, and then the queue is empty and the next call returns -1.
pub take_each-add_each :
    (uid : ℤ) (ds : List SpeakData) (s : Store) (a : AppData) (out : SpeakData)
    → find uid s.app_list ≡ some a
    → let all = a.m_speak_data ++ ds in
      let (taken, t) = take_each (length all) uid (add_each uid ds s) in
      (taken ≡ all) × (get_speak_data uid out t ≡ (minus_one, out, t))
take_each-add_each uid ds s a out h =
    let (b, f, e) = add_each_lem uid ds s a h in
    let (all, left) = take_each_lem uid (a.m_speak_data ++ ds) (add_each uid ds s) b f e in
    (all, get_speak_data_empty uid out _ _ left refl)

-- ttsd_data_clear_data succeeds for a registered uid: both its queues are empty afterwards, and the
-- other uids and the setting clients are as they were.
pub clear_data_empties :
    (uid : ℤ) (s : Store) (a : AppData)
    → find uid s.app_list ≡ some a
    → let (code, s') = clear_data uid s in
      (code ≡ error_none)
      × (get_speak_data_size uid s' ≡ pos 0)
      × (get_sound_data_size uid s' ≡ pos 0)
      × SameOthers uid s s'
      × (s'.setting_list ≡ s.setting_list)
clear_data_empties uid s a h =
    rw (clear_data_lem uid s, h)
      (
        refl,
        get_speak_data_size_lem uid (with_apps s (update uid cleared s.app_list))
            ∙ rw (find-update_self uid cleared s.app_list cleared-KeepsUid, h) (ground arith),
        get_sound_data_size_lem uid (with_apps s (update uid cleared s.app_list))
            ∙ rw (find-update_self uid cleared s.app_list cleared-KeepsUid, h) (ground arith),
        λ v ne. find-update_ne uid v cleared s.app_list cleared-KeepsUid ne,
        refl,
      )

-- If the last text in the queue of a registered uid has the id `last`, not -1, then after the queues
-- are cleared an utterance of that uid is valid exactly if its id is not below `last`: what was
-- synthesised for an earlier text is refused, the last text itself is not.
pub clear_data_stops :
    (uid uttid : ℤ) (s : Store) (a : AppData) (q : List SpeakData) (d : SpeakData)
    → find uid s.app_list ≡ some a
    → a.m_speak_data ≡ q ++ d ∷ []
    → (d.utt_id ==ℤ minus_one) ≡ false
    → is_uttid_valid uid uttid (clear_data uid s).1 ≡ not (ltb_ℤ uttid d.utt_id)
clear_data_stops uid uttid s a q d h e ne =
    rw (clear_data_lem uid s, h)
      (is_uttid_valid_lem uid uttid (with_apps s (update uid cleared s.app_list))
        ∙ rw (find-update_self uid cleared s.app_list cleared-KeepsUid, h)
            (ground (arith, ap (last_id minus_one) e, last_id-append q d minus_one)))
  where
    last_id-append :
        (q : List SpeakData) (d : SpeakData) (last : ℤ) → last_id last (q ++ d ∷ []) ≡ d.utt_id
    last_id-append [] d last = refl
    last_id-append (x ∷ q) d last = last_id-append q d x.utt_id

-- For a uid that is not registered every utterance counts as valid: the error code -22 is returned as a
-- `bool`.
pub is_uttid_valid_unregistered :
    (uid uttid : ℤ) (s : Store) → find uid s.app_list ≡ none → is_uttid_valid uid uttid s ≡ true
is_uttid_valid_unregistered uid uttid s h = is_uttid_valid_lem uid uttid s ∙ rw h
