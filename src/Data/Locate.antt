-- ===== src/Data/Locate.antt =====
-- The table of clients of server/ttsd_data.cpp read by uid. Its functions search for an index and write
-- through it; the terms here are a lookup and an update of the first entry with a uid.
use framework_uifw_voice_tts.Prelude.{
  ℕ, suc, ◌+◌, ◌≡◌, refl, ap, ◌∙◌, ◌⊎◌, inl, inr, true, false, Option, none, some, List, [], ◌∷◌,
  arith, ℤ, pos, ◌==ℤ◌, get_or, modify_at, erase_at, if◌then◌else◌, Bool-cases,
}
use framework_uifw_voice_tts.Types.{
  AppState, SpeakData, SoundData, AppData, Store, no_app, is_playing, error_none,
  error_invalid_parameter, minus_one,
}
use framework_uifw_voice_tts.Data.{
  client_index_from, is_client, add_speak_data, enqueue_speak, add_sound_data, enqueue_sound,
  set_client_state, write_state, any_playing, get_client_state, get_speak_data, drop_speak,
  get_sound_data, drop_sound, take_speak, take_sound, app_at,
}

abbrev pub find : ℤ → List AppData → Option AppData
find uid [] = none
find uid (a ∷ l) = if a.uid ==ℤ uid then some a else find uid l

abbrev pub update : ℤ → (AppData → AppData) → List AppData → List AppData
update uid f [] = []
update uid f (a ∷ l) = if a.uid ==ℤ uid then f a ∷ l else a ∷ update uid f l

abbrev pub remove : ℤ → List AppData → List AppData
remove uid [] = []
remove uid (a ∷ l) = if a.uid ==ℤ uid then l else a ∷ remove uid l

-- What an index found for a uid is good for.
pub record IsAt (uid : ℤ) (i : ℕ) (l : List AppData) : Type 0 where
  pub found : find uid l ≡ some (get_or l i no_app)
  pub modified : (f : AppData → AppData) → modify_at i f l ≡ update uid f l
  pub erased : erase_at i l ≡ remove uid l

IsAt-head : (uid : ℤ) (a : AppData) (l : List AppData) → (a.uid ==ℤ uid) ≡ true → IsAt uid 0 (a ∷ l)
IsAt-head uid a l h = record { found = rw h; modified = λ f. rw h; erased = rw h }

IsAt-tail :
    (uid : ℤ) (i : ℕ) (a : AppData) (l : List AppData)
    → (a.uid ==ℤ uid) ≡ false
    → IsAt uid i l
    → IsAt uid (suc i) (a ∷ l)
IsAt-tail uid i a l h t = record {
  found = rw h t.found;
  modified = λ f. rw h (ap (λ m. a ∷ m) (t.modified f));
  erased = rw h (ap (λ m. a ∷ m) t.erased);
}

locate_from :
    (k : ℕ) (uid : ℤ) (l : List AppData)
    → ((client_index_from k uid l ≡ minus_one) × (find uid l ≡ none))
      ⊎ ((i : ℕ) × (client_index_from k uid l ≡ pos (k + i)) × IsAt uid i l)
unfolding client_index_from
locate_from k uid [] = inl (refl, refl)
locate_from k uid (a ∷ l) = elim (Bool-cases (a.uid ==ℤ uid)) [
  | inl hit ↦ inr (0, rw hit (ap pos (omega arith)), IsAt-head uid a l hit)
  | inr miss ↦ elim (locate_from (suc k) uid l) [
    | inl (e, f) ↦ inl (rw miss e, rw miss f)
    | inr (i, e, t) ↦ inr (suc i, rw miss (e ∙ ap pos (omega arith)), IsAt-tail uid i a l miss t)
  ]
]

-- The index that ttsd_data_is_client returns is -1 exactly where the lookup finds nothing.
pub locate :
    (uid : ℤ) (s : Store)
    → ((is_client uid s ≡ minus_one) × (find uid s.app_list ≡ none))
      ⊎ ((i : ℕ) × (is_client uid s ≡ pos i) × IsAt uid i s.app_list)
unfolding is_client
locate uid s = elim (locate_from 0 uid s.app_list) [
  | inl m ↦ inl m
  | inr (i, e, t) ↦ inr (i, e ∙ ap pos (omega arith), t)
]

abbrev pub with_apps : Store → List AppData → Store
with_apps s l = record s { app_list = l }

-- The common shape of a writer: the error code and the store as it was, or an update at the uid.
abbrev pub written : ℤ → (AppData → AppData) → Store → Option AppData → ℤ × Store
written uid f s none = (error_invalid_parameter, s)
written uid f s (some a) = (error_none, with_apps s (update uid f s.app_list))

pub add_speak_data_lem :
    (uid : ℤ) (d : SpeakData) (s : Store)
    → add_speak_data uid d s ≡ written uid (enqueue_speak d) s (find uid s.app_list)
unfolding add_speak_data
add_speak_data_lem uid d s = elim (locate uid s) [
  | inl (e, f) ↦ rw (e, add_speak_data, f)
  | inr (i, e, t) ↦ rw (e, add_speak_data, t.found) (rw (t.modified (enqueue_speak d)))
]

pub add_sound_data_lem :
    (uid : ℤ) (d : SoundData) (s : Store)
    → add_sound_data uid d s ≡ written uid (enqueue_sound d) s (find uid s.app_list)
unfolding add_sound_data
add_sound_data_lem uid d s = elim (locate uid s) [
  | inl (e, f) ↦ ground (arith, e, f)
  | inr (i, e, t) ↦ ground (arith, e, t.found, t.modified (enqueue_sound d))
]

-- ttsd_data_set_client_state in the same terms: the state `playing` is refused while any client has it.
abbrev pub state_written : ℤ → AppState → Store → Option AppData → ℤ × Store
state_written uid state s none = (error_invalid_parameter, s)
state_written uid state s (some a) =
    if (if is_playing state then any_playing s.app_list else false)
    then (minus_one, s)
    else (error_none, with_apps s (update uid (write_state state) s.app_list))

pub set_client_state_lem :
    (uid : ℤ) (state : AppState) (s : Store)
    → set_client_state uid state s ≡ state_written uid state s (find uid s.app_list)
unfolding set_client_state
set_client_state_lem uid state s = elim (locate uid s) [
  | inl (e, f) ↦ ground (arith, e, f)
  | inr (i, e, t) ↦ ground (arith, e, t.found, t.modified (write_state state))
]

abbrev pub state_read : AppState → Option AppData → ℤ × AppState
state_read out none = (error_invalid_parameter, out)
state_read out (some a) = (error_none, a.state)

pub get_client_state_lem :
    (uid : ℤ) (out : AppState) (s : Store)
    → get_client_state uid out s ≡ state_read out (find uid s.app_list)
unfolding get_client_state
get_client_state_lem uid out s = elim (locate uid s) [
  | inl (e, f) ↦ ground (arith, e, f)
  | inr (i, e, t) ↦ ground (arith, e, t.found)
]

-- The getters: the head of the queue, which leaves the queue.
abbrev pub speak_taken : ℤ → SpeakData → Store → Option AppData → ℤ × SpeakData × Store
speak_taken uid out s none = (error_invalid_parameter, out, s)
speak_taken uid out s (some a) = elim a.m_speak_data [
  | [] ↦ (minus_one, out, s)
  | d ∷ _ ↦ (error_none, d, with_apps s (update uid drop_speak s.app_list))
]

take_speak_lem :
    (uid : ℤ) (i : ℕ) (a : AppData) (q : List SpeakData) (out : SpeakData) (s : Store)
    → a.m_speak_data ≡ q
    → modify_at i drop_speak s.app_list ≡ update uid drop_speak s.app_list
    → take_speak i a.m_speak_data out s ≡ speak_taken uid out s (some a)
take_speak_lem uid i a [] out s e m = ground (arith, e, m)
take_speak_lem uid i a (d ∷ q) out s e m = ground (arith, e, m)

pub get_speak_data_lem :
    (uid : ℤ) (out : SpeakData) (s : Store)
    → get_speak_data uid out s ≡ speak_taken uid out s (find uid s.app_list)
unfolding get_speak_data
get_speak_data_lem uid out s = elim (locate uid s) [
  | inl (e, f) ↦ ground (arith, e, f)
  | inr (i, e, t) ↦
      rw (e, get_speak_data, t.found)
        (take_speak_lem uid i (app_at i s) _ out s refl (t.modified drop_speak))
]

abbrev pub sound_taken : ℤ → SoundData → Store → Option AppData → ℤ × SoundData × Store
sound_taken uid out s none = (error_invalid_parameter, out, s)
sound_taken uid out s (some a) = elim a.m_wav_data [
  | [] ↦ (minus_one, out, s)
  | d ∷ _ ↦ (error_none, d, with_apps s (update uid drop_sound s.app_list))
]

take_sound_lem :
    (uid : ℤ) (i : ℕ) (a : AppData) (q : List SoundData) (out : SoundData) (s : Store)
    → a.m_wav_data ≡ q
    → modify_at i drop_sound s.app_list ≡ update uid drop_sound s.app_list
    → take_sound i a.m_wav_data out s ≡ sound_taken uid out s (some a)
take_sound_lem uid i a [] out s e m = ground (arith, e, m)
take_sound_lem uid i a (d ∷ q) out s e m = ground (arith, e, m)

pub get_sound_data_lem :
    (uid : ℤ) (out : SoundData) (s : Store)
    → get_sound_data uid out s ≡ sound_taken uid out s (find uid s.app_list)
unfolding get_sound_data
get_sound_data_lem uid out s = elim (locate uid s) [
  | inl (e, f) ↦ ground (arith, e, f)
  | inr (i, e, t) ↦
      rw (e, get_sound_data, t.found)
        (take_sound_lem uid i (app_at i s) _ out s refl (t.modified drop_sound))
]

client_index-update :
    (k : ℕ) (uid : ℤ) (g : AppData → AppData) (l : List AppData)
    → ((a : AppData) → (g a).uid ≡ a.uid)
    → client_index_from k uid (update uid g l) ≡ client_index_from k uid l
unfolding client_index_from
client_index-update k uid g [] h = refl
client_index-update k uid g (a ∷ l) h = elim (Bool-cases (a.uid ==ℤ uid)) [
  | inl hit ↦ rw hit (rw (h a) (rw hit))
  | inr miss ↦ rw miss (rw miss (client_index-update (suc k) uid g l h))
]

-- An update of the entry leaves it at its index.
pub IsAt-update :
    (uid : ℤ) (i : ℕ) (g : AppData → AppData) (s : Store)
    → ((a : AppData) → (g a).uid ≡ a.uid)
    → is_client uid s ≡ pos i
    → IsAt uid i (update uid g s.app_list)
unfolding is_client
IsAt-update uid i g s h e = elim (locate_from 0 uid (update uid g s.app_list)) [
  | inl (m, f) ↦ absurd (ground (arith, m, e, client_index-update 0 uid g s.app_list h))
  | inr (j, m, t) ↦
      let same : j ≡ i = ground (arith, m, e, client_index-update 0 uid g s.app_list h) in
      rw (← same) t
]

pub is_client-none :
    (uid : ℤ) (s : Store) → find uid s.app_list ≡ none → is_client uid s ≡ minus_one
is_client-none uid s h = elim (locate uid s) [
  | inl (e, f) ↦ e
  | inr (i, e, t) ↦ absurd (cc (t.found))
]
