-- ===== src/Data/Playing.antt =====
-- The one playing client: ttsd_data_set_client_state and ttsd_data_get_current_playing.
use framework_uifw_voice_tts.Prelude.{
  ◌≤◌, ◌<◌, ◌≡◌, refl, true, false, some, List, [], ◌∷◌, arith, ℤ, eq_of_==ℤ,
}
use framework_uifw_voice_tts.Types.{AppData, Store, state_playing, error_none, minus_one}
use framework_uifw_voice_tts.Data.{
  set_client_state, any_playing, write_state, playing_from, get_current_playing, is_current_playing,
}
use framework_uifw_voice_tts.Data.Locate.{find, update, set_client_state_lem}
use framework_uifw_voice_tts.Data.Invariant.{IsValid, count_playing}

any_playing-count : (l : List AppData) → 0 < count_playing l → any_playing l ≡ true
unfolding any_playing
any_playing-count [] h = elim h [ ]
any_playing-count (a ∷ l) h = ground (arith, any_playing-count l)

any_playing_none : (l : List AppData) → count_playing l ≡ 0 → any_playing l ≡ false
unfolding any_playing
any_playing_none [] h = refl
any_playing_none (a ∷ l) h = ground (arith, any_playing_none l)

pub playing_from_none : (l : List AppData) → count_playing l ≡ 0 → playing_from l ≡ minus_one
unfolding playing_from
playing_from_none [] h = refl
playing_from_none (a ∷ l) h = ground (arith, playing_from_none l)

found_plays :
    (l : List AppData) (u : ℤ) (a : AppData)
    → find u l ≡ some a
    → a.state ≡ state_playing
    → 0 < count_playing l
found_plays [] u a f p = cc
found_plays (x ∷ l) u a f p = ground (arith, found_plays l u a)

-- A client that plays, when one at most does, is the one that the search returns.
pub playing_from_unique :
    (l : List AppData) (u : ℤ) (a : AppData)
    → count_playing l ≤ 1
    → find u l ≡ some a
    → a.state ≡ state_playing
    → playing_from l ≡ u
unfolding playing_from
playing_from_unique [] u a c f p = cc
playing_from_unique (x ∷ l) u a c f p =
    ground (arith, playing_from_unique l u a, found_plays l u a, eq_of_==ℤ x.uid u)

playing_from-write :
    (l : List AppData) (u : ℤ) (a : AppData)
    → find u l ≡ some a
    → count_playing l ≡ 0
    → (playing_from (update u (write_state state_playing) l) ≡ u)
      × (count_playing (update u (write_state state_playing) l) ≡ 1)
unfolding playing_from
playing_from-write [] u a f c = cc
playing_from-write (x ∷ l) u a f c = ground (arith, playing_from-write l u a, eq_of_==ℤ x.uid u)

-- While no client plays, a registered client can be made the playing one: the call succeeds, and then
-- it is the client that ttsd_data_get_current_playing and ttsd_data_is_current_playing return, and the
-- only one that plays.
pub set_playing_accepted :
    (uid : ℤ) (s : Store) (a : AppData)
    → find uid s.app_list ≡ some a
    → count_playing s.app_list ≡ 0
    → let (code, s') = set_client_state uid state_playing s in
      (code ≡ error_none)
      × (get_current_playing s' ≡ uid)
      × (is_current_playing s' ≡ uid)
      × (count_playing s'.app_list ≡ 1)
unfolding get_current_playing is_current_playing
set_playing_accepted uid s a f c =
    rw (set_client_state_lem uid state_playing s, f, any_playing_none s.app_list c)
      (ground (arith, playing_from-write s.app_list uid a f c))

-- While a client plays, also the very client that is named, the state `playing` is refused with -1
-- and nothing changes.
pub set_playing_refused :
    (uid : ℤ) (s : Store) (a : AppData)
    → find uid s.app_list ≡ some a
    → 0 < count_playing s.app_list
    → set_client_state uid state_playing s ≡ (minus_one, s)
set_playing_refused uid s a f c =
    rw (set_client_state_lem uid state_playing s, f, any_playing-count s.app_list c)

-- In well-formed tables the search for the playing client finds exactly it, and -1 if there is none.
pub get_current_playing_exact :
    (s : Store)
    → IsValid s
    → ((u : ℤ) (a : AppData)
        → find u s.app_list ≡ some a
        → a.state ≡ state_playing
        → get_current_playing s ≡ u)
      × (count_playing s.app_list ≡ 0 → get_current_playing s ≡ minus_one)
unfolding get_current_playing
get_current_playing_exact s v = (
  λ u a f p. playing_from_unique s.app_list u a v.playing f p,
  λ c. playing_from_none s.app_list c,
)
