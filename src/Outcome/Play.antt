-- ===== src/Outcome/Play.antt =====
-- ttsd_server_play: the playing client after it.
pub mod Takeover
use framework_uifw_voice_tts.Prelude.{
  ℕ, zero, suc, ◌+◌, ◌≤◌, ◌<◌, ◌≡◌, ◌≢◌, refl, sym, ap, ◌∙◌, ◌⊎◌, inl, inr, Bool, true, false, not,
  ◌&&◌, Option, none, some, List, [], ◌∷◌, arith, ℤ, ◌==ℤ◌, ==ℤ_refl, eq_of_==ℤ, if◌then◌else◌,
  Bool-cases,
}
use mathlib.Core.Option.{some-injective}
use mathlib.Core.Path.{subst}
use framework_uifw_voice_tts.Types.{
  AppState, state_playing, state_paused, AppData, Store, is_playing, minus_one,
}
use framework_uifw_voice_tts.Data.{set_client_state, write_state, playing_from, get_current_playing}
use framework_uifw_voice_tts.Data.Locate.{find, update, with_apps, set_client_state_lem}
use framework_uifw_voice_tts.Data.Lookup.{KeepsUid, find-update_ne}
use framework_uifw_voice_tts.Data.Invariant.{IsValid, KeepsState, count_uid, count_playing}
use framework_uifw_voice_tts.Data.Playing.{playing_from_none}

-- What the request does to the tables before the client's own state is set.
abbrev pub interrupted : ℤ → Store → Store
interrupted uid s =
    let c = get_current_playing s in
    if not (uid ==ℤ c) && not (c ==ℤ minus_one) then (set_client_state c state_paused s).1 else s

count_uid-found : (u : ℤ) (l : List AppData) (a : AppData) → find u l ≡ some a → 0 < count_uid u l
count_uid-found u [] a h = cc
count_uid-found u (x ∷ l) a h = ground (arith, count_uid-found u l a)

playing_from-skip :
    (a : AppData) (l : List AppData)
    → is_playing a.state ≡ false
    → playing_from (a ∷ l) ≡ playing_from l
unfolding playing_from
playing_from-skip a l off = rw off

found_behind :
    (a b : AppData) (l : List AppData) (u : ℤ)
    → playing_from (a ∷ l) ≡ u
    → find u l ≡ some b
    → (a.uid ==ℤ u) ≡ false
    → find (playing_from (a ∷ l)) (a ∷ l) ≡ some b
found_behind a b l u e at miss = subst (λ w. find w (a ∷ l) ≡ some b) (sym e) (rw miss at)

ne_of_find : (u v : ℤ) (l : List AppData) → find u l ≢ find v l → (u ==ℤ v) ≡ false
ne_of_find u v l ne = elim (Bool-cases (u ==ℤ v)) [
  | inl same ↦ absurd (ne (ap (λ w. find w l) (eq_of_==ℤ u v same)))
  | inr other ↦ other
]

-- Either no client plays, or the search returns one that does.
playing_from-cases :
    (l : List AppData)
    → ((u : ℤ) → count_uid u l ≤ 1)
    → (count_playing l ≡ 0)
      ⊎ ((b : AppData) × (find (playing_from l) l ≡ some b) × (b.state ≡ state_playing))
unfolding playing_from
playing_from-cases [] once = inl refl
playing_from-cases (a ∷ l) once = elim (Bool-cases (is_playing a.state)) [
  | inl on ↦ inr (a, rw on (rw (==ℤ_refl a.uid)), ground (arith, on))
  | inr off ↦ elim (playing_from-cases l (λ u. ground (arith, once u))) [
    | inl idle ↦ inl (rw off idle)
    | inr (b, at, on) ↦ elim (Bool-cases (a.uid ==ℤ playing_from l)) [
      | inl hit ↦
          absurd
            (ground (arith, hit, once (playing_from l), count_uid-found (playing_from l) l b at))
      | inr miss ↦
          inr (b, found_behind a b l (playing_from l) (playing_from-skip a l off) at miss, on)
    ]
  ]
]

count_playing-pause :
    (u : ℤ) (l : List AppData) (b : AppData)
    → find u l ≡ some b
    → b.state ≡ state_playing
    → suc (count_playing (update u (write_state state_paused) l)) ≡ count_playing l
count_playing-pause u [] b h on = cc
count_playing-pause u (x ∷ l) b h on = ground (arith, count_playing-pause u l b)

pub playing_from-update :
    (u : ℤ) (f : AppData → AppData) (l : List AppData)
    → KeepsUid f
    → KeepsState f
    → playing_from (update u f l) ≡ playing_from l
unfolding playing_from
playing_from-update u f [] ku ks = refl
playing_from-update u f (a ∷ l) ku ks = elim (Bool-cases (a.uid ==ℤ u)) [
  | inl hit ↦ rw hit (rw (ks a, ku a))
  | inr miss ↦ rw miss (rw (playing_from-update u f l ku ks))
]

-- After the interruption no client plays, and the one that asked is as before.
pub interrupted_idle :
    (uid : ℤ) (s : Store) (a : AppData)
    → IsValid s
    → find uid s.app_list ≡ some a
    → is_playing a.state ≡ false
    → find minus_one s.app_list ≡ none
    → (count_playing (interrupted uid s).app_list ≡ 0)
      × (find uid (interrupted uid s).app_list ≡ some a)
unfolding get_current_playing
interrupted_idle uid s a v h off free = elim (playing_from-cases s.app_list v.uids) [
  | inl idle ↦ rw (playing_from_none s.app_list idle) (elim (Bool-cases (uid ==ℤ minus_one)) [
    | inl hit ↦ rw hit (idle, h)
    | inr miss ↦ rw miss (idle, h)
  ])
  | inr (b, at, on) ↦
      rw
        (
          ne_of_find uid (playing_from s.app_list) s.app_list (λ e. idle_ne e b at on),
          ne_of_find (playing_from s.app_list) minus_one s.app_list (λ e. cc (at, free, e)),
          set_client_state_lem (playing_from s.app_list) state_paused s,
          at,
        )
        (
          omega
              (arith, count_playing-pause (playing_from s.app_list) s.app_list b at on, v.playing),
          find-update_ne (playing_from s.app_list) uid (write_state state_paused) s.app_list
                (λ x. refl)
                (ne_of_find (playing_from s.app_list) uid s.app_list (λ e. idle_ne (sym e) b at on))
              ∙ h,
        )
]
  where
    idle_ne :
        find uid s.app_list ≡ find (playing_from s.app_list) s.app_list
        → (b : AppData) → find (playing_from s.app_list) s.app_list ≡ some b
        → b.state ≡ state_playing
        → ⊥
    idle_ne e b at on =
        cc (
          off,
          ap is_playing on,
          ap (λ x. is_playing x.state) (some-injective a b (sym h ∙ e ∙ at)),
        )
