-- ===== src/Player/Sound.antt =====
-- Well-formed globals of server/ttsd_player.cpp: the list of players, `g_playing_info` and `g_index`.
use framework_uifw_voice_tts.Prelude.{
  ℕ, suc, ◌+◌, ◌≤◌, ◌<◌, ◌≡◌, refl, ◌⊎◌, inl, inr, true, false, none, some, List, [], ◌∷◌, ◌++◌,
  arith, ℤ, ◌==ℤ◌, eq_of_==ℤ, if◌then◌else◌, Bool-cases,
}
use mathlib.Core.Path.{subst}
use mathlib.Core.Option.{some-injective}
use framework_uifw_voice_tts.Daemon.{Player, PlayerItem}
use framework_uifw_voice_tts.Player.{
  get_item, write_item, remove_item, plays, set_playing_info, release_playing, on_item, bump_index,
  init, new_item, append_item, drop_item,
}

abbrev pub count_item : ℤ → List PlayerItem → ℕ
count_item u [] = 0
count_item u (i ∷ l) = if i.uid ==ℤ u then suc (count_item u l) else count_item u l

pub record IsSound (q : Player) : Type 0 where
  pub items : (u : ℤ) → count_item u q.player_list ≤ 1
  pub info : (u : ℤ) → q.playing_info ≡ some u → 0 < count_item u q.player_list
  pub index : q.player_init ≡ true → (1 ≤ q.index) × (q.index < 65534)

pub get_item-cases :
    (uid : ℤ) (l : List PlayerItem)
    → ((get_item uid l ≡ none) × (count_item uid l ≡ 0))
      ⊎ ((i : PlayerItem) × (get_item uid l ≡ some i) × (0 < count_item uid l))
unfolding get_item
get_item-cases uid [] = inl (refl, refl)
get_item-cases uid (i ∷ l) = elim (Bool-cases (i.uid ==ℤ uid)) [
  | inl hit ↦ inr (i, rw hit, rw hit (omega arith))
  | inr miss ↦ elim (get_item-cases uid l) [
    | inl (e, c) ↦ inl (rw miss e, rw miss c)
    | inr (j, e, c) ↦ inr (j, rw miss e, rw miss c)
  ]
]

abbrev pub KeepsItemUid : (PlayerItem → PlayerItem) → Type 0
KeepsItemUid f = (i : PlayerItem) → (f i).uid ≡ i.uid

pub count_item-write :
    (v u : ℤ) (f : PlayerItem → PlayerItem) (l : List PlayerItem)
    → KeepsItemUid f
    → count_item v (write_item u f l) ≡ count_item v l
unfolding write_item
count_item-write v u f [] k = refl
count_item-write v u f (i ∷ l) k = elim (Bool-cases (i.uid ==ℤ u)) [
  | inl hit ↦ rw hit (rw (k i))
  | inr miss ↦ rw miss (rw (count_item-write v u f l k))
]

count_item-append_end :
    (v : ℤ) (l : List PlayerItem) (i : PlayerItem)
    → count_item v (l ++ i ∷ []) ≡ count_item v l + (if i.uid ==ℤ v then 1 else 0)
count_item-append_end v [] i = ground arith
count_item-append_end v (x ∷ l) i = ground (arith, count_item-append_end v l i)

count_item-remove_le :
    (v u : ℤ) (l : List PlayerItem) → count_item v (remove_item u l) ≤ count_item v l
unfolding remove_item
count_item-remove_le v u [] = omega arith
count_item-remove_le v u (i ∷ l) = ground (arith, count_item-remove_le v u l)

-- Removing the player of `u` leaves those of another uid.
count_item-remove_ne :
    (v u : ℤ) (l : List PlayerItem)
    → (u ==ℤ v) ≡ false
    → count_item v (remove_item u l) ≡ count_item v l
unfolding remove_item
count_item-remove_ne v u [] h = refl
count_item-remove_ne v u (i ∷ l) h = elim (Bool-cases (i.uid ==ℤ u)) [
  | inl hit ↦ rw hit (rw (eq_of_==ℤ i.uid u hit) (rw h))
  | inr miss ↦ rw miss (rw (count_item-remove_ne v u l h))
]

pub set_none-IsSound : (q : Player) → IsSound q → IsSound (set_playing_info none q)
set_none-IsSound q v = record { items = v.items; info = λ u e. cc; index = v.index }

pub set_some-IsSound :
    (u : ℤ) (q : Player)
    → 0 < count_item u q.player_list
    → IsSound q
    → IsSound (set_playing_info (some u) q)
set_some-IsSound u q h v = record {
  items = v.items;
  info = λ w e. subst (λ x. 0 < count_item x q.player_list) (some-injective u w e) h;
  index = v.index;
}

pub release-IsSound : (u : ℤ) (q : Player) → IsSound q → IsSound (release_playing u q)
release-IsSound u q v = elim (Bool-cases (plays u q.playing_info)) [
  | inl hit ↦ rw hit (set_none-IsSound q v)
  | inr miss ↦ rw miss v
]

pub on_item-IsSound :
    (u : ℤ) (f : PlayerItem → PlayerItem) (q : Player)
    → KeepsItemUid f
    → IsSound q
    → IsSound (on_item u f q)
on_item-IsSound u f q k v = record {
  items = λ w. rw (count_item-write w u f q.player_list k) (v.items w);
  info = λ w e. rw (count_item-write w u f q.player_list k) (v.info w e);
  index = v.index;
}

pub append-IsSound :
    (uid : ℤ) (handle : ℕ) (q : Player)
    → count_item uid q.player_list ≡ 0
    → IsSound q
    → IsSound (append_item (new_item uid handle) q)
append-IsSound uid handle q c v = record {
  items = λ w. ground (
    arith,
    v.items w,
    c,
    count_item-append_end w q.player_list (new_item uid handle),
    eq_of_==ℤ uid w,
  );
  info = λ w e.
      ground (arith, v.info w e, count_item-append_end w q.player_list (new_item uid handle));
  index = v.index;
}

pub plays-release : (u : ℤ) (q : Player) → plays u (release_playing u q).playing_info ≡ false
plays-release u q = elim (Bool-cases (plays u q.playing_info)) [
  | inl hit ↦ rw hit
  | inr miss ↦ rw miss miss
]

-- A player may go once its uid is not the playing one.
pub drop-IsSound :
    (uid : ℤ) (q : Player)
    → plays uid q.playing_info ≡ false
    → IsSound q
    → IsSound (drop_item uid q)
drop-IsSound uid q h v = record {
  items = λ w. omega (arith, v.items w, count_item-remove_le w uid q.player_list);
  info = λ w e. rw (count_item-remove_ne w uid q.player_list (rw e at h)) (v.info w e);
  index = v.index;
}

pub bump-IsSound : (q : Player) → IsSound q → IsSound (bump_index q)
bump-IsSound q v = record { items = v.items; info = v.info; index = λ e. ground (arith, v.index e) }

pub init-IsSound : (q : Player) → IsSound q → IsSound (init q)
init-IsSound q v = record { items = v.items; info = λ u e. cc; index = λ e. omega arith }
