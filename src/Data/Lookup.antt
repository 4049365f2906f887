-- ===== src/Data/Lookup.antt =====
-- The lookup by uid under the ways in which server/ttsd_data.cpp changes its table.
use mathlib.Core.Option
use framework_uifw_voice_tts.Prelude.{
  ◌≡◌, refl, ap, inl, inr, false, none, some, List, [], ◌∷◌, ◌++◌, arith, ℤ, ◌==ℤ◌, eq_of_==ℤ,
  if◌then◌else◌, Bool-cases,
}
use framework_uifw_voice_tts.Types.{AppData}
use framework_uifw_voice_tts.Data.Locate.{find, update, remove}

abbrev pub KeepsUid : (AppData → AppData) → Type 0
KeepsUid f = (a : AppData) → (f a).uid ≡ a.uid

-- An entry that is found has the uid that was looked for.
pub find-uid : (u : ℤ) (l : List AppData) (a : AppData) → find u l ≡ some a → a.uid ≡ u
find-uid u [] a h = cc
find-uid u (x ∷ l) a h = ground (arith, find-uid u l a, eq_of_==ℤ x.uid u)

pub find-update_self :
    (u : ℤ) (f : AppData → AppData) (l : List AppData)
    → KeepsUid f
    → find u (update u f l) ≡ Option.map f (find u l)
find-update_self u f [] k = refl
find-update_self u f (a ∷ l) k = elim (Bool-cases (a.uid ==ℤ u)) [
  | inl hit ↦ rw hit (rw (k a) (rw hit))
  | inr miss ↦ rw miss (rw miss (find-update_self u f l k))
]

-- The other entries are found as before.
pub find-update_ne :
    (u v : ℤ) (f : AppData → AppData) (l : List AppData)
    → KeepsUid f
    → (u ==ℤ v) ≡ false
    → find v (update u f l) ≡ find v l
find-update_ne u v f [] k h = refl
find-update_ne u v f (a ∷ l) k h = elim (Bool-cases (a.uid ==ℤ u)) [
  | inl hit ↦ rw hit (rw (k a, eq_of_==ℤ a.uid u hit) (rw h))
  | inr miss ↦ rw miss (ground (arith, find-update_ne u v f l k h))
]

-- Two updates at one uid are one.
pub update-update :
    (u : ℤ) (f g : AppData → AppData) (l : List AppData)
    → KeepsUid g
    → update u f (update u g l) ≡ update u (λ a. f (g a)) l
update-update u f g [] k = refl
update-update u f g (a ∷ l) k = elim (Bool-cases (a.uid ==ℤ u)) [
  | inl hit ↦ rw hit (rw (k a) (rw hit))
  | inr miss ↦ rw miss (rw miss (ap (λ m. a ∷ m) (update-update u f g l k)))
]

-- An update that leaves the entry as it is changes nothing.
pub update_same :
    (u : ℤ) (f : AppData → AppData) (l : List AppData) (a : AppData)
    → find u l ≡ some a
    → f a ≡ a
    → update u f l ≡ l
update_same u f [] a h e = refl
update_same u f (x ∷ l) a h e = elim (Bool-cases (x.uid ==ℤ u)) [
  | inl hit ↦ rw hit (ground (arith, rw hit at h))
  | inr miss ↦ rw miss (ap (λ m. x ∷ m) (update_same u f l a (rw miss at h) e))
]

pub find-append_end :
    (u : ℤ) (l : List AppData) (a : AppData)
    → find u l ≡ none
    → find u (l ++ a ∷ []) ≡ (if a.uid ==ℤ u then some a else none)
find-append_end u [] a h = refl
find-append_end u (x ∷ l) a h = ground (arith, find-append_end u l a)

pub find-append_ne :
    (u : ℤ) (l : List AppData) (a : AppData)
    → (a.uid ==ℤ u) ≡ false
    → find u (l ++ a ∷ []) ≡ find u l
find-append_ne u [] a h = rw h
find-append_ne u (x ∷ l) a h = ground (arith, find-append_ne u l a h)

pub find-remove_ne :
    (u v : ℤ) (l : List AppData) → (u ==ℤ v) ≡ false → find v (remove u l) ≡ find v l
find-remove_ne u v [] h = refl
find-remove_ne u v (a ∷ l) h = elim (Bool-cases (a.uid ==ℤ u)) [
  | inl hit ↦ rw hit (rw (eq_of_==ℤ a.uid u hit) (rw h))
  | inr miss ↦ rw miss (ground (arith, find-remove_ne u v l h))
]

-- What an update does is fixed by what it does to the entry that is found.
pub update_congr :
    (u : ℤ) (f g : AppData → AppData) (l : List AppData) (a : AppData)
    → find u l ≡ some a
    → f a ≡ g a
    → update u f l ≡ update u g l
update_congr u f g [] a h e = refl
update_congr u f g (x ∷ l) a h e = elim (Bool-cases (x.uid ==ℤ u)) [
  | inl hit ↦ rw hit (ground (arith, rw hit at h))
  | inr miss ↦ rw miss (ap (λ m. x ∷ m) (update_congr u f g l a (rw miss at h) e))
]

pub remove-update :
    (u : ℤ) (f : AppData → AppData) (l : List AppData)
    → KeepsUid f
    → remove u (update u f l) ≡ remove u l
remove-update u f [] k = refl
remove-update u f (a ∷ l) k = elim (Bool-cases (a.uid ==ℤ u)) [
  | inl hit ↦ rw hit (rw (k a) (rw hit))
  | inr miss ↦ rw miss (rw miss (ap (λ m. a ∷ m) (remove-update u f l k)))
]
