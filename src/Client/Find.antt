-- ===== src/Client/Find.antt =====
-- The list of clients of client/tts_client.c, searched and cut by a handle.
use mathlib.Core.Option.{some-injective}
use framework_uifw_voice_tts.Prelude.{
  suc, ◌≡◌, refl, ap, sym, ◌∙◌, false, inl, inr, some, List, [], ◌∷◌, ℤ, pos, ◌==ℤ◌, Bool-cases,
  eq_of_==ℤ, length, if◌then◌else◌,
}
use framework_uifw_voice_tts.Client.{TtsClient, find_handle, change_client, destroy_from}

-- The client that is found has the handle that was looked for.
pub find_handle-handle :
    (h : ℤ) (l : List TtsClient) (c : TtsClient) → find_handle h l ≡ some c → c.handle ≡ h
unfolding find_handle
find_handle-handle h [] c e = absurd (cc e)
find_handle-handle h (x ∷ l) c e = elim (Bool-cases (h ==ℤ x.handle)) [
  | inl hit ↦
      ap (λ y. y.handle) (some-injective c x (sym (rw hit at e))) ∙ sym (eq_of_==ℤ h x.handle hit)
  | inr miss ↦ find_handle-handle h l c (rw miss at e)
]

-- A change of another client.
pub find_handle-change_ne :
    (h k : ℤ) (f : TtsClient → TtsClient) (l : List TtsClient)
    → ((x : TtsClient) → (f x).handle ≡ x.handle)
    → (h ==ℤ k) ≡ false
    → find_handle h (change_client k f l) ≡ find_handle h l
unfolding find_handle
find_handle-change_ne h k f [] same ne = refl
find_handle-change_ne h k f (x ∷ l) same ne = elim (Bool-cases (k ==ℤ x.handle)) [
  | inl hit ↦
      let apart = ap (λ n. h ==ℤ n) (sym (eq_of_==ℤ k x.handle hit)) ∙ ne in
      rw hit (rw (ap (λ n. h ==ℤ n) (same x) ∙ apart) (rw apart refl))
  | inr miss ↦
      rw miss
        (ap (λ o. if h ==ℤ x.handle then some x else o) (find_handle-change_ne h k f l same ne))
]

-- A change of the client itself.
pub find_handle-change :
    (h : ℤ) (f : TtsClient → TtsClient) (l : List TtsClient) (c : TtsClient)
    → ((x : TtsClient) → (f x).handle ≡ x.handle)
    → find_handle h l ≡ some c
    → find_handle h (change_client h f l) ≡ some (f c)
unfolding find_handle
find_handle-change h f [] c k e = absurd (cc e)
find_handle-change h f (x ∷ l) c k e = elim (Bool-cases (h ==ℤ x.handle)) [
  | inl hit ↦
      rw hit (
        rw (ap (λ n. h ==ℤ n) (k x) ∙ hit)
          (ap (λ y. some (f y)) (some-injective x c (rw hit at e))))
  | inr miss ↦ rw miss (rw miss (find_handle-change h f l c k (rw miss at e)))
]

-- A client that no callback uses is taken off the list at once.
pub destroy_from_idle :
    (h : ℤ) (l : List TtsClient) (c : TtsClient)
    → find_handle h l ≡ some c
    → c.cb_ref_count ≡ pos 0
    → (m : List TtsClient) × (destroy_from h l ≡ some (pos 0, m)) × (suc (length m) ≡ length l)
unfolding find_handle destroy_from
destroy_from_idle h [] c e idle = absurd (cc e)
destroy_from_idle h (x ∷ l) c e idle = elim (Bool-cases (h ==ℤ x.handle)) [
  | inl hit ↦
      let same = some-injective x c (rw hit at e) in
      (l, rw hit (rw (ap (λ y. y.cb_ref_count) same ∙ idle) refl), refl)
  | inr miss ↦
      let (m, r, n) = destroy_from_idle h l c (rw miss at e) idle in
      (x ∷ m, rw miss (rw r refl), ap suc n)
]
