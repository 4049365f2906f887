-- ===== src/Client/Machine/View.antt =====
-- The states of the handles when a client of the list is written.
use framework_uifw_voice_tts.Prelude.{
  ◌≡◌, refl, sym, ◌∙◌, true, false, inl, inr, some, List, [], ◌∷◌, ℤ, ◌==ℤ◌, eq_of_==ℤ, ==ℤ_of_eq,
  Bool-cases,
}
use framework_uifw_voice_tts.Client.{TtsState, TtsClient, find_handle, change_client}
use framework_uifw_voice_tts.Client.Api.{enter}
use framework_uifw_voice_tts.Client.Machine.{view, set_state}

apart : (h k n : ℤ) → (h ==ℤ n) ≡ false → (k ==ℤ n) ≡ true → (k ==ℤ h) ≡ false
apart h k n miss here = elim (Bool-cases (k ==ℤ h)) [
  | inl same ↦ absurd (cc (==ℤ_of_eq h n (sym (eq_of_==ℤ k h same) ∙ eq_of_==ℤ k n here)))
  | inr off ↦ off
]

-- A write of a client's state changes the state of its handle and of no other.
pub view-enter :
    (h : ℤ) (state : TtsState) (l : List TtsClient) (c : TtsClient) (k : ℤ)
    → find_handle h l ≡ some c
    → view (change_client h (enter state) l) k ≡ set_state h state (view l) k
unfolding find_handle
view-enter h state [] c k e = absurd (cc e)
view-enter h state (x ∷ l) c k e = elim (Bool-cases (h ==ℤ x.handle)) [
  | inl hit ↦ rw hit (
      rw (eq_of_==ℤ h x.handle hit)
        (elim (Bool-cases (k ==ℤ x.handle)) [ inl here ↦ rw here refl | inr off ↦ rw off refl ]))
  | inr miss ↦ elim (Bool-cases (k ==ℤ x.handle)) [
    | inl here ↦ rw miss (rw here (rw (apart h k x.handle miss here) refl))
    | inr off ↦ rw miss (rw off (view-enter h state l c k (rw miss at e)))
  ]
]
