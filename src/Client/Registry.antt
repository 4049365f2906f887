-- ===== src/Client/Registry.antt =====
-- The list of clients of client/tts_client.c: making, finding and destroying one.
use mathlib.Core.Option.{some-injective}
use framework_uifw_voice_tts.Prelude.{
  negsuc, zero, ℕ, suc, ◌≡◌, refl, ap, ◌∙◌, inl, inr, none, some, List, [], ◌∷◌, ◌++◌, ℤ, pos,
  ◌==ℤ◌, ==ℤ_refl, arith, Bool-cases, length-append,
}
use framework_uifw_voice_tts.Client.{
  TtsClient, Handles, int_suc, int_pred, use_once, release_once, change_client, client_use_callback,
  client_not_use_callback, generate_uid, created_client, client_new, find_handle, destroy_from,
  client_destroy, client_get, client_get_size,
}

find_handle-append :
    (h : ℤ) (l m : List TtsClient)
    → find_handle h l ≡ none
    → find_handle h (l ++ m) ≡ find_handle h m
unfolding find_handle
find_handle-append h [] m e = refl
find_handle-append h (c ∷ l) m e = ground (arith, find_handle-append h l m)

find_handle-append_found :
    (h : ℤ) (l m : List TtsClient) (c : TtsClient)
    → find_handle h l ≡ some c
    → find_handle h (l ++ m) ≡ some c
unfolding find_handle
find_handle-append_found h [] m c e = cc
find_handle-append_found h (x ∷ l) m c e = ground (arith, find_handle-append_found h l m c)

destroy_from-append :
    (l : List TtsClient) (c : TtsClient)
    → find_handle c.handle l ≡ none
    → c.cb_ref_count ≡ pos 0
    → destroy_from c.handle (l ++ c ∷ []) ≡ some (pos 0, l)
unfolding find_handle destroy_from
destroy_from-append [] c e idle = rw (==ℤ_refl c.handle) (rw idle)
destroy_from-append (x ∷ l) c e idle = elim (Bool-cases (c.handle ==ℤ x.handle)) [
  | inl hit ↦ absurd (cc (rw hit at e))
  | inr miss ↦ rw miss (rw (destroy_from-append l c (rw miss at e) idle))
]

-- If no client of the list has the handle that comes next, then the new client is found by its handle,
-- the list is one longer, and destroying it at once succeeds and gives back the list as it was before.
pub client_destroy-new :
    (pid : ℕ) (s : Handles)
    → find_handle (generate_uid pid s).0 s.client_list ≡ none
    → let (h, t) = client_new pid s in
      (client_get (some h) t ≡ some (created_client pid h))
      × (client_get_size t ≡ suc (client_get_size s))
      × (client_destroy (some h) t ≡ some (pos 0, (generate_uid pid s).1))
unfolding client_new client_get client_get_size client_destroy find_handle generate_uid destroy_from
client_destroy-new pid s free = (
  find_handle-append _ s.client_list _ free ∙ rw (==ℤ_refl (generate_uid pid s).0),
  omega (arith, length-append s.client_list (created_client pid (generate_uid pid s).0 ∷ [])),
  rw (destroy_from-append s.client_list (created_client pid (generate_uid pid s).0) free refl),
)

-- The handle that comes next is not compared with those in use: if a client of the list has it, then
-- tts_client_new hands it out again, and what is found by it is the older client.
pub client_new_collides :
    (pid : ℕ) (s : Handles) (c : TtsClient)
    → find_handle (generate_uid pid s).0 s.client_list ≡ some c
    → let (h, t) = client_new pid s in
      (h ≡ (generate_uid pid s).0) × (client_get (some h) t ≡ some c)
unfolding client_new client_get generate_uid
client_new_collides pid s c used = (refl, find_handle-append_found _ s.client_list _ c used)

destroy_from_busy :
    (h : ℤ) (l : List TtsClient) (c : TtsClient)
    → find_handle h l ≡ some c
    → c.cb_ref_count ≡ pos 0
    → destroy_from h (change_client h use_once l) ≡ none
unfolding find_handle destroy_from
destroy_from_busy h [] c e idle = cc
destroy_from_busy h (x ∷ l) c e idle = elim (Bool-cases (h ==ℤ x.handle)) [
  | inl hit ↦
      rw hit (rw hit (rw (ap (λ y. y.cb_ref_count) (some-injective x c (rw hit at e)) ∙ idle)))
  | inr miss ↦ rw miss (rw miss (rw (destroy_from_busy h l c (rw miss at e) idle)))
]

int_pred-int_suc : (i : ℤ) → int_pred (int_suc i) ≡ i
int_pred-int_suc (pos n) = refl
int_pred-int_suc (negsuc zero) = refl
int_pred-int_suc (negsuc (suc n)) = refl

pub change_client-use :
    (h : ℤ) (l : List TtsClient) → change_client h release_once (change_client h use_once l) ≡ l
change_client-use h [] = refl
change_client-use h (x ∷ l) = elim (Bool-cases (h ==ℤ x.handle)) [
  | inl hit ↦ rw hit (rw hit (rw (int_pred-int_suc x.cb_ref_count)))
  | inr miss ↦ rw miss (rw miss (rw (change_client-use h l)))
]

-- While a callback uses a client that no other callback uses, tts_client_destroy of its handle does not
-- return; and the end of the use leaves the list as it was before the use.
pub client_use_callback-balanced :
    (h : ℤ) (s : Handles) (c : TtsClient)
    → client_get (some h) s ≡ some c
    → c.cb_ref_count ≡ pos 0
    → (client_destroy (some h) (client_use_callback h s) ≡ none)
      × (client_not_use_callback h (client_use_callback h s) ≡ s)
unfolding client_get client_destroy client_use_callback client_not_use_callback
client_use_callback-balanced h s c e idle = (
  rw (destroy_from_busy h s.client_list c e idle, client_destroy),
  rw (change_client-use h s.client_list),
)
