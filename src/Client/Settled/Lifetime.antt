-- ===== src/Client/Settled/Lifetime.antt =====
-- Making and destroying a handle, in client/tts.c.
use framework_uifw_voice_tts.Prelude.{
  true, false, suc, ◌≡◌, refl, ap, ◌∙◌, Bool, inl, inr, Option, none, some, List, [], ◌∷◌, ℤ, pos,
  ◌==ℤ◌, Bool-cases, length, ◌==◌,
}
use framework_uifw_voice_tts.Types.{error_none, error_invalid_parameter}
use framework_uifw_voice_tts.Action.{Keeps, pure, ◌>>=◌}
use framework_uifw_voice_tts.Client.{
  TtsClient, Handles, client_new, generate_uid, find_handle, destroy_from, client_destroy,
  client_get, client_get_size,
}
use framework_uifw_voice_tts.Client.Find.{destroy_from_idle}
use framework_uifw_voice_tts.Client.Link.{
  LibPlatform, Library, ask_handles, on_handles, request_finalize,
}
use framework_uifw_voice_tts.Client.Api.{
  is_other, create, close_if_last, finalize_if_prepared, destroy_found, destroy,
}
use framework_uifw_voice_tts.Client.Settled.{
  IsSettled, Each, each_nil, each_cons, Each-append, IsAllSettled, Holds, Keeps-on_handles,
}
use framework_uifw_voice_tts.Client.Settled.Requests.{request_rules}

-- The client with a handle is taken off a list of settled clients at once.
destroy_from-IsSettled :
    (h : ℤ) (l : List TtsClient) (c : TtsClient)
    → find_handle h l ≡ some c
    → Each IsSettled l
    → (m : List TtsClient) × (destroy_from h l ≡ some (pos 0, m))
      × (suc (length m) ≡ length l)
      × Each IsSettled m
unfolding find_handle destroy_from
destroy_from-IsSettled h [] c e each_nil = absurd (cc e)
destroy_from-IsSettled h (x ∷ l) c e (each_cons s t) = elim (Bool-cases (h ==ℤ x.handle)) [
  | inl hit ↦ (l, rw hit (rw s.idle), refl, t)
  | inr miss ↦
      let r = destroy_from-IsSettled h l c (rw miss at e) t in
      (x ∷ r.0, rw miss (rw r.1), ap suc r.2, each_cons s r.3)
]

client_destroy_settled :
    (h : ℤ) (s : Handles) (c : TtsClient)
    → find_handle h s.client_list ≡ some c
    → IsAllSettled s
    → (t : Handles) × (client_destroy (some h) s ≡ some (pos 0, t))
      × (suc (client_get_size t) ≡ client_get_size s)
      × IsAllSettled t
unfolding client_destroy client_get_size
client_destroy_settled h s c found settled =
    let r = destroy_from-IsSettled h s.client_list c found settled in
    (record s { client_list = r.0 }, rw (r.1, client_destroy) refl, r.2, r.3)

module _ (p : LibPlatform) where
  open p use {World, pid}

  finalize_if_prepared-Keeps :
      {P : Handles → Type 0} (c : TtsClient) → Keeps (Holds P) (finalize_if_prepared p c)
  unfolding finalize_if_prepared request_finalize
  finalize_if_prepared-Keeps c = search request_rules depth 20

  close_if_last-Keeps : {P : Handles → Type 0} → Keeps (Holds P) (close_if_last p)
  unfolding close_if_last
  close_if_last-Keeps = search request_rules depth 20

  finalize_if_prepared-handles :
      (c : TtsClient) (d : Library World) → (finalize_if_prepared p c d).1.handles ≡ d.handles
  finalize_if_prepared-handles c d =
      ((finalize_if_prepared-Keeps {P = λ s. s ≡ d.handles} c).at d (record { holds = refl })).holds

  close_if_last-handles : (d : Library World) → (close_if_last p d).1.handles ≡ d.handles
  close_if_last-handles d =
      ((close_if_last-Keeps {P = λ s. s ≡ d.handles}).at d (record { holds = refl })).holds

  close_if_last_code : (d : Library World) → (close_if_last p d).0 ≡ error_none
  unfolding close_if_last ◌>>=◌ pure ask_handles
  close_if_last_code d = elim (Bool-cases (client_get_size d.handles == 0)) [
    | inl last ↦ rw last refl
    | inr more ↦ rw more refl
  ]

  -- Where the state is none of the four, the call returns too.
  destroy_found_other :
      (h : ℤ) (c : TtsClient) (d : Library World)
      → is_other c.current_state ≡ true
      → Holds IsAllSettled d
      → (e : Library World) × (destroy_found p h c d ≡ some (error_none, e)) × Holds IsAllSettled e
  unfolding destroy_found
  destroy_found_other h c d other settled = (
    (close_if_last p d).1,
    rw other (ap (λ code. some (code, (close_if_last p d).1)) (close_if_last_code d)),
    close_if_last-Keeps.at d settled,
  )

  -- A handle whose client is found is destroyed: the call returns with success, one client less is on the
  -- list, and those that stay are settled.
  pub destroy_found_settled :
      (h : ℤ) (c : TtsClient) (d : Library World)
      → find_handle h d.handles.client_list ≡ some c
      → is_other c.current_state ≡ false
      → Holds IsAllSettled d
      → (e : Library World) × (destroy_found p h c d ≡ some (error_none, e))
        × (suc (client_get_size e.handles) ≡ client_get_size d.handles)
        × Holds IsAllSettled e
  unfolding destroy_found
  destroy_found_settled h c d found known settled =
      let r = client_destroy_settled h d.handles c found settled.holds in
      let e = record ((finalize_if_prepared p c d).1) { handles = r.0 } in
      let gone = ap (client_destroy (some h)) (finalize_if_prepared-handles c d) ∙ r.1 in
      let same = close_if_last-handles e in
      (
        (close_if_last p e).1,
        rw known (rw gone (ap (λ code. some (code, (close_if_last p e).1)) (close_if_last_code e))),
        rw same r.2,
        record { holds = rw same r.3 },
      )

  -- A client that no callback uses is destroyed, also while a callback uses another.
  pub destroy_found_idle :
      (h : ℤ) (c : TtsClient) (d : Library World)
      → find_handle h d.handles.client_list ≡ some c
      → is_other c.current_state ≡ false
      → c.cb_ref_count ≡ pos 0
      → (e : Library World) × (destroy_found p h c d ≡ some (error_none, e))
        × (suc (client_get_size e.handles) ≡ client_get_size d.handles)
  unfolding destroy_found client_destroy client_get_size
  destroy_found_idle h c d found known idle =
      let r = destroy_from_idle h d.handles.client_list c found idle in
      let e = record ((finalize_if_prepared p c d).1) {
        handles = record (d.handles) { client_list = r.0 };
      } in
      (
        (close_if_last p e).1,
        rw known (
            rw (finalize_if_prepared-handles c d) (
              rw (r.1, client_destroy)
                (ap (λ code. some (code, (close_if_last p e).1)) (close_if_last_code e)))),
        ap (λ s. suc (length s.client_list)) (close_if_last-handles e) ∙ r.2,
      )

  -- A client that is waited for is not.
  pub destroy_found_busy :
      (h : ℤ) (c : TtsClient) (d : Library World)
      → is_other c.current_state ≡ false
      → client_destroy (some h) d.handles ≡ none
      → destroy_found p h c d ≡ none
  unfolding destroy_found
  destroy_found_busy h c d known busy =
      rw known (rw (finalize_if_prepared-handles c d) (rw busy refl))

  -- The client that tts_client_new puts on the list is settled.
  Keeps-new : Keeps (Holds {World = World} IsAllSettled) (on_handles (λ s. (client_new pid s).1))
  unfolding client_new generate_uid
  Keeps-new = Keeps-on_handles _ (λ s e.
      Each-append s.client_list _ e
        (each_cons (record { idle = refl; counted = refl; in_range = refl }) each_nil))

  pub create-Keeps : (out : Bool) → Keeps (Holds IsAllSettled) (create p out)
  unfolding create
  create-Keeps out = search (request_rules, Keeps-new) depth 20

  -- tts_destroy returns, whatever its argument, and leaves settled clients.
  pub destroy_settled :
      (tts : Option ℤ) (d : Library World)
      → Holds IsAllSettled d
      → (code : ℤ) × (e : Library World) × (destroy p tts d ≡ some (code, e)) × Holds IsAllSettled e
  unfolding destroy client_get
  destroy_settled none d settled = (error_invalid_parameter, d, refl, settled)
  destroy_settled (some h) d settled = destroy_as (find_handle h d.handles.client_list) refl
    where
      destroy_as :
          (o : Option TtsClient)
          → find_handle h d.handles.client_list ≡ o
          → (code : ℤ) × (e : Library World) × (destroy p (some h) d ≡ some (code, e))
            × Holds IsAllSettled e
      destroy_as none e = (error_invalid_parameter, d, rw e refl, settled)
      destroy_as (some c) e = elim (Bool-cases (is_other c.current_state)) [
        | inl other ↦
            let r = destroy_found_other h c d other settled in (error_none, r.0, rw e r.1, r.2)
        | inr known ↦
            let r = destroy_found_settled h c d e known settled in (error_none, r.0, rw e r.1, r.3)
      ]
