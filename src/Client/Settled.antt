-- ===== src/Client/Settled.antt =====
-- What holds of every client of the library between two calls, and the rules that carry it through the
-- functions of client/tts.c.
pub mod Requests
pub mod Calls
pub mod Notices
pub mod Lifetime
use framework_uifw_voice_tts.Prelude.{
  ℕ, ◌≡◌, refl, Bool, true, false, inl, inr, Option, none, some, List, [], ◌∷◌, ◌++◌, ℤ, pos,
  is_negative, ltb_ℤ, ◌==ℤ◌, arith, Bool-cases,
}
use framework_uifw_voice_tts.Action.{Action, Leads, Keeps, keeps_rules}
use framework_uifw_voice_tts.Client.{
  TtsState, TtsClient, Handles, created_client, change_client, client_new, generate_uid,
}
use framework_uifw_voice_tts.Client.Link.{
  LibTimer, Library, external, ask_handles, on_handles, set_conn, get_conn, get_is_daemon_started,
  set_is_daemon_started, add_timer,
}
use framework_uifw_voice_tts.Client.Notify.{change_by_uid}

-- No callback uses the client, and the id of its last utterance is between 0 and 9999.
pub record IsSettled (c : TtsClient) : Type 0 where
  pub idle : c.cb_ref_count ≡ pos 0
  pub counted : is_negative c.current_utt_id ≡ false
  pub in_range : ltb_ℤ c.current_utt_id (pos 10000) ≡ true

pub data Each (P : TtsClient → Type 0) : List TtsClient → Type 0 where
  each_nil : Each P []
  each_cons : {c : TtsClient} {l : List TtsClient} → P c → Each P l → Each P (c ∷ l)

pub Each-append :
    {P : TtsClient → Type 0} (l m : List TtsClient) → Each P l → Each P m → Each P (l ++ m)
Each-append [] m each_nil q = q
Each-append (c ∷ l) m (each_cons h t) q = each_cons h (Each-append l m t q)

module _ {P : TtsClient → Type 0} (f : TtsClient → TtsClient)
    (keep : (c : TtsClient) → P c → P (f c)) where
  pub change_client-Each : (h : ℤ) (l : List TtsClient) → Each P l → Each P (change_client h f l)
  change_client-Each h [] each_nil = each_nil
  change_client-Each h (c ∷ l) (each_cons x t) = elim (Bool-cases (h ==ℤ c.handle)) [
    | inl hit ↦ rw hit (each_cons (keep c x) t)
    | inr miss ↦ rw miss (each_cons x (change_client-Each h l t))
  ]

  pub change_by_uid-Each : (u : ℤ) (l : List TtsClient) → Each P l → Each P (change_by_uid u f l)
  change_by_uid-Each u [] each_nil = each_nil
  change_by_uid-Each u (c ∷ l) (each_cons x t) = elim (Bool-cases (u ==ℤ c.uid)) [
    | inl hit ↦ rw hit (each_cons (keep c x) t)
    | inr miss ↦ rw miss (each_cons x (change_by_uid-Each u l t))
  ]

-- A condition on the handles, which the rest of the library's state does not bear on.
pub record Holds {World : Type 0} (P : Handles → Type 0) (d : Library World) : Type 0 where
  pub holds : P d.handles

module _ {World : Type 0} {P : Handles → Type 0} where
  pub Keeps-external : {A : Type 0} (f : World → A × World) → Keeps (Holds P) (external f)
  unfolding external
  Keeps-external f = record { at = λ d h. record { holds = h.holds } }

  pub Keeps-ask_handles :
      {A : Type 0} (f : Handles → A) → Keeps (Holds {World = World} P) (ask_handles f)
  unfolding ask_handles
  Keeps-ask_handles f = record { at = λ d h. h }

  pub Keeps-set_conn : (b : Bool) → Keeps (Holds {World = World} P) (set_conn b)
  unfolding set_conn
  Keeps-set_conn b = record { at = λ d h. record { holds = h.holds } }

  pub Keeps-get_conn : Keeps (Holds {World = World} P) get_conn
  unfolding get_conn
  Keeps-get_conn = record { at = λ d h. h }

  pub Keeps-get_started : Keeps (Holds {World = World} P) get_is_daemon_started
  unfolding get_is_daemon_started
  Keeps-get_started = record { at = λ d h. h }

  pub Keeps-set_started : Keeps (Holds {World = World} P) set_is_daemon_started
  unfolding set_is_daemon_started
  Keeps-set_started = record { at = λ d h. record { holds = h.holds } }

  pub Keeps-add_timer : (t : LibTimer) → Keeps (Holds {World = World} P) (add_timer t)
  unfolding add_timer
  Keeps-add_timer t = record { at = λ d h. record { holds = h.holds } }

  pub Keeps-on_handles :
      (f : Handles → Handles)
      → ((s : Handles) → P s → P (f s))
      → Keeps (Holds {World = World} P) (on_handles f)
  unfolding on_handles
  Keeps-on_handles f keep = record { at = λ d h. record { holds = keep d.handles h.holds } }

-- Every client of the library is settled.
abbrev pub IsAllSettled : Handles → Type 0
IsAllSettled s = Each IsSettled s.client_list

pub ruleset library_rules = (
  keeps_rules, Keeps-external, Keeps-ask_handles, Keeps-set_conn, Keeps-get_conn, Keeps-get_started,
  Keeps-set_started, Keeps-add_timer,
)
