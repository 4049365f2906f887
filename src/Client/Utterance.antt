-- ===== src/Client/Utterance.antt =====
-- The utterance ids that tts_add_text of client/tts.c hands out.
use Prim.Native.String.{String}
use framework_uifw_voice_tts.Prelude.{
  ℕ, zero, suc, ◌+◌, ◌%◌, ◌≡◌, refl, ap, ◌∙◌, true, false, Option, some, List, [], ◌∷◌, ℤ, pos,
  arith, length,
}
use framework_uifw_voice_tts.Action.{Keeps, pure, ◌>>=◌}
use framework_uifw_voice_tts.Client.{TtsClient, Handles, find_handle, client_get}
use framework_uifw_voice_tts.Client.Find.{find_handle-change}
use framework_uifw_voice_tts.Client.Link.{
  LibPlatform, Library, ask_handles, on_handles, request_add_text,
}
use framework_uifw_voice_tts.Client.Api.{
  is_created, next_utt_id, count_utterance, language_or_default, write_client, add_text,
}
use framework_uifw_voice_tts.Client.Settled.{Holds}
use framework_uifw_voice_tts.Client.Settled.Requests.{request_rules}

-- The id that a client has after so many texts: 0, then 1 to 9999 again and again.
abbrev pub id_after : ℕ → ℤ
id_after zero = pos 0
id_after (suc n) = pos (n % 9999 + 1)

-- The ids of so many texts, from the one behind `n` on.
unfoldable pub ids_from : ℕ → ℕ → List (Option ℤ)
ids_from n zero = []
ids_from n (suc k) = some (id_after (suc n)) ∷ ids_from (suc n) k

next_utt_id-after : (n : ℕ) → next_utt_id (id_after n) ≡ id_after (suc n)
next_utt_id-after zero = refl
next_utt_id-after (suc n) = ground arith

module _ (p : LibPlatform) where
  open p use {World}

  request_add_text-Keeps :
      {P : Handles → Type 0} (uid : ℤ) (text : Option String) (lang : String) (voice speed id : ℤ)
      → Keeps (Holds P) (request_add_text p uid text lang voice speed id)
  unfolding request_add_text
  request_add_text-Keeps uid text lang voice speed id = search request_rules depth 20

  request_add_text-handles :
      (uid : ℤ) (text : Option String) (lang : String) (voice speed id : ℤ) (d : Library World)
      → (request_add_text p uid text lang voice speed id d).1.handles ≡ d.handles
  request_add_text-handles uid text lang voice speed id d =
      ((request_add_text-Keeps {P = λ s. s ≡ d.handles} uid text lang voice speed id).at d
        (record { holds = refl })).holds

  -- A text for a handle that is prepared takes the next id, whatever the daemon answers.
  add_text_counts :
      (h : ℤ) (c : TtsClient) (text lang : Option String) (voice speed : ℤ) (d : Library World)
      → find_handle h d.handles.client_list ≡ some c
      → is_created c.current_state ≡ false
      → let (r, e) = add_text p (some h) text lang voice speed true d in
        (r.1 ≡ some (next_utt_id c.current_utt_id))
        × (find_handle h e.handles.client_list ≡ some (count_utterance c))
  unfolding add_text ask_handles on_handles client_get pure ◌>>=◌
  add_text_counts h c text lang voice speed d here prepared = rw here (
      rw prepared (
        refl,
        ap (λ s. find_handle h s.client_list)
              (request_add_text-handles c.uid text (language_or_default lang) voice speed
                (next_utt_id c.current_utt_id) ((write_client p h count_utterance d).1))
            ∙ find_handle-change h count_utterance d.handles.client_list c (λ x. refl) here,
      ))

  -- Texts that are added to a handle one after another, with the ids that are handed out.
  unfoldable pub add_each :
      ℤ
      → Option String
      → ℤ
      → ℤ
      → List (Option String)
      → Library World
      → List (Option ℤ) × Library World
  add_each h lang voice speed [] d = ([], d)
  add_each h lang voice speed (text ∷ texts) d =
      let (r, e) = add_text p (some h) text lang voice speed true d in
      let (ids, f) = add_each h lang voice speed texts e in (r.1 ∷ ids, f)

  -- The texts that are added to a handle which is prepared and has had `n` texts get the ids that follow:
  -- the text number k, counted from 1, gets (k - 1) % 9999 + 1. A text that the daemon refuses or that is
  -- NULL takes an id like any other.
  pub add_each-ids :
      (h : ℤ) (c : TtsClient) (n : ℕ) (lang : Option String) (voice speed : ℤ)
      (texts : List (Option String)) (d : Library World)
      → find_handle h d.handles.client_list ≡ some c
      → is_created c.current_state ≡ false
      → c.current_utt_id ≡ id_after n
      → (add_each h lang voice speed texts d).0 ≡ ids_from n (length texts)
  unfolding add_each ids_from
  add_each-ids h c n lang voice speed [] d here prepared count = refl
  add_each-ids h c n lang voice speed (text ∷ texts) d here prepared count =
      let added = add_text_counts h c text lang voice speed d here prepared in
      let next = ap next_utt_id count ∙ next_utt_id-after n in
      rw added.0 (
        rw next (
          ap (λ l. some (id_after (suc n)) ∷ l)
            (add_each-ids h (count_utterance c) (suc n) lang voice speed texts
              (add_text p (some h) text lang voice speed true d).1 added.1 prepared next)))
