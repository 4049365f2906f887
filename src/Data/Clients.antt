-- ===== src/Data/Clients.antt =====
-- Registration in server/ttsd_data.cpp: new clients, deleted clients and their number.
use framework_uifw_voice_tts.Prelude.{
  suc, ◌≡◌, refl, ◌∙◌, inl, inr, none, some, List, [], ◌∷◌, arith, ℤ, ==ℤ_refl, length,
  length-append,
}
use framework_uifw_voice_tts.Types.{AppData, Store, error_none, error_invalid_parameter, minus_one}
use framework_uifw_voice_tts.Data.{new_client, new_app, delete_client, get_client_count, is_client}
use framework_uifw_voice_tts.Data.Locate.{find, remove, locate, with_apps, is_client-none}
use framework_uifw_voice_tts.Data.Lookup.{find-append_end, find-append_ne, find-remove_ne}
use framework_uifw_voice_tts.Data.Clear.{delete_client_lem}
use framework_uifw_voice_tts.Data.Invariant.{IsValid, find-remove_self}
use framework_uifw_voice_tts.Data.Queues.{SameOthers}

-- A uid that is not registered becomes a client in the state `ready` with empty queues, one more in the
-- count, and the other uids are as before.
pub new_client_registers :
    (pid uid : ℤ) (s : Store)
    → find uid s.app_list ≡ none
    → let (code, s') = new_client pid uid s in
      (code ≡ error_none)
      × (find uid s'.app_list ≡ some (new_app pid uid))
      × SameOthers uid s s'
      × (get_client_count s' ≡ suc (get_client_count s))
unfolding new_client get_client_count
new_client_registers pid uid s h = elim (locate uid s) [
  | inl (e, f) ↦
      rw (e, new_client)
        (
          refl,
          find-append_end uid s.app_list (new_app pid uid) h ∙ rw (==ℤ_refl uid),
          λ v ne. find-append_ne v s.app_list (new_app pid uid) ne,
          omega (arith, length-append s.app_list (new_app pid uid ∷ [])),
        )
  | inr (i, e, t) ↦ absurd (cc (t.found))
]

-- A uid that is registered already is refused, and nothing changes.
pub new_client_duplicate :
    (pid uid : ℤ) (s : Store) (a : AppData)
    → find uid s.app_list ≡ some a
    → new_client pid uid s ≡ (error_invalid_parameter, s)
unfolding new_client
new_client_duplicate pid uid s a h = elim (locate uid s) [
  | inl (e, f) ↦ absurd (cc (f))
  | inr (i, e, t) ↦ rw (e, new_client)
]

length-remove :
    (u : ℤ) (l : List AppData) (a : AppData)
    → find u l ≡ some a
    → length l ≡ suc (length (remove u l))
length-remove u [] a h = cc
length-remove u (x ∷ l) a h = ground (arith, length-remove u l a)

-- In well-formed tables a deleted client is gone, the count is one less, and the other uids are as
-- before.
pub delete_client_unregisters :
    (uid : ℤ) (s : Store) (a : AppData)
    → IsValid s
    → find uid s.app_list ≡ some a
    → let (code, s') = delete_client uid s in
      (code ≡ error_none)
      × (is_client uid s' ≡ minus_one)
      × SameOthers uid s s'
      × (suc (get_client_count s') ≡ get_client_count s)
unfolding get_client_count
delete_client_unregisters uid s a v h =
    rw (delete_client_lem uid s, h)
      (
        refl,
        is_client-none uid (with_apps s (remove uid s.app_list))
            (find-remove_self uid s.app_list (v.uids uid)),
        λ w ne. find-remove_ne uid w s.app_list ne,
        omega (arith, length-remove uid s.app_list a h),
      )
