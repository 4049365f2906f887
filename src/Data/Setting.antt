-- ===== src/Data/Setting.antt =====
-- The list of setting clients of server/ttsd_data.cpp, and its functions.
use framework_uifw_voice_tts.Prelude.{
  ℕ, suc, ◌+◌, ◌≤◌, ◌≡◌, refl, ap, ◌∙◌, ◌⊎◌, inl, inr, not, List, [], ◌∷◌, ◌++◌, arith, ℤ, pos,
  negsuc, ◌==ℤ◌, erase_at, if◌then◌else◌, Bool-cases,
}
use framework_uifw_voice_tts.Types.{Store, error_none, error_invalid_parameter, minus_one}

-- The loop of ttsd_setting_data_is_setting from index `i` on.
unfoldable pub setting_index_from : ℕ → ℤ → List ℤ → ℤ
setting_index_from i pid [] = minus_one
setting_index_from i pid (p ∷ l) = if p ==ℤ pid then pos i else setting_index_from (suc i) pid l

unfoldable pub is_setting : ℤ → Store → ℤ
is_setting pid s = setting_index_from 0 pid s.setting_list

unfoldable pub setting_add : ℤ → Store → ℤ × Store
setting_add pid s =
    if not (is_setting pid s ==ℤ minus_one)
    then (error_invalid_parameter, s)
    else (error_none, record s { setting_list = s.setting_list ++ pid ∷ [] })

unfoldable pub setting_delete : ℤ → Store → ℤ × Store
setting_delete pid s = elim (is_setting pid s) [
  | negsuc _ ↦ (minus_one, s)
  | pos i ↦ (error_none, record s { setting_list = erase_at i s.setting_list })
]

abbrev pub count_pid : ℤ → List ℤ → ℕ
count_pid pid [] = 0
count_pid pid (p ∷ l) = if p ==ℤ pid then suc (count_pid pid l) else count_pid pid l

abbrev pub remove_pid : ℤ → List ℤ → List ℤ
remove_pid pid [] = []
remove_pid pid (p ∷ l) = if p ==ℤ pid then l else p ∷ remove_pid pid l

locate_setting_from :
    (k : ℕ) (pid : ℤ) (l : List ℤ)
    → ((setting_index_from k pid l ≡ minus_one) × (count_pid pid l ≡ 0))
      ⊎ ((i : ℕ) × (setting_index_from k pid l ≡ pos (k + i))
          × (erase_at i l ≡ remove_pid pid l)
          × (count_pid pid l ≡ suc (count_pid pid (remove_pid pid l))))
unfolding setting_index_from
locate_setting_from k pid [] = inl (refl, refl)
locate_setting_from k pid (p ∷ l) = elim (Bool-cases (p ==ℤ pid)) [
  | inl hit ↦ inr (0, rw hit (ap pos (omega arith)), rw hit, rw hit)
  | inr miss ↦ elim (locate_setting_from (suc k) pid l) [
    | inl (e, f) ↦ inl (rw miss e, rw miss f)
    | inr (i, e, r, c) ↦ inr (
      suc i,
      rw miss (e ∙ ap pos (omega arith)),
      rw miss (ap (λ m. p ∷ m) r),
      rw miss (rw miss c),
    )
  ]
]

-- ttsd_setting_data_is_setting returns -1 for a pid that the list does not hold, and else the index of
-- an entry whose erasure takes one occurrence of the pid off the list.
pub locate_setting :
    (pid : ℤ) (s : Store)
    → ((is_setting pid s ≡ minus_one) × (count_pid pid s.setting_list ≡ 0))
      ⊎ ((i : ℕ) × (is_setting pid s ≡ pos i)
          × (erase_at i s.setting_list ≡ remove_pid pid s.setting_list)
          × (count_pid pid s.setting_list ≡ suc (count_pid pid (remove_pid pid s.setting_list))))
unfolding is_setting
locate_setting pid s = elim (locate_setting_from 0 pid s.setting_list) [
  | inl m ↦ inl m
  | inr (i, e, r, c) ↦ inr (i, e ∙ ap pos (omega arith), r, c)
]

pub count_pid-append_end :
    (q pid : ℤ) (l : List ℤ)
    → count_pid q (l ++ pid ∷ []) ≡ count_pid q l + (if pid ==ℤ q then 1 else 0)
count_pid-append_end q pid [] = ground arith
count_pid-append_end q pid (p ∷ l) = ground (arith, count_pid-append_end q pid l)

pub count_pid-remove_le : (q pid : ℤ) (l : List ℤ) → count_pid q (remove_pid pid l) ≤ count_pid q l
count_pid-remove_le q pid [] = omega arith
count_pid-remove_le q pid (p ∷ l) = ground (arith, count_pid-remove_le q pid l)
