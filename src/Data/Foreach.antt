-- ===== src/Data/Foreach.antt =====
-- ttsd_data_foreach_clients of server/ttsd_data.cpp. Its loop takes the size of the table once, and then
-- reads the table by index while the callback may change it. `none` is a read outside the table.
pub mod Bounds
use framework_uifw_voice_tts.Prelude.{
  ℕ, zero, suc, ◌+◌, ◌≤◌, ◌<◌, ◌≡◌, ◌≢◌, refl, ap, ◌∙◌, ◌⊎◌, inl, inr, Bool, true, false, Option,
  none, some, List, [], ◌∷◌, arith, ℤ, length, get_elem?, if◌then◌else◌, Bool-cases,
}
use framework_uifw_voice_tts.Types.{AppState, AppData, error_none, minus_one}

module _ (S : Type 0) (apps : S → List AppData) where
  -- The callback returns whether to go on, and the state that it leaves.
  abbrev pub Callback : Type 0
  Callback = ℤ → ℤ → AppState → S → Bool × S

  -- The iterations that are left, from index `i` on.
  unfoldable pub foreach_loop : ℕ → ℕ → Callback → S → Option S
  foreach_loop zero i callback s = some s
  foreach_loop (suc n) i callback s = elim (get_elem? (apps s) i) [
    | none ↦ none
    | some a ↦ elim (callback a.pid a.uid a.state s).0 [
      | true ↦ foreach_loop n (suc i) callback (callback a.pid a.uid a.state s).1
      | false ↦ some (callback a.pid a.uid a.state s).1
    ]
  ]

  -- A missing callback is refused with -1.
  unfoldable pub foreach_clients : Option Callback → S → Option (ℤ × S)
  foreach_clients none s = some (minus_one, s)
  foreach_clients (some callback) s = elim (foreach_loop (length (apps s)) 0 callback s) [
    | none ↦ none
    | some t ↦ some (error_none, t)
  ]
