-- ===== src/Data/Foreach/Bounds.antt =====
-- The indices at which the loop of ttsd_data_foreach_clients (server/ttsd_data.cpp) reads.
use framework_uifw_voice_tts.Prelude.{
  ℕ, zero, suc, ◌+◌, ◌≤◌, ◌<◌, ◌≡◌, refl, ap, ◌⊎◌, inl, inr, true, none, some, List, [], ◌∷◌, arith,
  ℤ, length, get_elem?, Bool-cases,
}
use framework_uifw_voice_tts.Types.{AppState, AppData, error_none}
use framework_uifw_voice_tts.Data.Foreach.{Callback, foreach_loop, foreach_clients}

abbrev pub get_elem?-cases : (l : List AppData) (i : ℕ) → Type 0
get_elem?-cases l i =
    ((get_elem? l i ≡ none) × (length l ≤ i))
    ⊎ ((a : AppData) × (get_elem? l i ≡ some a) × (i < length l))

pub get_elem?_lem : (l : List AppData) (i : ℕ) → get_elem?-cases l i
get_elem?_lem [] i = inl (refl, omega arith)
get_elem?_lem (x ∷ l) zero = inr (x, refl, omega arith)
get_elem?_lem (x ∷ l) (suc i) = elim (get_elem?_lem l i) [
  | inl (e, h) ↦ inl (e, omega arith)
  | inr (a, e, h) ↦ inr (a, e, omega arith)
]

module _ (S : Type 0) (apps : S → List AppData) (callback : Callback S apps) where
  abbrev pub NeverShrinks : Type 0
  NeverShrinks =
      (pid uid : ℤ) (state : AppState) (s : S)
      → length (apps s) ≤ length (apps (callback pid uid state s).1)

  abbrev pub NeverGrows : Type 0
  NeverGrows =
      (pid uid : ℤ) (state : AppState) (s : S)
      → length (apps (callback pid uid state s).1) ≤ length (apps s)

  abbrev pub AlwaysGoesOn : Type 0
  AlwaysGoesOn = (pid uid : ℤ) (state : AppState) (s : S) → (callback pid uid state s).0 ≡ true

  foreach_loop_in_bounds :
      NeverShrinks
      → (n i : ℕ) (s : S) → i + n ≤ length (apps s)
      → (t : S) × (foreach_loop S apps n i callback s ≡ some t)
  unfolding foreach_loop
  foreach_loop_in_bounds keep zero i s h = (s, refl)
  foreach_loop_in_bounds keep (suc n) i s h = elim (get_elem?_lem (apps s) i) [
    | inl (e, far) ↦ absurd (omega arith)
    | inr (a, e, near) ↦ elim (Bool-cases (callback a.pid a.uid a.state s).0) [
      | inl on ↦
          rw (e, foreach_loop)
            (rw on (
              foreach_loop_in_bounds keep n (suc i) (callback a.pid a.uid a.state s).1
                (omega (arith, keep a.pid a.uid a.state s))))
      | inr off ↦ ((callback a.pid a.uid a.state s).1, rw (e, foreach_loop) (rw off))
    ]
  ]

  foreach_loop_out_of_bounds :
      NeverGrows
      → AlwaysGoesOn
      → (n i : ℕ) (s : S) → length (apps s) < i + n
      → 0 < n
      → foreach_loop S apps n i callback s ≡ none
  unfolding foreach_loop
  foreach_loop_out_of_bounds fall on zero i s h p = elim p [ ]
  foreach_loop_out_of_bounds fall on (suc n) i s h p = elim (get_elem?_lem (apps s) i) [
    | inl (e, far) ↦ rw (e, foreach_loop)
    | inr (a, e, near) ↦
        rw (e, foreach_loop)
          (rw (on a.pid a.uid a.state s) (
            foreach_loop_out_of_bounds fall on n (suc i) (callback a.pid a.uid a.state s).1
              (omega (arith, fall a.pid a.uid a.state s)) (omega arith)))
  ]

  -- With a callback that removes no client the loop ends, with success and inside the table.
  pub foreach_clients_returns :
      NeverShrinks
      → (s : S) → (t : S) × (foreach_clients S apps (some callback) s ≡ some (error_none, t))
  unfolding foreach_clients
  foreach_clients_returns keep s =
      let (t, e) = foreach_loop_in_bounds keep (length (apps s)) 0 s (omega arith) in
      (t, rw (e, foreach_clients))

  -- With a callback that always goes on and never adds a client, and which removes one at the first of
  -- two or more clients, the loop reads outside the table.
  pub foreach_clients_faults :
      NeverGrows
      → AlwaysGoesOn
      → (s : S) (a b : AppData) (l : List AppData) → apps s ≡ a ∷ b ∷ l
      → length (apps (callback a.pid a.uid a.state s).1) < length (apps s)
      → foreach_clients S apps (some callback) s ≡ none
  unfolding foreach_clients foreach_loop
  foreach_clients_faults fall on s a b l e h =
      rw (e, foreach_clients)
        (rw (e, foreach_loop)
          (rw (on a.pid a.uid a.state s) (
            rw (
              foreach_loop_out_of_bounds fall on (suc (length l)) 1
                (callback a.pid a.uid a.state s).1 (omega (arith, ap length e)) (omega arith)))))
