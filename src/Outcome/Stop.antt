-- ===== src/Outcome/Stop.antt =====
-- ttsd_server_stop: the tables and the engine after it.
use framework_uifw_voice_tts.Prelude.{
  ◌≡◌, refl, ap, ◌∙◌, inl, inr, Bool, false, ◌||◌, none, some, ℤ, if◌then◌else◌, Bool-cases, arith,
}
use framework_uifw_voice_tts.Types.{
  AppState, state_created, state_ready, AppData, Store, is_playing, error_none,
  error_invalid_parameter,
}
use framework_uifw_voice_tts.Data.{clear_data, set_client_state, write_state}
use framework_uifw_voice_tts.Data.Locate.{
  find, update, with_apps, get_client_state_lem, set_client_state_lem,
}
use framework_uifw_voice_tts.Data.Lookup.{find-update_self, find-update_ne}
use framework_uifw_voice_tts.Data.Clear.{cleared, clear_data_lem, cleared-KeepsUid}
use framework_uifw_voice_tts.Data.Queues.{SameOthers}
use framework_uifw_voice_tts.Action.{pure, ◌>>=◌}
use framework_uifw_voice_tts.Platform.{Platform}
use framework_uifw_voice_tts.Daemon.{Daemon, outside, on_store, ask_store}
use framework_uifw_voice_tts.Player
use framework_uifw_voice_tts.Player.Messages.{is_paused}
use framework_uifw_voice_tts.Server.{
  get_current_synthesis, set_is_synthesizing, cancel_if_synthesizing, stop,
}
use framework_uifw_voice_tts.Outcome.Frame.{stop-tables, stop-busy}

abbrev pub is_active : AppState → Bool
is_active state = is_playing state || is_paused state

-- The entry of a client that was stopped.
abbrev pub stopped : AppData → AppData
stopped a = record (cleared a) { state = if is_active a.state then state_ready else a.state }

module _ (p : Platform) where
  open p use {World, agent}

  abbrev pub with_store : Daemon World → Store → Daemon World
  with_store d s = record d { store = s }

  cancel_if_synthesizing_lem :
      (d : Daemon World)
      → ((cancel_if_synthesizing p d).1.store ≡ d.store)
        × ((cancel_if_synthesizing p d).1.is_synthesizing ≡ false)
  unfolding cancel_if_synthesizing get_current_synthesis set_is_synthesizing outside ◌>>=◌ pure
  cancel_if_synthesizing_lem d = elim (Bool-cases d.is_synthesizing) [
    | inl on ↦ rw on (refl, refl)
    | inr off ↦ rw off (refl, refl)
  ]

  cancel_if_synthesizing-world :
      (d : Daemon World)
      → (cancel_if_synthesizing p d).1.world
        ≡ (if d.is_synthesizing then (agent.cancel_synthesis d.world).1 else d.world)
  unfolding cancel_if_synthesizing get_current_synthesis set_is_synthesizing outside ◌>>=◌ pure
  cancel_if_synthesizing-world d = elim (Bool-cases d.is_synthesizing) [
    | inl on ↦ rw on refl
    | inr off ↦ rw off refl
  ]

  -- What ttsd_server_stop has done to the daemon when the player has been stopped.
  abbrev pub player_stopped : ℤ → Daemon World → Daemon World
  player_stopped uid d =
      (Player.stop p uid
        (with_store d (set_client_state uid state_ready (clear_data uid d.store).1).1)).1

  player_stopped_lem :
      (uid : ℤ) (d : Daemon World)
      → (player_stopped uid d).store
        ≡ (set_client_state uid state_ready (clear_data uid d.store).1).1
  player_stopped_lem uid d =
      ((stop-tables p {T = λ s. s ≡ (set_client_state uid state_ready (clear_data uid d.store).1).1}
          uid).at
        _ (record { holds = record { on_tables = refl } })).holds.on_tables

  stop_lem :
      (uid : ℤ) (d : Daemon World) (a : AppData)
      → find uid d.store.app_list ≡ some a
      → stop p uid d ≡ (
        error_none,
        if is_active a.state
            then (cancel_if_synthesizing p (player_stopped uid d)).1
            else with_store d (clear_data uid d.store).1,
      )
  unfolding stop ask_store on_store ◌>>=◌ pure
  stop_lem uid d a h =
      rw (get_client_state_lem uid state_created d.store, h)
        (elim (Bool-cases (is_active a.state)) [ inl on ↦ rw on | inr off ↦ rw off ])

  -- A request of an unregistered client is refused and changes nothing.
  stop_unregistered :
      (uid : ℤ) (d : Daemon World)
      → find uid d.store.app_list ≡ none
      → stop p uid d ≡ (error_invalid_parameter, d)
  unfolding stop ask_store ◌>>=◌ pure
  stop_unregistered uid d h = rw (get_client_state_lem uid state_created d.store, h)

  cleared_store :
      (uid : ℤ) (s : Store) (a : AppData)
      → find uid s.app_list ≡ some a
      → (clear_data uid s).1 ≡ with_apps s (update uid cleared s.app_list)
  cleared_store uid s a h = rw (clear_data_lem uid s, h)

  readied_store :
      (uid : ℤ) (s : Store) (a : AppData)
      → find uid s.app_list ≡ some a
      → (set_client_state uid state_ready (clear_data uid s).1).1
        ≡ with_apps s (update uid (write_state state_ready) (update uid cleared s.app_list))
  readied_store uid s a h = rw (
    cleared_store uid s a h,
    set_client_state_lem uid state_ready (with_apps s (update uid cleared s.app_list)),
    find-update_self uid cleared s.app_list cleared-KeepsUid,
    h,
  )

  -- The store that a request of a registered client to stop leaves.
  stopped_store :
      (uid : ℤ) (d : Daemon World) (a : AppData)
      → find uid d.store.app_list ≡ some a
      → (stop p uid d).1.store ≡ (
          if is_active a.state
          then with_apps d.store
              (update uid (write_state state_ready) (update uid cleared d.store.app_list))
          else with_apps d.store (update uid cleared d.store.app_list))
  stopped_store uid d a h = rw (stop_lem uid d a h) (elim (Bool-cases (is_active a.state)) [
    | inl on ↦ rw on (
        (cancel_if_synthesizing_lem (player_stopped uid d)).0
        ∙ player_stopped_lem uid d
        ∙ readied_store uid d.store a h)
    | inr off ↦ rw off (cleared_store uid d.store a h)
  ])

  -- What the request does outside: nothing for a client that is neither playing nor paused.
  stopped_world :
      (uid : ℤ) (d : Daemon World) (a : AppData)
      → find uid d.store.app_list ≡ some a
      → (stop p uid d).1.world ≡ (
          let w = (player_stopped uid d).world in
          if is_active a.state
          then (if d.is_synthesizing then (agent.cancel_synthesis w).1 else w)
          else d.world)
  stopped_world uid d a h = rw (stop_lem uid d a h) (elim (Bool-cases (is_active a.state)) [
    | inl on ↦ rw on (
        cancel_if_synthesizing-world (player_stopped uid d)
        ∙ ap
            (λ b.
              if b
              then (agent.cancel_synthesis (player_stopped uid d).world).1
              else (player_stopped uid d).world)
            ((stop-busy p {busy = d.is_synthesizing} uid).at
              (with_store d (set_client_state uid state_ready (clear_data uid d.store).1).1)
              (record { busy_is = refl })).busy_is)
    | inr off ↦ rw off refl
  ])

  -- A request of a registered client to stop succeeds. Both its queues are emptied, and its state
  -- becomes `ready` if it was playing or paused and stays otherwise; the entries of the other uids are
  -- as before. If it was playing or paused, the engine counts as idle afterwards, and if it counted as
  -- busy, whichever client that was for, the last thing that is done outside, after the player has been
  -- stopped, is to ask the engine to cancel; what the engine answers to that makes no difference.
  pub stop_outcome :
      (uid : ℤ) (d : Daemon World) (a : AppData)
      → find uid d.store.app_list ≡ some a
      → let (code, e) = stop p uid d in
        let w = (player_stopped uid d).world in
        (code ≡ error_none)
        × (find uid e.store.app_list ≡ some (stopped a))
        × SameOthers uid d.store e.store
        × (e.is_synthesizing ≡ (if is_active a.state then false else d.is_synthesizing))
        × (e.world ≡ (
            if is_active a.state
            then (if d.is_synthesizing then (agent.cancel_synthesis w).1 else w)
            else d.world))
  stop_outcome uid d a h =
      rw (stopped_world uid d a h, stopped_store uid d a h)
        (rw (stop_lem uid d a h) (elim (Bool-cases (is_active a.state)) [
          | inl on ↦ rw on (
            refl,
            rw
                (
                  find-update_self uid (write_state state_ready)
                      (update uid cleared d.store.app_list) (λ x. refl),
                  find-update_self uid cleared d.store.app_list cleared-KeepsUid,
                  h,
                )
                refl,
            λ v ne.
                find-update_ne uid v (write_state state_ready) _ (λ x. refl) ne
                ∙ find-update_ne uid v cleared d.store.app_list cleared-KeepsUid ne,
            (cancel_if_synthesizing_lem (player_stopped uid d)).1,
            refl,
          )
          | inr off ↦ rw off (
            refl,
            rw (find-update_self uid cleared d.store.app_list cleared-KeepsUid, h) (ground arith),
            λ v ne. find-update_ne uid v cleared d.store.app_list cleared-KeepsUid ne,
            refl,
            refl,
          )
        ]))
