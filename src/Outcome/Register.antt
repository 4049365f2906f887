-- ===== src/Outcome/Register.antt =====
-- ttsd_server_initialize and ttsd_server_finalize: the table of clients after them.
use framework_uifw_voice_tts.Prelude.{
  ◌≡◌, refl, ap, ◌∙◌, ◌⊎◌, inl, inr, true, false, not, ◌||◌, ◌==◌, none, some, List, [], ◌∷◌, ◌++◌,
  ℤ, ◌==ℤ◌, ==ℤ_refl, is_nonzero, if◌then◌else◌, Bool-cases, Option-cases,
}
use framework_uifw_voice_tts.Types.{
  AppData, Store, state_created, error_none, error_operation_failed, minus_one,
}
use framework_uifw_voice_tts.Data.{is_client, new_app, new_client, delete_client}
use framework_uifw_voice_tts.Data.Locate.{find, is_client-none, get_client_state_lem}
use framework_uifw_voice_tts.Data.Queues.{SameOthers}
use framework_uifw_voice_tts.Data.Clients.{new_client_registers, delete_client_unregisters}
use framework_uifw_voice_tts.Action.{Keeps, pure, ◌>>=◌}
use framework_uifw_voice_tts.Platform.{Platform}
use framework_uifw_voice_tts.Daemon.{
  Daemon, Player, PlayerItem, on_store, ask_store, on_player, ask_player, outside,
}
use framework_uifw_voice_tts.Player.Items.{get_item, new_item}
use framework_uifw_voice_tts.Player.{
  create_new, create_instance, destroy_handle, destroy_found, destroy_instance,
}
use framework_uifw_voice_tts.Server.{stop}
use framework_uifw_voice_tts.Server.Client.{
  require_engine, load_for_first, unload_for_last, initialize, finalize,
}
use framework_uifw_voice_tts.Invariant.Rules.{Holds, IsWell, state_rules}
use framework_uifw_voice_tts.Invariant.Server.{Keeps-set_is_engine, Keeps-get_is_engine, stop-Keeps}
use framework_uifw_voice_tts.Outcome.Frame.{OnTables, table_rules}
use framework_uifw_voice_tts.Outcome.Stop.{stopped, stop_outcome}

get_item-append :
    (uid : ℤ) (l : List PlayerItem) (i : PlayerItem)
    → get_item uid l ≡ none
    → i.uid ≡ uid
    → get_item uid (l ++ i ∷ []) ≡ some i
unfolding get_item
get_item-append uid [] i free same = rw same (rw (==ℤ_refl uid) refl)
get_item-append uid (x ∷ l) i free same = elim (Bool-cases (x.uid ==ℤ uid)) [
  | inl hit ↦ absurd (cc (rw hit at free))
  | inr miss ↦ rw miss (get_item-append uid l i (rw miss at free) same)
]

module _ (p : Platform) where
  open p use {World, mm}

  ruleset register_rules = (table_rules, Keeps-set_is_engine, Keeps-get_is_engine)

  module _ {P : Store → Player → Type 0} where
    require_engine-players : Keeps (Holds P) (require_engine p)
    unfolding require_engine
    require_engine-players = search (state_rules, Keeps-set_is_engine, Keeps-get_is_engine) depth 20

    load_for_first-players : Keeps (Holds P) (load_for_first p)
    unfolding load_for_first
    load_for_first-players = search state_rules depth 20

  module _ {T : Store → Type 0} where
    require_engine-tables : Keeps (Holds (OnTables T)) (require_engine p)
    unfolding require_engine
    require_engine-tables = search register_rules depth 20

    load_for_first-tables : Keeps (Holds (OnTables T)) (load_for_first p)
    unfolding load_for_first
    load_for_first-tables = search register_rules depth 20

    unload_for_last-tables : Keeps (Holds (OnTables T)) (unload_for_last p)
    unfolding unload_for_last
    unload_for_last-tables = search register_rules depth 20

    create_instance-tables : (uid : ℤ) → Keeps (Holds (OnTables T)) (create_instance p uid)
    unfolding create_instance create_new
    create_instance-tables uid = search register_rules depth 20

    destroy_instance-tables : (uid : ℤ) → Keeps (Holds (OnTables T)) (destroy_instance p uid)
    unfolding destroy_instance destroy_found destroy_handle
    destroy_instance-tables uid = search register_rules depth 20

  -- What such a rule says of the tables themselves.
  tables_same :
      {A : Type 0} (m : Daemon World → A × Daemon World) (d : Daemon World)
      → Keeps (Holds (OnTables (λ s. s ≡ d.store))) m
      → (m d).1.store ≡ d.store
  tables_same m d keeps =
      (keeps.at d (record { holds = record { on_tables = refl } })).holds.on_tables

  -- What the request has done to the daemon before the client is put into the table.
  abbrev loaded : Daemon World → Daemon World
  loaded d = (load_for_first p (require_engine p d).1).1

  loaded-store : (d : Daemon World) → (loaded d).store ≡ d.store
  loaded-store d =
      tables_same (load_for_first p) (require_engine p d).1 load_for_first-tables
      ∙ tables_same (require_engine p) d require_engine-tables

  abbrev with_client : ℤ → ℤ → Daemon World → Daemon World
  with_client pid uid d = (on_store (new_client pid uid) (loaded d)).1

  loaded-player : (d : Daemon World) → (loaded d).player ≡ d.player
  loaded-player d =
      ((load_for_first-players {P = λ s q. q ≡ d.player}).at (require_engine p d).1
        (require_engine-players.at d (record { holds = refl }))).holds

  with_client-player : (pid uid : ℤ) (d : Daemon World) → (with_client pid uid d).player ≡ d.player
  unfolding on_store
  with_client-player pid uid d = loaded-player d

  unknown_before :
      (uid : ℤ) (d : Daemon World)
      → find uid d.store.app_list ≡ none
      → is_client uid (require_engine p d).1.store ≡ minus_one
  unknown_before uid d free = is_client-none uid (require_engine p d).1.store (
      ap (λ s. find uid s.app_list) (tables_same (require_engine p) d require_engine-tables) ∙ free)

  free_when_loaded :
      (uid : ℤ) (d : Daemon World)
      → find uid d.store.app_list ≡ none
      → find uid (loaded d).store.app_list ≡ none
  free_when_loaded uid d free = ap (λ s. find uid s.app_list) (loaded-store d) ∙ free

  initialize_lem :
      (pid uid : ℤ) (d : Daemon World)
      → find uid d.store.app_list ≡ none
      → (require_engine p d).0 ≡ true
      → (load_for_first p (require_engine p d).1).0 ≡ true
      → let (code, e) = create_instance p uid (with_client pid uid d) in
        initialize p pid uid d
        ≡ (if is_nonzero code then (error_operation_failed, e) else (error_none, e))
  unfolding initialize ask_store on_store ◌>>=◌ pure
  initialize_lem pid uid d free engine ready = rw engine (
      rw (unknown_before uid d free) (
        rw ready (
          rw (new_client_registers pid uid (loaded d).store (free_when_loaded uid d free)).0
            (elim (Bool-cases (is_nonzero (create_instance p uid (with_client pid uid d)).0)) [
              | inl failed ↦ rw failed
              | inr fine ↦ rw fine
            ]))))

  finalize_lem :
      (uid : ℤ) (d : Daemon World) (a : AppData)
      → find uid d.store.app_list ≡ some a
      → finalize p uid d ≡ (
        error_none,
        (unload_for_last p
            (on_store (delete_client uid) (destroy_instance p uid (stop p uid d).1).1).1).1,
      )
  unfolding finalize ask_store ◌>>=◌ pure
  finalize_lem uid d a h = rw (get_client_state_lem uid state_created d.store, h)

  created-store :
      (pid uid : ℤ) (d : Daemon World)
      → (create_instance p uid (with_client pid uid d)).1.store
        ≡ (new_client pid uid (loaded d).store).1
  unfolding on_store
  created-store pid uid d =
      tables_same (create_instance p uid) (with_client pid uid d) (create_instance-tables uid)

  -- Making the player either puts one on the list or leaves the list alone.
  create_instance-players :
      (uid : ℤ) (d : Daemon World)
      → let (code, e) = create_instance p uid d in
        ((is_nonzero code ≡ false)
          × (i : PlayerItem) × (get_item uid e.player.player_list ≡ some i))
        ⊎ ((is_nonzero code ≡ true) × (e.player ≡ d.player))
  unfolding create_instance create_new ask_player on_player outside pure ◌>>=◌
  create_instance-players uid d = elim (Bool-cases d.player.player_init) [
    | inr down ↦ rw down (inr (refl, refl))
    | inl up ↦ rw up (elim (Option-cases (get_item uid d.player.player_list)) [
      | inr (i, there) ↦ rw there (inr (refl, refl))
      | inl free ↦
          rw free (elim (Bool-cases (not (mm.create d.world).0.0 || (mm.create d.world).0.1 == 0)) [
            | inl failed ↦ rw failed (inr (refl, refl))
            | inr made ↦ rw made (
                inl (
                  refl,
                  new_item uid (mm.create d.world).0.1,
                  get_item-append uid d.player.player_list _ free refl,
                ))
          ])
    ])
  ]

  -- A request of an unregistered uid to initialise, with an engine that is known or can be found and that
  -- can be loaded if this is the first client: afterwards the client is registered, ready, with nothing
  -- queued, and the entries of the other uids are as before. Either the request succeeds, and the uid has a
  -- player, or it returns TTSD_ERROR_OPERATION_FAILED, and the players are as before; the client is
  -- registered all the same.
  pub initialize_registers :
      (pid uid : ℤ) (d : Daemon World)
      → find uid d.store.app_list ≡ none
      → (require_engine p d).0 ≡ true
      → (load_for_first p (require_engine p d).1).0 ≡ true
      → let (code, e) = initialize p pid uid d in
        (((code ≡ error_none) × (i : PlayerItem) × (get_item uid e.player.player_list ≡ some i))
          ⊎ ((code ≡ error_operation_failed) × (e.player ≡ d.player)))
        × (find uid e.store.app_list ≡ some (new_app pid uid))
        × SameOthers uid d.store e.store
  initialize_registers pid uid d free engine ready =
      let (_, there, others, _) =
        new_client_registers pid uid (loaded d).store (free_when_loaded uid d free) in
      let same = created-store pid uid d in
      let found = ap (λ s. find uid s.app_list) same ∙ there in
      let rest : SameOthers uid d.store (create_instance p uid (with_client pid uid d)).1.store =
        λ v ne.
          ap (λ s. find v s.app_list) same
          ∙ others v ne
          ∙ ap (λ s. find v s.app_list) (loaded-store d) in
      rw (initialize_lem pid uid d free engine ready)
        (elim (create_instance-players uid (with_client pid uid d)) [
          | inr (failed, players) ↦
              rw failed (inr (refl, players ∙ with_client-player pid uid d), found, rest)
          | inl (fine, i, player) ↦ rw fine (inl (refl, i, player), found, rest)
        ])

  finalized-store :
      (uid : ℤ) (d : Daemon World) (a : AppData)
      → find uid d.store.app_list ≡ some a
      → (finalize p uid d).1.store ≡ (delete_client uid (stop p uid d).1.store).1
  unfolding on_store
  finalized-store uid d a h = rw (finalize_lem uid d a h) (
      tables_same (unload_for_last p) _ unload_for_last-tables
      ∙ ap (λ s. (delete_client uid s).1)
          (tables_same (destroy_instance p uid) (stop p uid d).1 (destroy_instance-tables uid)))

  -- In a well-formed state a request of a registered client to finalise succeeds: the client is not
  -- registered any more, and the entries of the other uids are as before.
  pub finalize_unregisters :
      (uid : ℤ) (d : Daemon World) (a : AppData)
      → Holds IsWell d
      → find uid d.store.app_list ≡ some a
      → let (code, e) = finalize p uid d in
        (code ≡ error_none) × (is_client uid e.store ≡ minus_one) × SameOthers uid d.store e.store
  finalize_unregisters uid d a well h =
      let (_, there, kept, _, _) = stop_outcome p uid d a h in
      let (_, gone, others, _) =
        delete_client_unregisters uid (stop p uid d).1.store (stopped a)
          ((stop-Keeps p uid).at d well).holds.tables there in
      (
        ap (λ r. r.0) (finalize_lem uid d a h),
        ap (is_client uid) (finalized-store uid d a h) ∙ gone,
        λ v ne. ap (λ s. find v s.app_list) (finalized-store uid d a h) ∙ others v ne ∙ kept v ne,
      )
