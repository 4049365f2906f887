-- ===== src/Invariant/Callbacks.antt =====
-- The well-formedness of the daemon under the callbacks of server/ttsd_server.cpp, under the setting
-- requests and under the loops over all clients.
use Prim.Native.String.{String}
use mathlib.Core.Path.{subst, ap}
use mathlib.Core.Option.{some-injective}
use framework_uifw_voice_tts.Prelude.{
  Option-cases, ℕ, zero, suc, ◌≡◌, refl, inl, inr, Option, none, some, List, ℤ, Bool-cases, length,
  ◌==ℤ◌,
}
use framework_uifw_voice_tts.Types.{
  ResultEvent, event_fail, event_start, event_continue, event_finish, event_cancel, AppState,
  AppData, minus_one, error_none, error_invalid_parameter,
}
use framework_uifw_voice_tts.Data.Foreach.{Callback, foreach_loop, foreach_clients}
use framework_uifw_voice_tts.Data.Foreach.Bounds.{get_elem?_lem}
use framework_uifw_voice_tts.Data.Setting.{is_setting}
use framework_uifw_voice_tts.Action.{Keeps}
use framework_uifw_voice_tts.Platform.{Platform}
use framework_uifw_voice_tts.Daemon.{Daemon, outside}
use framework_uifw_voice_tts.Server.Callbacks.{
  start_next_synthesis, synthesis_done, sound_result, synthesis_result_callback, initialize_daemon,
  send_interrupt_client, clean_up_one, cleanup_client,
}
use framework_uifw_voice_tts.Server.Client.{require_engine, load_for_first, unload_for_last}
use framework_uifw_voice_tts.Server.Setting.{
  setting_initialize, setting_finalize, reset_client, set_engine_after, set_current_engine,
}
use framework_uifw_voice_tts.Invariant.Rules.{Holds, IsWell, Keeps-outside}
use framework_uifw_voice_tts.Invariant.Player
use framework_uifw_voice_tts.Invariant.Messages.{all_stop-Keeps}
use framework_uifw_voice_tts.Invariant.Server.{
  server_rules, finalize-Keeps, server_next_synthesis-Keeps,
}

-- A loop over the clients keeps what its callback keeps.
module _ (S : Type 0) (apps : S → List AppData) (P : S → Type 0) (callback : Callback S apps) where
  foreach_loop-Keeps :
      ((pid uid : ℤ) (state : AppState) (s : S) → P s → P (callback pid uid state s).1)
      → (n i : ℕ) (s t : S) → foreach_loop S apps n i callback s ≡ some t
      → P s
      → P t
  unfolding foreach_loop
  foreach_loop-Keeps keep zero i s t e h = subst P (some-injective s t e) h
  foreach_loop-Keeps keep (suc n) i s t e h = elim (get_elem?_lem (apps s) i) [
    | inl (out, far) ↦ absurd (cc (rw (out, foreach_loop) at e))
    | inr (a, at, near) ↦ elim (Bool-cases (callback a.pid a.uid a.state s).0) [
      | inl on ↦
          foreach_loop-Keeps keep n (suc i) (callback a.pid a.uid a.state s).1 t
            (rw on at (rw (at, foreach_loop) at e)) (keep a.pid a.uid a.state s h)
      | inr off ↦
          subst P (some-injective _ t (rw off at (rw (at, foreach_loop) at e)))
            (keep a.pid a.uid a.state s h)
    ]
  ]

  pub foreach_clients-Keeps :
      ((pid uid : ℤ) (state : AppState) (s : S) → P s → P (callback pid uid state s).1)
      → (s t : S) (code : ℤ) → foreach_clients S apps (some callback) s ≡ some (code, t)
      → P s
      → P t
  unfolding foreach_clients
  foreach_clients-Keeps keep s t code e h =
      elim (Option-cases (foreach_loop S apps (length (apps s)) 0 callback s)) [
        | inl out ↦ absurd (cc (rw (out, foreach_clients) at e))
        | inr (u, done) ↦
            subst P
              (ap (λ r. r.1)
                (some-injective (error_none, u) (code, t) (rw (done, foreach_clients) at e)))
              (foreach_loop-Keeps keep (length (apps s)) 0 s u done h)
      ]

module _ (p : Platform) where
  open p use {World, agent}

  sound_result-Keeps :
      (event : ResultEvent) (bytes : List ℕ) (size : ℕ) (uid uttid : ℤ)
      → Keeps (Holds IsWell) (sound_result p event bytes size uid uttid)
  unfolding sound_result synthesis_done
  sound_result-Keeps event bytes size uid uttid = search server_rules depth 20

  pub synthesis_result-Keeps :
      (event : ResultEvent) (bytes : List ℕ) (size : ℕ) (uid uttid : ℤ)
      → Keeps (Holds IsWell) (synthesis_result_callback p event bytes size uid uttid)
  unfolding synthesis_result_callback synthesis_done
  synthesis_result-Keeps event_cancel bytes size uid uttid = search server_rules depth 20
  synthesis_result-Keeps event_fail bytes size uid uttid = search server_rules depth 20
  synthesis_result-Keeps event_start bytes size uid uttid =
      sound_result-Keeps _ bytes size uid uttid
  synthesis_result-Keeps event_continue bytes size uid uttid =
      sound_result-Keeps _ bytes size uid uttid
  synthesis_result-Keeps event_finish bytes size uid uttid =
      sound_result-Keeps _ bytes size uid uttid

  pub start_next_synthesis-Keeps : Keeps (Holds IsWell) (start_next_synthesis p)
  unfolding start_next_synthesis
  start_next_synthesis-Keeps = search (server_rules, server_next_synthesis-Keeps) depth 20

  pub initialize_daemon-Keeps : Keeps (Holds IsWell) (initialize_daemon p)
  unfolding initialize_daemon
  initialize_daemon-Keeps = search (server_rules, Player.player_init-Keeps) depth 20

  pub send_interrupt_client-Keeps : (uid : ℤ) → Keeps (Holds IsWell) (send_interrupt_client p uid)
  unfolding send_interrupt_client
  send_interrupt_client-Keeps uid = search server_rules depth 20

  clean_up_one-Keeps :
      (pid uid : ℤ) (state : AppState) → Keeps (Holds IsWell) (clean_up_one p pid uid state)
  unfolding clean_up_one
  clean_up_one-Keeps pid uid state = search (server_rules, finalize-Keeps) depth 20

  reset_client-Keeps :
      (pid uid : ℤ) (state : AppState) → Keeps (Holds IsWell) (reset_client p pid uid state)
  unfolding reset_client
  reset_client-Keeps pid uid state = search server_rules depth 20

  pub setting_initialize-Keeps : (uid : ℤ) → Keeps (Holds IsWell) (setting_initialize p uid)
  unfolding setting_initialize require_engine load_for_first
  setting_initialize-Keeps uid = search server_rules depth 20

  pub setting_finalize-Keeps : (uid : ℤ) → Keeps (Holds IsWell) (setting_finalize p uid)
  unfolding setting_finalize unload_for_last
  setting_finalize-Keeps uid = search server_rules depth 20

  -- The clean-up of clients that are gone, where its loop stays inside the table.
  pub cleanup_client-Keeps :
      (d e : Daemon World) (code : ℤ)
      → cleanup_client p d ≡ some (code, e)
      → Holds IsWell d
      → Holds IsWell e
  unfolding cleanup_client
  cleanup_client-Keeps d e code done h =
      foreach_clients-Keeps _ _ (Holds IsWell) (clean_up_one p)
        (λ pid uid state s. (clean_up_one-Keeps pid uid state).at s) d e code done h

  set_engine_after-Keeps :
      (engine_id : String) (r : Option (ℤ × Daemon World)) (e : Daemon World) (code : ℤ)
      → set_engine_after p engine_id r ≡ some (code, e)
      → ((c : ℤ) (d : Daemon World) → r ≡ some (c, d) → Holds IsWell d)
      → Holds IsWell e
  unfolding set_engine_after
  set_engine_after-Keeps engine_id none e code done h = absurd (cc done)
  set_engine_after-Keeps engine_id (some (c, d)) e code done h =
      subst (Holds IsWell) (ap (λ r. r.1) (some-injective _ _ done))
        ((Keeps-outside (agent.set_engine engine_id)).at d (h c d refl))

  -- The change of the engine, where its loop stays inside the table.
  pub set_current_engine-Keeps :
      (uid : ℤ) (engine_id : String) (d e : Daemon World) (code : ℤ)
      → set_current_engine p uid engine_id d ≡ some (code, e)
      → Holds IsWell d
      → Holds IsWell e
  unfolding set_current_engine
  set_current_engine-Keeps uid engine_id d e code done h =
      elim (Bool-cases (is_setting uid d.store ==ℤ minus_one)) [
        | inl unknown ↦
            subst (Holds IsWell)
              (ap (λ r. r.1)
                (some-injective (error_invalid_parameter, d) (code, e) (rw unknown at done)))
              h
        | inr known ↦ elim (Bool-cases (outside (agent.is_same_engine engine_id) d).0) [
          | inl same ↦
              subst (Holds IsWell)
                (ap (λ r. r.1)
                  (some-injective (error_none, (outside (agent.is_same_engine engine_id) d).1)
                    (code, e) (rw (known, same) at done)))
                ((Keeps-outside (agent.is_same_engine engine_id)).at d h)
          | inr other ↦
              set_engine_after-Keeps engine_id _ e code (rw (known, other) at done) (λ c f looped.
                foreach_clients-Keeps _ _ (Holds IsWell) (reset_client p)
                  (λ pid uid state s. (reset_client-Keeps pid uid state).at s) _ f c looped
                  ((all_stop-Keeps p).at _
                    ((Keeps-outside (agent.is_same_engine engine_id)).at d h)))
        ]
      ]
