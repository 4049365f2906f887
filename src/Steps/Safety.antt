-- ===== src/Steps/Safety.antt =====
-- The well-formedness of the daemon along its steps.
use framework_uifw_voice_tts.Prelude.{inl, inr, List, ◌++◌, arith, Bool-cases}
use framework_uifw_voice_tts.Action.{Keeps}
use framework_uifw_voice_tts.Platform.{Platform}
use framework_uifw_voice_tts.Daemon.{Daemon, Timer, interrupt_client, next_synthesis, player_next}
use framework_uifw_voice_tts.Server.Callbacks.{initialize_daemon}
use framework_uifw_voice_tts.Invariant.Rules.{Holds, IsWell}
use framework_uifw_voice_tts.Invariant.Messages.{msg_callback-Keeps, player_next_play-Keeps}
use framework_uifw_voice_tts.Invariant.Server
use framework_uifw_voice_tts.Invariant.Callbacks
use framework_uifw_voice_tts.Steps.{
  Request, on_initialize, on_finalize, on_add_queue, on_play, on_stop, on_pause,
  on_setting_initialize, on_setting_finalize, on_synthesis_result, on_player_message, handle, fire,
  set_timers, run_timer, Step, requested, fired, cleaned_up, engine_changed, moved_outside, Reach,
  here, then_step, start,
}

module _ (p : Platform) where
  open p use {World}

  handle-Keeps : (r : Request) → Keeps (Holds IsWell) (handle p r)
  unfolding handle
  handle-Keeps (on_initialize pid uid) = Server.initialize-Keeps p pid uid
  handle-Keeps (on_finalize uid) = Server.finalize-Keeps p uid
  handle-Keeps (on_add_queue uid text lang voice speed utt) =
      Server.add_queue-Keeps p uid text lang voice speed utt
  handle-Keeps (on_play uid) = Server.play-Keeps p uid
  handle-Keeps (on_stop uid) = Server.stop-Keeps p uid
  handle-Keeps (on_pause uid) = Server.pause-Keeps p uid
  handle-Keeps (on_setting_initialize uid) = Callbacks.setting_initialize-Keeps p uid
  handle-Keeps (on_setting_finalize uid) = Callbacks.setting_finalize-Keeps p uid
  handle-Keeps (on_synthesis_result event bytes size uid utt) =
      Callbacks.synthesis_result-Keeps p event bytes size uid utt
  handle-Keeps (on_player_message m u) = msg_callback-Keeps p _ (Server.player_result-Keeps p) m u

  fire-Keeps : (t : Timer) → Keeps (Holds IsWell) (fire p t)
  unfolding fire
  fire-Keeps (interrupt_client uid) = Callbacks.send_interrupt_client-Keeps p uid
  fire-Keeps next_synthesis = Callbacks.start_next_synthesis-Keeps p
  fire-Keeps (player_next uid) = player_next_play-Keeps p uid

  run_timer-IsWell :
      (before : List Timer) (t : Timer) (after : List Timer) (d : Daemon World)
      → Holds IsWell d
      → Holds IsWell (run_timer p before t after d)
  unfolding run_timer
  run_timer-IsWell before t after d h =
      let kept =
        (fire-Keeps t).at (set_timers p (before ++ after) d) (record { holds = h.holds }) in
      elim (Bool-cases (fire p t (set_timers p (before ++ after) d)).0) [
        | inl again ↦ rw again (record { holds = kept.holds })
        | inr once ↦ rw once kept
      ]

  Step-IsWell : (d e : Daemon World) → Step p d e → Holds IsWell d → Holds IsWell e
  Step-IsWell _ _ (requested r d) h = (handle-Keeps r).at d h
  Step-IsWell _ _ (fired before t after d waits) h = run_timer-IsWell before t after d h
  Step-IsWell _ _ (cleaned_up d e code done) h = Callbacks.cleanup_client-Keeps p d e code done h
  Step-IsWell _ _ (engine_changed uid engine_id d e code done) h =
      Callbacks.set_current_engine-Keeps p uid engine_id d e code done h
  Step-IsWell _ _ (moved_outside w d) h = record { holds = h.holds }

  Reach-IsWell : (d e : Daemon World) → Reach p d e → Holds IsWell d → Holds IsWell e
  Reach-IsWell _ _ (here d) h = h
  Reach-IsWell _ _ (then_step d m e r s) h = Step-IsWell m e s (Reach-IsWell d m r h)

  start-IsWell : (w : World) → Holds IsWell (start w)
  start-IsWell w = record {
    holds = record {
      tables = record {
        uids = λ u. omega arith;
        playing = omega arith;
        settings = λ q. omega arith;
      };
      players = record { items = λ u. omega arith; info = λ u e. cc; index = λ e. cc };
    };
  }

  -- In every state that the daemon comes to after ttsd_initialize by requests, results of the engine,
  -- messages of the sound library and timers in any order, and by those clean-ups and changes of the
  -- engine whose loops stay inside the table of clients: no uid is registered twice and no setting pid
  -- is, at most one client is playing, no uid has two players, `g_playing_info` points to a player of the
  -- list if it is set, and once the player is initialised `g_index` is between 1 and 65533.
  pub reachable-IsWell :
      (w : World) (d : Daemon World) → Reach p (initialize_daemon p (start w)).1 d → Holds IsWell d
  reachable-IsWell w d r =
      Reach-IsWell _ d r ((Callbacks.initialize_daemon-Keeps p).at (start w) (start-IsWell w))
