-- ===== src/Server/Callbacks.antt =====
-- The callbacks of server/ttsd_server.cpp: from the player, from the engine and from the main loop.
use framework_uifw_voice_tts.Prelude.{
  ℕ, Bool, true, false, not, Option, some, List, ℤ, pos, is_nonzero, is_negative, if◌then◌else◌,
}
use framework_uifw_voice_tts.Types.{
  ResultEvent, event_fail, event_start, event_continue, event_finish, event_cancel, AppState,
  state_paused, error_none, error_operation_failed, minus_one,
}
use framework_uifw_voice_tts.Data.{get_pid, add_sound_data, is_current_playing, is_uttid_valid}
use framework_uifw_voice_tts.Data.Foreach.{foreach_clients}
use framework_uifw_voice_tts.Action.{Action, pure, ◌>>=◌, ◌>>◌}
use framework_uifw_voice_tts.Platform.{Platform}
use framework_uifw_voice_tts.Daemon.{Daemon, outside, on_store, ask_store}
use framework_uifw_voice_tts.Dbus.{send_hello, send_set_state_message}
use framework_uifw_voice_tts.Player
use framework_uifw_voice_tts.Player.Messages.{
  PlayerEvent, player_error, player_empty_sound_queue, player_end_of_playing, is_finish,
}
use framework_uifw_voice_tts.Server.{
  set_is_synthesizing, set_is_next_synthesis, get_is_next_synthesis, set_is_engine, send_error,
  server_next_synthesis,
}
use framework_uifw_voice_tts.Server.Client.{finalize}

module _ (p : Platform) where
  open p use {World, agent, config_initialize}

  -- __player_result_callback; an empty queue and the end of playing are only logged.
  unfoldable pub player_result_callback : PlayerEvent → ℤ → ℤ → Action (Daemon World) ℤ
  player_result_callback player_empty_sound_queue uid utt_id = pure (pos 0)
  player_result_callback player_error uid utt_id = do
    send_error p uid utt_id error_operation_failed
    pure (pos 0)
  player_result_callback player_end_of_playing uid utt_id = pure (pos 0)

  -- __start_next_synthesis: a timer that goes on while a client plays.
  unfoldable pub start_next_synthesis : Action (Daemon World) Bool
  start_next_synthesis = do
    uid ← ask_store is_current_playing
    if is_negative uid then pure false else do
      next ← get_is_next_synthesis p
      if not next
          then pure true
          else do server_next_synthesis p; set_is_next_synthesis p false; pure true

  -- The engine is idle again, and the next text may be taken.
  unfoldable pub synthesis_done : Action (Daemon World) (Unit {0})
  synthesis_done = do set_is_synthesizing p false; set_is_next_synthesis p true

  -- Sound of the utterance `uttid` of `uid`.
  unfoldable pub sound_result : ResultEvent → List ℕ → ℕ → ℤ → ℤ → Action (Daemon World) ℤ
  sound_result event bytes data_size uid uttid = do
    valid ← ask_store (is_uttid_valid uid uttid)
    if not valid then pure (pos 0) else do
      format ← outside agent.get_audio_format
      if is_nonzero format.0 then pure minus_one else do
        on_store (
            add_sound_data uid (record {
              utt_id = uttid;
              bytes = bytes;
              data_size = data_size;
              event = event;
              audio_type = format.1;
              rate = format.2;
              channels = format.3;
            }))
        if is_finish event then synthesis_done else pure tt
        pure (pos 0)

  -- __synthesis_result_callback
  unfoldable pub synthesis_result_callback :
      ResultEvent → List ℕ → ℕ → ℤ → ℤ → Action (Daemon World) ℤ
  synthesis_result_callback event_start bytes size uid uttid =
      sound_result event_start bytes size uid uttid
  synthesis_result_callback event_continue bytes size uid uttid =
      sound_result event_continue bytes size uid uttid
  synthesis_result_callback event_finish bytes size uid uttid =
      sound_result event_finish bytes size uid uttid
  synthesis_result_callback event_cancel bytes size uid uttid = do synthesis_done; pure (pos 0)
  synthesis_result_callback event_fail bytes size uid uttid = do synthesis_done; pure (pos 0)

  unfoldable pub clear_timer : Action (Daemon World) (Unit {0})
  clear_timer d = (tt, record d { timer_set = false })

  -- ttsd_initialize
  unfoldable pub initialize_daemon : Action (Daemon World) ℤ
  initialize_daemon = do
    outside config_initialize
    player ← Player.player_init p true
    if is_nonzero player then pure error_operation_failed else do
      started ← outside agent.agent_init
      if is_nonzero started then pure error_operation_failed else do
        code ← outside agent.initialize_current_engine
        set_is_engine p (not (is_nonzero code))
        clear_timer
        pure error_none

  -- __send_interrupt_client, a timer that fires once.
  unfoldable pub send_interrupt_client : ℤ → Action (Daemon World) Bool
  send_interrupt_client uid = do
    pid ← ask_store (get_pid uid)
    send_set_state_message p pid uid state_paused
    pure false

  -- __get_client_for_clean_up
  unfoldable pub clean_up_one : ℤ → ℤ → AppState → Action (Daemon World) Bool
  clean_up_one pid uid state = do
    result ← send_hello p pid uid
    if is_nonzero result then pure true else do finalize p uid; pure true

  -- ttsd_cleanup_client, `none` if its loop reads outside the table of clients.
  unfoldable pub cleanup_client : Daemon World → Option (ℤ × Daemon World)
  cleanup_client = foreach_clients (Daemon World) (λ d. d.store.app_list) (some clean_up_one)
