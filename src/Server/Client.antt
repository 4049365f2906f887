-- ===== src/Server/Client.antt =====
-- The requests of clients in server/ttsd_server.cpp.
use Prim.Native.String.{String}
use framework_uifw_voice_tts.Prelude.{
  Bool, true, not, ◌&&◌, ℤ, ◌==ℤ◌, is_nonzero, is_negative, ◌==◌, if◌then◌else◌,
}
use framework_uifw_voice_tts.Types.{
  state_created, state_playing, state_paused, is_playing, error_none, error_invalid_parameter,
  error_out_of_network, error_invalid_state, error_invalid_voice, error_engine_not_found,
  error_operation_failed, minus_one,
}
use framework_uifw_voice_tts.Data.{
  is_client, new_client, delete_client, get_client_count, add_speak_data, get_client_state,
  set_client_state, get_current_playing,
}
use framework_uifw_voice_tts.Action.{Action, pure, ◌>>=◌, ◌>>◌}
use framework_uifw_voice_tts.Platform.{Platform}
use framework_uifw_voice_tts.Daemon.{
  Daemon, interrupt_client, next_synthesis, outside, on_store, ask_store, timer_add,
}
use framework_uifw_voice_tts.Player
use framework_uifw_voice_tts.Server.{
  get_is_engine, set_is_engine, get_timer_set, start_synthesis, play_internal,
}
use framework_uifw_voice_tts.Server

module _ (p : Platform) where
  open p use {World, agent}

  -- The first lines of ttsd_server_initialize and ttsd_server_setting_initialize: an engine is looked
  -- for again if there was none. The answer says whether there is one.
  unfoldable pub require_engine : Action (Daemon World) Bool
  require_engine = do
    known ← get_is_engine p
    if known then pure true else do
      code ← outside agent.initialize_current_engine
      set_is_engine p (not (is_nonzero code))
      pure (not (is_nonzero code))

  -- The engine is loaded for the first client; the answer says whether it could be.
  unfoldable pub load_for_first : Action (Daemon World) Bool
  load_for_first = do
    count ← ask_store get_client_count
    if not (count == 0)
        then pure true
        else do code ← outside agent.load_current_engine; pure (not (is_nonzero code))

  -- The engine is unloaded behind the last client.
  unfoldable pub unload_for_last : Action (Daemon World) (Unit {0})
  unload_for_last = do
    count ← ask_store get_client_count
    if not (count == 0) then pure tt else do outside agent.unload_current_engine; pure tt

  unfoldable pub initialize : ℤ → ℤ → Action (Daemon World) ℤ
  initialize pid uid = do
    engine ← require_engine
    if not engine then pure error_engine_not_found else do
      index ← ask_store (is_client uid)
      if not (index ==ℤ minus_one) then pure error_invalid_parameter else do
        loaded ← load_for_first
        if not loaded then pure error_operation_failed else do
          added ← on_store (new_client pid uid)
          if is_nonzero added then pure error_operation_failed else do
            created ← Player.create_instance p uid
            if is_nonzero created then pure error_operation_failed else pure error_none

  unfoldable pub finalize : ℤ → Action (Daemon World) ℤ
  finalize uid = do
    client ← ask_store (get_client_state uid state_created)
    if is_negative client.0 then pure error_invalid_parameter else do
      Server.stop p uid
      Player.destroy_instance p uid
      on_store (delete_client uid)
      unload_for_last
      pure error_none

  -- Whether the engine can work: it needs no network, or there is one.
  unfoldable pub network_ready : Action (Daemon World) Bool
  network_ready = do
    needed ← outside agent.need_network
    if not needed then pure true else outside agent.is_connected

  unfoldable pub add_queue : ℤ → String → String → ℤ → ℤ → ℤ → Action (Daemon World) ℤ
  add_queue uid text lang voice_type speed utt_id = do
    client ← ask_store (get_client_state uid state_created)
    if is_negative client.0 then pure error_invalid_parameter else do
      valid ← outside (agent.select_valid_voice lang voice_type)
      if not valid then pure error_invalid_voice else do
        added ← on_store (
            add_speak_data uid (record {
              utt_id = utt_id;
              text = text;
              lang = lang;
              vctype = voice_type;
              speed = speed;
            }))
        if is_nonzero added then pure error_operation_failed else do
          if not (is_playing client.1) then pure error_none else do
            ready ← network_ready
            if not ready then pure error_operation_failed else do
              started ← start_synthesis p uid 2
              if is_nonzero started then pure error_operation_failed else pure error_none

  -- Another client that plays is paused, and told so from the main loop.
  unfoldable pub interrupt_current : ℤ → Action (Daemon World) (Unit {0})
  interrupt_current uid = do
    current ← ask_store get_current_playing
    if not (uid ==ℤ current) && not (current ==ℤ minus_one)
        then (do
          Player.pause p current
          on_store (set_client_state current state_paused)
          timer_add (interrupt_client current))
        else pure tt

  -- The last lines of ttsd_server_play: `g_timer` is never set, so a timer is added each time.
  unfoldable pub schedule_next : Action (Daemon World) (Unit {0})
  schedule_next = do set ← get_timer_set p; if not set then timer_add next_synthesis else pure tt

  unfoldable pub play : ℤ → Action (Daemon World) ℤ
  play uid = do
    client ← ask_store (get_client_state uid state_created)
    if is_negative client.0 then pure error_invalid_parameter else do
      if is_playing client.1 then pure error_none else do
        ready ← network_ready
        if not ready then pure error_out_of_network else do
          interrupt_current uid
          changed ← on_store (set_client_state uid state_playing)
          if is_nonzero changed then pure error_operation_failed else do
            started ← play_internal p uid client.1
            if is_nonzero started
                then pure error_operation_failed
                else do schedule_next; pure error_none

  unfoldable pub pause : ℤ → Action (Daemon World) ℤ
  pause uid = do
    client ← ask_store (get_client_state uid state_created)
    if is_negative client.0 then pure error_invalid_parameter else do
      if not (is_playing client.1) then pure error_invalid_state else do
        paused ← Player.pause p uid
        if is_nonzero paused
            then pure error_operation_failed
            else do on_store (set_client_state uid state_paused); pure error_none
