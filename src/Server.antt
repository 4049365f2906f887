-- ===== src/Server.antt =====
-- server/ttsd_server.cpp: the daemon's requests from clients and its callbacks. The setting requests are
-- in Server/Setting.antt.
pub mod Client
pub mod Callbacks
pub mod Setting
pub mod Queries
use Prim.Native.String.{String}
use framework_uifw_voice_tts.Prelude.{
  ℕ, zero, suc, Bool, true, false, not, ◌&&◌, ◌||◌, Option, none, some, List, [], ◌∷◌, ℤ, pos,
  negsuc, ◌==ℤ◌, is_nonzero, is_negative, ◌==◌, if◌then◌else◌,
}
use framework_uifw_voice_tts.Types.{
  ResultEvent, event_fail, event_start, event_continue, event_finish, event_cancel, AudioType,
  AppState, state_created, state_ready, state_playing, state_paused, SpeakData, SoundData, Store,
  no_speak, is_playing, error_none, error_out_of_memory, error_invalid_parameter,
  error_out_of_network, error_invalid_state, error_invalid_voice, error_engine_not_found,
  error_operation_failed, minus_one,
}
use framework_uifw_voice_tts.Data.{
  is_client, new_client, delete_client, get_client_count, get_pid, add_speak_data, get_speak_data,
  get_speak_data_size, add_sound_data, get_sound_data_size, clear_data, get_client_state,
  set_client_state, get_current_playing, is_current_playing, is_uttid_valid,
}
use framework_uifw_voice_tts.Action.{Action, pure, gets, modify, ◌>>=◌, ◌>>◌, case_option}
use framework_uifw_voice_tts.Platform.{Platform}
use framework_uifw_voice_tts.Daemon.{
  Daemon, interrupt_client, next_synthesis, outside, on_store, ask_store, timer_add,
}
use framework_uifw_voice_tts.Dbus.{send_error_message, send_set_state_message}
use framework_uifw_voice_tts.Player
use framework_uifw_voice_tts.Player.Messages.{
  PlayerEvent, player_error, player_empty_sound_queue, player_end_of_playing, is_paused,
}

abbrev pub is_ready : AppState → Bool
is_ready state_ready = true
is_ready _ = false

-- ttsd_data_get_speak_data into a local.
abbrev pub take_speak_data : ℤ → Store → (ℤ × SpeakData) × Store
take_speak_data uid s = let (code, text, t) = get_speak_data uid no_speak s in ((code, text), t)

module _ (p : Platform) where
  open p use {World, agent, g_malloc0}

  -- __server_set_is_synthesizing
  unfoldable pub set_is_synthesizing : Bool → Action (Daemon World) (Unit {0})
  set_is_synthesizing flag d = (tt, record d { is_synthesizing = flag })

  -- __server_get_current_synthesis
  unfoldable pub get_current_synthesis : Action (Daemon World) Bool
  get_current_synthesis d = (d.is_synthesizing, d)

  unfoldable pub set_is_next_synthesis : Bool → Action (Daemon World) (Unit {0})
  set_is_next_synthesis flag d = (tt, record d { is_next_synthesis = flag })

  unfoldable pub get_is_next_synthesis : Action (Daemon World) Bool
  get_is_next_synthesis d = (d.is_next_synthesis, d)

  unfoldable pub set_is_engine : Bool → Action (Daemon World) (Unit {0})
  set_is_engine flag d = (tt, record d { is_engine = flag })

  unfoldable pub get_is_engine : Action (Daemon World) Bool
  get_is_engine d = (d.is_engine, d)

  unfoldable pub get_timer_set : Action (Daemon World) Bool
  get_timer_set d = (d.timer_set, d)

  -- __server_send_error: a client that cannot be told is deleted.
  unfoldable pub send_error : ℤ → ℤ → ℤ → Action (Daemon World) ℤ
  send_error uid utt_id error_code = do
    pid ← ask_store (get_pid uid)
    sent ← send_error_message p pid uid utt_id error_code
    if is_nonzero sent then (do on_store (delete_client uid); pure (pos 0)) else pure (pos 0)

  -- The end of ttsd_server_stop: the engine is stopped, whoever it works for.
  unfoldable pub cancel_if_synthesizing : Action (Daemon World) (Unit {0})
  cancel_if_synthesizing = do
    running ← get_current_synthesis
    if running then (do outside agent.cancel_synthesis; set_is_synthesizing false) else pure tt

  unfoldable pub stop : ℤ → Action (Daemon World) ℤ
  stop uid = do
    client ← ask_store (get_client_state uid state_created)
    if is_negative client.0 then pure error_invalid_parameter else do
      on_store (clear_data uid)
      if is_playing client.1 || is_paused client.1
          then (do
            on_store (set_client_state uid state_ready)
            Player.stop p uid
            cancel_if_synthesizing)
          else pure tt
      pure error_none

  -- What follows a failed start of the engine, where the client has to hear of it.
  unfoldable pub give_up : ℤ → ℤ → Action (Daemon World) (Unit {0})
  give_up uid utt_id = do
    send_error uid utt_id error_operation_failed
    stop uid
    pid ← ask_store (get_pid uid)
    send_set_state_message p pid uid state_ready
    pure tt

  unfoldable pub engine_start : ℤ → SpeakData → Action (Daemon World) ℤ
  engine_start uid text = do
    set_is_synthesizing true
    outside (agent.start_synthesis text.lang text.vctype text.text text.speed (uid, text.utt_id))

  -- __server_start_synthesis; mode 1 is for playing, mode 2 for adding text.
  unfoldable pub start_synthesis : ℤ → ℕ → Action (Daemon World) ℤ
  start_synthesis uid mode = do
    running ← get_current_synthesis
    if running then pure (pos 0) else do
      taken ← on_store (take_speak_data uid)
      if is_nonzero taken.0 then pure (pos 0) else do
        memory ← outside g_malloc0
        if not memory then pure error_out_of_memory else do
          started ← engine_start uid taken.1
          if not (is_nonzero started) then pure (pos 0) else do
            set_is_synthesizing false
            if mode == 2 then give_up uid taken.1.utt_id else pure tt
            pure error_operation_failed

  -- __server_play_internal
  unfoldable pub play_internal : ℤ → AppState → Action (Daemon World) ℤ
  play_internal uid state =
      if is_paused state
      then (do Player.resume p uid; start_synthesis uid 1)
      else if is_ready state
      then start_synthesis uid 1
      else pure (pos 0)

  -- The part of __server_next_synthesis that hands a text to the engine; the answer says whether it
  -- returned for want of memory.
  unfoldable pub synthesize_next : ℤ → Action (Daemon World) Bool
  synthesize_next uid = do
    taken ← on_store (take_speak_data uid)
    if is_nonzero taken.0 then pure true else do
      memory ← outside g_malloc0
      if not memory then (do send_error uid taken.1.utt_id error_out_of_memory; pure false) else do
        started ← engine_start uid taken.1
        if not (is_nonzero started)
            then pure true
            else do set_is_synthesizing false; give_up uid taken.1.utt_id; pure true

  -- __server_next_synthesis; its argument is not used.
  unfoldable pub server_next_synthesis : Action (Daemon World) ℤ
  server_next_synthesis = do
    current ← ask_store get_current_playing
    if is_negative current then pure (pos 0) else do
      running ← get_current_synthesis
      if running then pure (pos 0) else do
        memory ← synthesize_next current
        if not memory then pure error_out_of_memory else do Player.play p current; pure (pos 0)
