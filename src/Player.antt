-- ===== src/Player.antt =====
-- server/ttsd_player.cpp: one libmm-player handle for each client, and the client that is playing.
pub mod File
pub mod Items
pub mod Messages
pub mod Sound
use framework_uifw_voice_tts.Prelude.{
  ℕ, zero, suc, ◌+◌, Bool, true, false, not, ◌&&◌, ◌||◌, Option, none, some, List, [], ◌∷◌, ◌++◌, ℤ,
  pos, negsuc, ◌==ℤ◌, is_nonzero, is_negative, leb, ◌==◌, if◌then◌else◌,
}
use framework_uifw_voice_tts.Types.{
  ResultEvent, event_start, event_finish, AudioType, raw, AppState, state_created, state_playing,
  state_paused, SoundData, Store, no_sound, is_playing, error_none, error_invalid_parameter,
  error_operation_failed, minus_one,
}
use framework_uifw_voice_tts.Data.{get_pid, get_sound_data, get_sound_data_size, get_client_state}
use framework_uifw_voice_tts.Action.{Action, pure, gets, modify, ◌>>=◌, ◌>>◌, case_option}
use framework_uifw_voice_tts.Platform.{
  Platform, MmState, mm_null, mm_ready, mm_playing, mm_paused, mm_none, UserData, WavHeader,
}
use framework_uifw_voice_tts.Daemon.{
  Daemon, Player, PlayerItem, Timer, player_next, outside, on_store, ask_store, on_player,
  ask_player, timer_add,
}
use framework_uifw_voice_tts.Dbus.{send_utt_start_message, send_utt_finish_message}
unfoldable pub use Items.{
  get_item, write_item, remove_item, plays, is_active, is_null, is_mm_playing, is_mm_paused,
  set_playing_info, release_playing, on_item, forget_utterance, bump_index, init, new_item,
  append_item, drop_item, is_raw, take_sound_data,
}
use File.{file_name, postfix, init_wave_header}

module _ (p : Platform) where
  open p use {World, mm, files}

  -- The check of `g_player_init` with which the functions begin.
  abbrev pub when_init : Action (Daemon World) ℤ → Action (Daemon World) ℤ
  when_init m = do up ← ask_player (λ q. q.player_init); if not up then pure minus_one else m

  -- The lookup that follows it, and the return of -1 if there is no such player.
  abbrev pub with_item : ℤ → (PlayerItem → Action (Daemon World) ℤ) → Action (Daemon World) ℤ
  with_item uid f = do
    found ← ask_player (λ q. get_item uid q.player_list)
    case_option found (pure minus_one) f

  unfoldable pub player_init : Bool → Action (Daemon World) ℤ
  player_init has_callback =
      if not has_callback then pure error_invalid_parameter else do on_player init; pure (pos 0)

  unfoldable pub player_release : Action (Daemon World) ℤ
  player_release = do
    up ← ask_player (λ q. q.player_init)
    if not up
        then pure error_operation_failed
        else do on_player (λ q. record q { playing_info = none; player_init = false }); pure (pos 0)

  unfoldable pub create_new : ℤ → Action (Daemon World) ℤ
  create_new uid = do
    made ← outside mm.create
    if not made.0 || made.1 == 0
        then pure (negsuc 1)
        else do on_player (append_item (new_item uid made.1)); pure (pos 0)

  unfoldable pub create_instance : ℤ → Action (Daemon World) ℤ
  create_instance uid = when_init do
    existing ← ask_player (λ q. get_item uid q.player_list)
    case_option existing (create_new uid) (λ _. pure minus_one)

  -- The switch on the state of a player that is destroyed: the first cases fall through.
  unfoldable pub destroy_handle : ℕ → MmState → Action (Daemon World) (Unit {0})
  destroy_handle handle state =
      if is_active state
      then (do outside (mm.unrealize handle); outside (mm.destroy handle); pure tt)
      else if is_null state
      then (do outside (mm.destroy handle); pure tt)
      else pure tt

  unfoldable pub destroy_found : ℤ → PlayerItem → Action (Daemon World) ℤ
  destroy_found uid current = do
    on_player (release_playing uid)
    state ← outside (mm.get_state current.player_handle)
    destroy_handle current.player_handle state
    on_player (drop_item uid)
    pure (pos 0)

  unfoldable pub destroy_instance : ℤ → Action (Daemon World) ℤ
  destroy_instance uid = when_init (with_item uid (destroy_found uid))

  -- The header that raw sound gets in its file.
  unfoldable pub write_header : SoundData → Action (Daemon World) Bool
  write_header sound =
      if not (is_raw sound.audio_type)
      then pure true
      else case_option (init_wave_header sound.data_size sound.rate sound.channels) (pure false)
          λ header. outside (files.fwrite_header header)

  -- __save_file: the name of the file, or `none` for its result -1.
  unfoldable pub save_file : ℤ → ℕ → SoundData → Action (Daemon World) (Option (List ℕ))
  save_file uid index sound = case_option (postfix sound.audio_type) (pure none) λ ext. do
    opened ← outside (files.fopen (file_name uid index ext))
    if not opened then pure none else do
      headed ← write_header sound
      if not headed then pure none else do
        written ← outside (files.fwrite_data sound.bytes sound.data_size)
        if not written then pure none else pure (some (file_name uid index ext))

  -- The calls of libmm-player with which __set_and_start ends.
  unfoldable pub start_handle : ℕ → List ℕ → UserData → Action (Daemon World) ℤ
  start_handle handle name user_data = do
    set ← outside (mm.set_message_callback handle user_data)
    if not set then pure minus_one else do
      readable ← outside (files.access name)
      if not readable then pure minus_one else do
        attributes ← outside (mm.set_attribute handle name)
        if not attributes then pure minus_one else do
          realized ← outside (mm.realize handle)
          if not realized then pure (negsuc 1) else do
            started ← outside (mm.start handle)
            if not started
                then (do outside (mm.unrealize handle); pure (negsuc 2))
                else pure (pos 0)

  -- __set_and_start
  unfoldable pub set_and_start : PlayerItem → Action (Daemon World) ℤ
  set_and_start current = do
    taken ← on_store (take_sound_data current.uid)
    if is_nonzero taken.0 then pure minus_one else do
      on_player bump_index
      index ← ask_player (λ q. q.index)
      saved ← save_file current.uid index taken.1
      case_option saved (pure minus_one) λ name. start_handle current.player_handle name (record {
        uid = current.uid;
        utt_id = taken.1.utt_id;
        event = taken.1.event;
        filename = name;
      })

  unfoldable pub play : ℤ → Action (Daemon World) ℤ
  play uid = when_init do
    playing ← ask_player (λ q. plays uid q.playing_info)
    if playing then pure (pos 0) else do
      size ← ask_store (get_sound_data_size uid)
      if not (is_nonzero size)
          then pure minus_one
          else with_item uid λ current. do
            state ← outside (mm.get_state current.player_handle)
            if is_mm_playing state
                then pure (pos 0)
                else if not (is_null state)
                then pure minus_one
                else (do set_and_start current; pure (pos 0))

  -- `switch (player_state)` with a return of -1 where the player cannot be unrealized.
  unfoldable pub unrealize_active : ℕ → Action (Daemon World) Bool
  unrealize_active handle = do
    state ← outside (mm.get_state handle)
    if is_active state then outside (mm.unrealize handle) else pure true

  unfoldable pub next_play : ℤ → Action (Daemon World) ℤ
  next_play uid = when_init do
    found ← ask_player (λ q. get_item uid q.player_list)
    case_option found (do on_player (set_playing_info none); pure minus_one)
        λ current. do
          info ← ask_player (λ q. q.playing_info)
          case_option info (pure minus_one) λ u. if not (uid ==ℤ u) then pure (pos 0) else do
            unrealized ← unrealize_active current.player_handle
            if not unrealized then pure minus_one else do
              size ← ask_store (get_sound_data_size uid)
              if not (is_nonzero size)
                  then (do on_player (set_playing_info none); pure minus_one)
                  else (do set_and_start current; pure (pos 0))

  unfoldable pub stop : ℤ → Action (Daemon World) ℤ
  stop uid = when_init (
      with_item uid λ current. do
        on_player (release_playing uid)
        on_player (on_item uid forget_utterance)
        unrealized ← unrealize_active current.player_handle
        if not unrealized then pure minus_one else pure (pos 0))

  unfoldable pub pause : ℤ → Action (Daemon World) ℤ
  pause uid = when_init (
      with_item uid λ current. do
        on_player (release_playing uid)
        state ← outside (mm.get_state current.player_handle)
        if is_mm_playing state
            then (do outside (mm.pause current.player_handle); pure (pos 0))
            else pure (pos 0))

  unfoldable pub resume_found : ℤ → PlayerItem → Action (Daemon World) ℤ
  resume_found uid current = do
    on_player (set_playing_info none)
    state ← outside (mm.get_state current.player_handle)
    if not (is_mm_paused state) then pure (pos 0) else do
      resumed ← outside (mm.resume current.player_handle)
      if not resumed
          then pure minus_one
          else do on_player (set_playing_info (some uid)); pure (pos 0)

  unfoldable pub resume : ℤ → Action (Daemon World) ℤ
  resume uid = when_init (with_item uid (resume_found uid))

  unfoldable pub get_current_client : Action (Daemon World) ℤ
  get_current_client =
      when_init do info ← ask_player (λ q. q.playing_info); pure (case_option info (pos 0) (λ u. u))

  unfoldable pub get_current_utterance_id : ℤ → Action (Daemon World) ℤ
  get_current_utterance_id uid = when_init (with_item uid λ current. pure current.utt_id)
