-- ===== src/Player/Messages.antt =====
-- The rest of server/ttsd_player.cpp: stopping every player, and what a message of libmm-player does.
use framework_uifw_voice_tts.Prelude.{
  Bool, true, false, not, ◌&&◌, ◌||◌, none, some, List, [], ◌∷◌, ℤ, pos, is_negative, if◌then◌else◌,
}
use framework_uifw_voice_tts.Types.{
  ResultEvent, event_start, event_finish, AppState, state_created, state_paused, is_playing,
  minus_one,
}
use framework_uifw_voice_tts.Data.{get_pid, get_client_state}
use framework_uifw_voice_tts.Action.{Action, pure, ◌>>=◌, ◌>>◌, case_option}
use framework_uifw_voice_tts.Platform.{Platform, UserData}
use framework_uifw_voice_tts.Daemon.{
  Daemon, PlayerItem, player_next, outside, ask_store, on_player, ask_player, timer_add,
}
use framework_uifw_voice_tts.Dbus.{send_utt_start_message, send_utt_finish_message}
use framework_uifw_voice_tts.Player.{
  get_item, is_mm_playing, set_playing_info, release_playing, on_item, when_init, with_item,
  destroy_instance, next_play,
}

-- player_event_e
pub data PlayerEvent : Type 0 where
  player_error player_empty_sound_queue player_end_of_playing : PlayerEvent

-- The messages that the callback tells apart.
pub data MmMessage : Type 0 where
  message_error message_begin_of_stream message_end_of_stream message_other : MmMessage

abbrev pub is_start : ResultEvent → Bool
is_start event_start = true
is_start _ = false

abbrev pub is_finish : ResultEvent → Bool
is_finish event_finish = true
is_finish _ = false

abbrev pub is_paused : AppState → Bool
is_paused state_paused = true
is_paused _ = false

unfoldable pub reset_item : PlayerItem → PlayerItem
reset_item i = record i { utt_id = minus_one; event = event_finish }

-- `current->event = TTSP_RESULT_EVENT_FINISH`
unfoldable pub finish_item : PlayerItem → PlayerItem
finish_item i = record i { event = event_finish }

unfoldable pub begin_item : UserData → PlayerItem → PlayerItem
begin_item u i = record i { utt_id = u.utt_id; event = u.event }

module _ (p : Platform) where
  open p use {World, mm, files}

  -- The loop of ttsd_player_all_stop, over the players from the current link on. A player whose client
  -- is gone is destroyed. That takes its link off the list, and a removed link has no next one
  -- (g_list_remove_link), so the loop ends there.
  unfoldable pub stop_each : List PlayerItem → Action (Daemon World) (Unit {0})
  stop_each [] = pure tt
  stop_each (i ∷ l) = do
    client ← ask_store (get_client_state i.uid state_created)
    if is_negative client.0 then (do destroy_instance p i.uid; pure tt) else do
      if is_playing client.1 || is_paused client.1
          then (do outside (mm.unrealize i.player_handle); on_player (on_item i.uid reset_item))
          else pure tt
      stop_each l

  unfoldable pub all_stop : Action (Daemon World) ℤ
  all_stop = when_init p do
    on_player (set_playing_info none)
    items ← ask_player (λ q. q.player_list)
    stop_each items
    pure (pos 0)

  -- __player_next_play, a timer that fires once.
  unfoldable pub player_next_play : ℤ → Action (Daemon World) Bool
  player_next_play uid = do next_play p uid; pure false

  -- A client that was paused while its player started is paused in the player too.
  unfoldable pub pause_if_paused : ℤ → PlayerItem → Action (Daemon World) (Unit {0})
  pause_if_paused uid current = do
    client ← ask_store (get_client_state uid state_created)
    if not (is_paused client.1) then pure tt else do
      state ← outside (mm.get_state current.player_handle)
      if is_mm_playing state
          then (do outside (mm.pause current.player_handle); pure tt)
          else pure tt

  unfoldable pub begin_found : UserData → PlayerItem → Action (Daemon World) ℤ
  begin_found u current = do
    if is_start u.event || (is_finish current.event && is_finish u.event)
        then (do
          pid ← ask_store (get_pid u.uid)
          send_utt_start_message p pid u.uid u.utt_id
          pure tt)
        else pure tt
    on_player (on_item u.uid (begin_item u))
    on_player (set_playing_info (some u.uid))
    pause_if_paused u.uid current
    pure (pos 1)

  unfoldable pub begin_of_stream : UserData → Action (Daemon World) ℤ
  begin_of_stream u = with_item p u.uid (begin_found u)

  unfoldable pub end_of_stream : UserData → Action (Daemon World) ℤ
  end_of_stream u = do
    outside (files.remove u.filename)
    found ← ask_player (λ q. get_item u.uid q.player_list)
    case_option found (do on_player (release_playing u.uid); pure minus_one)
        λ current. do
          pid ← ask_store (get_pid u.uid)
          if is_finish current.event
              then (do send_utt_finish_message p pid u.uid u.utt_id; pure tt)
              else pure tt
          timer_add (player_next u.uid)
          pure (pos 1)

  -- msg_callback, with the server's callback `g_result_callback` as an argument.
  unfoldable pub msg_callback :
      (PlayerEvent → ℤ → ℤ → Action (Daemon World) ℤ)
      → MmMessage
      → UserData
      → Action (Daemon World) ℤ
  msg_callback result_callback message_error u = do
    result_callback player_error u.uid u.utt_id
    on_player (on_item u.uid finish_item)
    on_player (release_playing u.uid)
    pure (pos 1)
  msg_callback result_callback message_begin_of_stream u = begin_of_stream u
  msg_callback result_callback message_end_of_stream u = end_of_stream u
  msg_callback result_callback message_other u = pure (pos 1)
