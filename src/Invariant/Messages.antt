-- ===== src/Invariant/Messages.antt =====
-- The well-formedness of the daemon under the messages of libmm-player and under the stop of every
-- player (server/ttsd_player.cpp).
use framework_uifw_voice_tts.Prelude.{refl, List, [], ◌∷◌, ℤ, is_negative}
use framework_uifw_voice_tts.Types.{Store}
use framework_uifw_voice_tts.Action.{Action, Leads, Keeps, Leads-bind, Leads-if, Keeps-bind}
use framework_uifw_voice_tts.Platform.{Platform, UserData}
use framework_uifw_voice_tts.Daemon.{Daemon, Player, PlayerItem, on_player}
use framework_uifw_voice_tts.Dbus.{send_utt_start_message, send_utt_finish_message}
use framework_uifw_voice_tts.Player.{on_item}
use framework_uifw_voice_tts.Player.Messages.{
  PlayerEvent, MmMessage, message_error, message_begin_of_stream, message_end_of_stream,
  message_other, reset_item, begin_item, finish_item, stop_each, all_stop, player_next_play,
  pause_if_paused, begin_found, begin_of_stream, end_of_stream, msg_callback,
}
use framework_uifw_voice_tts.Player.Sound.{count_item-write, on_item-IsSound}
use framework_uifw_voice_tts.Invariant.Rules.{
  Holds, IsWell, HasPlayer, Keeps-ask_store, Leads-on_player, state_rules,
}
use framework_uifw_voice_tts.Invariant.Player.{
  player_rules, Keeps-on_item, destroy_instance-Keeps, next_play-Keeps, with_item-Keeps,
  HasPlayer-bind, Leads-set_some, send_message-Keeps,
}

module _ (p : Platform) where
  open p use {World}

  reset_item-Keeps :
      (uid : ℤ) → Keeps (Holds {World = World} IsWell) (on_player (on_item uid reset_item))
  unfolding reset_item
  reset_item-Keeps uid = Keeps-on_item p uid _ (λ i. refl)

  finish_item-Keeps :
      (uid : ℤ) → Keeps (Holds {World = World} IsWell) (on_player (on_item uid finish_item))
  unfolding finish_item
  finish_item-Keeps uid = Keeps-on_item p uid _ (λ i. refl)

  stop_each-Keeps : (l : List PlayerItem) → Keeps (Holds IsWell) (stop_each p l)
  unfolding stop_each
  stop_each-Keeps [] = search state_rules
  stop_each-Keeps (i ∷ l) = Keeps-bind _ _ (Keeps-ask_store _) λ client.
      Leads-if (is_negative client.0) _ _ (search (state_rules, destroy_instance-Keeps p) depth 20)
        (Keeps-bind _ _ (search (state_rules, reset_item-Keeps) depth 20) λ _. stop_each-Keeps l)

  pub all_stop-Keeps : Keeps (Holds IsWell) (all_stop p)
  unfolding all_stop
  all_stop-Keeps = search (player_rules, stop_each-Keeps) depth 20

  pub player_next_play-Keeps : (uid : ℤ) → Keeps (Holds IsWell) (player_next_play p uid)
  unfolding player_next_play
  player_next_play-Keeps uid = search (state_rules, next_play-Keeps p) depth 20

  pause_if_paused-Keeps :
      {P : Store → Player → Type 0} (uid : ℤ) (i : PlayerItem)
      → Keeps (Holds P) (pause_if_paused p uid i)
  unfolding pause_if_paused
  pause_if_paused-Keeps uid i = search state_rules depth 20

  send_utt_start-Keeps :
      {P : Store → Player → Type 0} (pid uid utt : ℤ)
      → Keeps (Holds P) (send_utt_start_message p pid uid utt)
  unfolding send_utt_start_message
  send_utt_start-Keeps pid uid utt = send_message-Keeps p pid uid utt _

  send_utt_finish-Keeps :
      {P : Store → Player → Type 0} (pid uid utt : ℤ)
      → Keeps (Holds P) (send_utt_finish_message p pid uid utt)
  unfolding send_utt_finish_message
  send_utt_finish-Keeps pid uid utt = send_message-Keeps p pid uid utt _

  HasPlayer-begin_item :
      (u : UserData)
      → Keeps (Holds {World = World} (HasPlayer u.uid)) (on_player (on_item u.uid (begin_item u)))
  unfolding begin_item
  HasPlayer-begin_item u = Leads-on_player _ (λ s q v. record {
    well = record {
      tables = v.well.tables;
      players = on_item-IsSound u.uid _ q (λ i. refl) v.well.players;
    };
    listed =
        rw
          (count_item-write u.uid u.uid (λ i. record i { utt_id = u.utt_id; event = u.event })
            q.player_list (λ i. refl))
          v.listed;
  })

  begin_found-Leads :
      (u : UserData) (i : PlayerItem)
      → Leads (Holds (HasPlayer u.uid)) (Holds IsWell) (begin_found p u i)
  unfolding begin_found
  begin_found-Leads u i =
      HasPlayer-bind p u.uid _ _ (search (state_rules, send_utt_start-Keeps) depth 20) λ _.
        HasPlayer-bind p u.uid _ _ (HasPlayer-begin_item u) λ _.
          Leads-bind _ _ (Leads-set_some p u.uid)
            λ _. search (state_rules, pause_if_paused-Keeps) depth 20

  pub begin_of_stream-Keeps : (u : UserData) → Keeps (Holds IsWell) (begin_of_stream p u)
  unfolding begin_of_stream
  begin_of_stream-Keeps u = with_item-Keeps p u.uid _ (begin_found-Leads u)

  pub end_of_stream-Keeps : (u : UserData) → Keeps (Holds IsWell) (end_of_stream p u)
  unfolding end_of_stream
  end_of_stream-Keeps u = search (player_rules, send_utt_finish-Keeps) depth 20

  pub msg_callback-Keeps :
      (result_callback : PlayerEvent → ℤ → ℤ → Action (Daemon World) ℤ)
      → ((e : PlayerEvent) (uid utt : ℤ) → Keeps (Holds IsWell) (result_callback e uid utt))
      → (m : MmMessage) (u : UserData) → Keeps (Holds IsWell) (msg_callback p result_callback m u)
  unfolding msg_callback
  msg_callback-Keeps f h message_error u = search (player_rules, finish_item-Keeps, h) depth 20
  msg_callback-Keeps f h message_begin_of_stream u = begin_of_stream-Keeps u
  msg_callback-Keeps f h message_end_of_stream u = end_of_stream-Keeps u
  msg_callback-Keeps f h message_other u = search state_rules
