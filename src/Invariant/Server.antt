-- ===== src/Invariant/Server.antt =====
-- The well-formedness of the daemon under the requests of server/ttsd_server.cpp.
use Prim.Native.String.{String}
use framework_uifw_voice_tts.Prelude.{ℕ, Bool, ℤ}
use framework_uifw_voice_tts.Types.{AppState, SpeakData, SoundData, Store, no_speak}
use framework_uifw_voice_tts.Data.{
  new_client, delete_client, add_speak_data, add_sound_data, clear_data, set_client_state,
}
use framework_uifw_voice_tts.Data.Setting.{setting_add, setting_delete}
use framework_uifw_voice_tts.Data.Invariant.{IsValid}
use framework_uifw_voice_tts.Data.Invariant.Preserved.{
  new_client-IsValid, delete_client-IsValid, add_speak_data-IsValid, get_speak_data-IsValid,
  add_sound_data-IsValid, clear_data-IsValid, set_client_state-IsValid, setting_add-IsValid,
  setting_delete-IsValid,
}
use framework_uifw_voice_tts.Action.{Keeps}
use framework_uifw_voice_tts.Platform.{Platform}
use framework_uifw_voice_tts.Daemon.{Player, on_store}
use framework_uifw_voice_tts.Dbus.{send_hello, send_error_message, send_set_state_message}
use framework_uifw_voice_tts.Player.Messages.{
  PlayerEvent, player_error, player_empty_sound_queue, player_end_of_playing,
}
use framework_uifw_voice_tts.Server.{
  take_speak_data, set_is_synthesizing, get_current_synthesis, set_is_next_synthesis,
  get_is_next_synthesis, set_is_engine, get_is_engine, get_timer_set, send_error,
  cancel_if_synthesizing, stop, give_up, engine_start, start_synthesis, play_internal,
  synthesize_next, server_next_synthesis,
}
use framework_uifw_voice_tts.Server.Client.{
  require_engine, load_for_first, unload_for_last, initialize, finalize, network_ready, add_queue,
  interrupt_current, schedule_next, play, pause,
}
use framework_uifw_voice_tts.Server.Callbacks.{player_result_callback, clear_timer}
use framework_uifw_voice_tts.Invariant.Rules.{Holds, IsWell, Leads-on_store, state_rules}
use framework_uifw_voice_tts.Invariant.Player
use framework_uifw_voice_tts.Invariant.Player.{send_message-Keeps}

module _ (p : Platform) where
  open p use {World}

  -- A change of the tables that keeps them valid.
  pub Keeps-on_store :
      {A : Type 0} (f : Store → A × Store)
      → ((s : Store) → IsValid s → IsValid (f s).1)
      → Keeps (Holds {World = World} IsWell) (on_store f)
  Keeps-on_store f h =
      Leads-on_store f (λ s q v. record { tables = h s v.tables; players = v.players })

  pub Keeps-new :
      (pid uid : ℤ) → Keeps (Holds {World = World} IsWell) (on_store (new_client pid uid))
  Keeps-new pid uid = Keeps-on_store _ (new_client-IsValid pid uid)

  pub Keeps-delete : (uid : ℤ) → Keeps (Holds {World = World} IsWell) (on_store (delete_client uid))
  Keeps-delete uid = Keeps-on_store _ (delete_client-IsValid uid)

  pub Keeps-add_speak :
      (uid : ℤ) (d : SpeakData)
      → Keeps (Holds {World = World} IsWell) (on_store (add_speak_data uid d))
  Keeps-add_speak uid d = Keeps-on_store _ (add_speak_data-IsValid uid d)

  pub Keeps-add_sound :
      (uid : ℤ) (d : SoundData)
      → Keeps (Holds {World = World} IsWell) (on_store (add_sound_data uid d))
  Keeps-add_sound uid d = Keeps-on_store _ (add_sound_data-IsValid uid d)

  pub Keeps-take_speak :
      (uid : ℤ) → Keeps (Holds {World = World} IsWell) (on_store (take_speak_data uid))
  Keeps-take_speak uid = Keeps-on_store _ (get_speak_data-IsValid uid no_speak)

  pub Keeps-clear : (uid : ℤ) → Keeps (Holds {World = World} IsWell) (on_store (clear_data uid))
  Keeps-clear uid = Keeps-on_store _ (clear_data-IsValid uid)

  pub Keeps-set_state :
      (uid : ℤ) (state : AppState)
      → Keeps (Holds {World = World} IsWell) (on_store (set_client_state uid state))
  Keeps-set_state uid state = Keeps-on_store _ (set_client_state-IsValid uid state)

  pub Keeps-setting_add :
      (pid : ℤ) → Keeps (Holds {World = World} IsWell) (on_store (setting_add pid))
  Keeps-setting_add pid = Keeps-on_store _ (setting_add-IsValid pid)

  pub Keeps-setting_delete :
      (pid : ℤ) → Keeps (Holds {World = World} IsWell) (on_store (setting_delete pid))
  Keeps-setting_delete pid = Keeps-on_store _ (setting_delete-IsValid pid)

  pub ruleset store_rules = (
    state_rules, Keeps-new, Keeps-delete, Keeps-add_speak, Keeps-add_sound, Keeps-take_speak,
    Keeps-clear, Keeps-set_state, Keeps-setting_add, Keeps-setting_delete,
  )

  pub Keeps-set_is_synthesizing :
      (b : Bool) → {P : Store → Player → Type 0} → Keeps (Holds P) (set_is_synthesizing p b)
  unfolding set_is_synthesizing
  Keeps-set_is_synthesizing b = record { at = λ d h. record { holds = h.holds } }

  pub Keeps-get_current_synthesis :
      {P : Store → Player → Type 0} → Keeps (Holds P) (get_current_synthesis p)
  unfolding get_current_synthesis
  Keeps-get_current_synthesis = record { at = λ d h. h }

  pub Keeps-set_is_next :
      (b : Bool) → {P : Store → Player → Type 0} → Keeps (Holds P) (set_is_next_synthesis p b)
  unfolding set_is_next_synthesis
  Keeps-set_is_next b = record { at = λ d h. record { holds = h.holds } }

  pub Keeps-get_is_next : {P : Store → Player → Type 0} → Keeps (Holds P) (get_is_next_synthesis p)
  unfolding get_is_next_synthesis
  Keeps-get_is_next = record { at = λ d h. h }

  pub Keeps-set_is_engine :
      (b : Bool) → {P : Store → Player → Type 0} → Keeps (Holds P) (set_is_engine p b)
  unfolding set_is_engine
  Keeps-set_is_engine b = record { at = λ d h. record { holds = h.holds } }

  pub Keeps-get_is_engine : {P : Store → Player → Type 0} → Keeps (Holds P) (get_is_engine p)
  unfolding get_is_engine
  Keeps-get_is_engine = record { at = λ d h. h }

  pub Keeps-get_timer_set : {P : Store → Player → Type 0} → Keeps (Holds P) (get_timer_set p)
  unfolding get_timer_set
  Keeps-get_timer_set = record { at = λ d h. h }

  pub Keeps-clear_timer : {P : Store → Player → Type 0} → Keeps (Holds P) (clear_timer p)
  unfolding clear_timer
  Keeps-clear_timer = record { at = λ d h. record { holds = h.holds } }

  pub send_hello-Keeps : (pid uid : ℤ) → Keeps (Holds IsWell) (send_hello p pid uid)
  unfolding send_hello
  send_hello-Keeps pid uid = search state_rules depth 20

  pub send_error_message-Keeps :
      (pid uid utt reason : ℤ) → Keeps (Holds IsWell) (send_error_message p pid uid utt reason)
  unfolding send_error_message
  send_error_message-Keeps pid uid utt reason = search state_rules depth 20

  pub send_set_state-Keeps :
      (pid uid : ℤ) (state : AppState)
      → Keeps (Holds IsWell) (send_set_state_message p pid uid state)
  unfolding send_set_state_message
  send_set_state-Keeps pid uid state = send_message-Keeps p pid uid _ _

  pub ruleset server_rules = (
    store_rules, Keeps-set_is_synthesizing, Keeps-get_current_synthesis, Keeps-set_is_next,
    Keeps-get_is_next, Keeps-set_is_engine, Keeps-get_is_engine, Keeps-get_timer_set,
    Keeps-clear_timer, send_hello-Keeps, send_error_message-Keeps, send_set_state-Keeps,
  )

  pub send_error-Keeps : (uid utt code : ℤ) → Keeps (Holds IsWell) (send_error p uid utt code)
  unfolding send_error
  send_error-Keeps uid utt code = search server_rules depth 20

  pub stop-Keeps : (uid : ℤ) → Keeps (Holds IsWell) (stop p uid)
  unfolding stop cancel_if_synthesizing
  stop-Keeps uid = search (server_rules, Player.stop-Keeps p) depth 20

  pub give_up-Keeps : (uid utt : ℤ) → Keeps (Holds IsWell) (give_up p uid utt)
  unfolding give_up
  give_up-Keeps uid utt = search (server_rules, send_error-Keeps, stop-Keeps) depth 20

  start_synthesis-Keeps : (uid : ℤ) (mode : ℕ) → Keeps (Holds IsWell) (start_synthesis p uid mode)
  unfolding start_synthesis engine_start
  start_synthesis-Keeps uid mode = search (server_rules, give_up-Keeps) depth 20

  play_internal-Keeps :
      (uid : ℤ) (state : AppState) → Keeps (Holds IsWell) (play_internal p uid state)
  unfolding play_internal
  play_internal-Keeps uid state =
      search (server_rules, Player.resume-Keeps p, start_synthesis-Keeps) depth 20

  synthesize_next-Keeps : (uid : ℤ) → Keeps (Holds IsWell) (synthesize_next p uid)
  unfolding synthesize_next engine_start
  synthesize_next-Keeps uid = search (server_rules, give_up-Keeps, send_error-Keeps) depth 20

  pub server_next_synthesis-Keeps : Keeps (Holds IsWell) (server_next_synthesis p)
  unfolding server_next_synthesis
  server_next_synthesis-Keeps =
      search (server_rules, synthesize_next-Keeps, Player.play-Keeps p) depth 20

  pub initialize-Keeps : (pid uid : ℤ) → Keeps (Holds IsWell) (initialize p pid uid)
  unfolding initialize require_engine load_for_first
  initialize-Keeps pid uid = search (server_rules, Player.create_instance-Keeps p) depth 20

  pub finalize-Keeps : (uid : ℤ) → Keeps (Holds IsWell) (finalize p uid)
  unfolding finalize unload_for_last
  finalize-Keeps uid = search (server_rules, stop-Keeps, Player.destroy_instance-Keeps p) depth 20

  network_ready-Keeps : Keeps (Holds IsWell) (network_ready p)
  unfolding network_ready
  network_ready-Keeps = search state_rules depth 20

  pub add_queue-Keeps :
      (uid : ℤ) (text lang : String) (voice_type speed utt_id : ℤ)
      → Keeps (Holds IsWell) (add_queue p uid text lang voice_type speed utt_id)
  unfolding add_queue
  add_queue-Keeps uid text lang voice_type speed utt_id =
      search (server_rules, network_ready-Keeps, start_synthesis-Keeps) depth 20

  interrupt_current-Keeps : (uid : ℤ) → Keeps (Holds IsWell) (interrupt_current p uid)
  unfolding interrupt_current
  interrupt_current-Keeps uid = search (server_rules, Player.pause-Keeps p) depth 20

  pub play-Keeps : (uid : ℤ) → Keeps (Holds IsWell) (play p uid)
  unfolding play schedule_next
  play-Keeps uid =
      search (server_rules, network_ready-Keeps, interrupt_current-Keeps, play_internal-Keeps) depth
        20

  pub pause-Keeps : (uid : ℤ) → Keeps (Holds IsWell) (pause p uid)
  unfolding pause
  pause-Keeps uid = search (server_rules, Player.pause-Keeps p) depth 20

  pub player_result-Keeps :
      (e : PlayerEvent) (uid utt : ℤ) → Keeps (Holds IsWell) (player_result_callback p e uid utt)
  unfolding player_result_callback
  player_result-Keeps player_error uid utt = search (server_rules, send_error-Keeps) depth 20
  player_result-Keeps player_empty_sound_queue uid utt = search server_rules
  player_result-Keeps player_end_of_playing uid utt = search server_rules
