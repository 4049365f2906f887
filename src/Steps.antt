-- ===== src/Steps.antt =====
-- The daemon as a step relation: what the main loop of server/ttsd_main.cpp dispatches, one after
-- another. A request comes from the bus (server/ttsd_dbus_server.c), a result from the engine, a message
-- from libmm-player, and a timer fires; in between, what is outside changes as it likes.
pub mod Safety
mod Examples
use Prim.Native.String.{String}
use framework_uifw_voice_tts.Prelude.{
  ℕ, ◌≡◌, Bool, true, false, Option, none, some, List, [], ◌∷◌, ◌++◌, ℤ, pos, if◌then◌else◌,
}
use framework_uifw_voice_tts.Types.{ResultEvent}
use framework_uifw_voice_tts.Action.{Action, pure, gets, modify, ◌>>=◌, ◌>>◌}
use framework_uifw_voice_tts.Platform.{Platform, UserData}
use framework_uifw_voice_tts.Daemon.{Daemon, Timer, interrupt_client, next_synthesis, player_next}
use framework_uifw_voice_tts.Player.Messages.{MmMessage, msg_callback, player_next_play}
use framework_uifw_voice_tts.Server.{stop}
use framework_uifw_voice_tts.Server.Client.{initialize, finalize, add_queue, play, pause}
use framework_uifw_voice_tts.Server.Callbacks.{
  player_result_callback, synthesis_result_callback, send_interrupt_client, start_next_synthesis,
  cleanup_client,
}
use framework_uifw_voice_tts.Server.Setting.{
  setting_initialize, setting_finalize, set_current_engine,
}

-- What reaches the daemon and always comes back.
pub data Request : Type 0 where
  on_initialize : ℤ → ℤ → Request
  on_finalize : ℤ → Request
  on_add_queue : ℤ → String → String → ℤ → ℤ → ℤ → Request
  on_play : ℤ → Request
  on_stop : ℤ → Request
  on_pause : ℤ → Request
  on_setting_initialize : ℤ → Request
  on_setting_finalize : ℤ → Request
  on_synthesis_result : ResultEvent → List ℕ → ℕ → ℤ → ℤ → Request
  on_player_message : MmMessage → UserData → Request

module _ (p : Platform) where
  open p use {World}

  unfoldable pub handle : Request → Action (Daemon World) ℤ
  handle (on_initialize pid uid) = initialize p pid uid
  handle (on_finalize uid) = finalize p uid
  handle (on_add_queue uid text lang voice speed utt) = add_queue p uid text lang voice speed utt
  handle (on_play uid) = play p uid
  handle (on_stop uid) = stop p uid
  handle (on_pause uid) = pause p uid
  handle (on_setting_initialize uid) = setting_initialize p uid
  handle (on_setting_finalize uid) = setting_finalize p uid
  handle (on_synthesis_result event bytes size uid utt) =
      synthesis_result_callback p event bytes size uid utt
  handle (on_player_message m u) = msg_callback p (player_result_callback p) m u

  -- The function of a timer; its answer says whether the timer goes on.
  unfoldable pub fire : Timer → Action (Daemon World) Bool
  fire (interrupt_client uid) = send_interrupt_client p uid
  fire next_synthesis = start_next_synthesis p
  fire (player_next uid) = player_next_play p uid

  abbrev pub set_timers : List Timer → Daemon World → Daemon World
  set_timers ts d = record d { timers = ts }

  -- A timer that waits between `before` and `after` fires, and waits again if its function says so.
  unfoldable pub run_timer : List Timer → Timer → List Timer → Daemon World → Daemon World
  run_timer before t after d =
      let (again, e) = fire t (set_timers (before ++ after) d) in
      if again then set_timers (e.timers ++ t ∷ []) e else e

  pub data Step : Daemon World → Daemon World → Type 0 where
    requested : (r : Request) (d : Daemon World) → Step d (handle r d).1
    fired :
        (before : List Timer) (t : Timer) (after : List Timer) (d : Daemon World)
        → d.timers ≡ before ++ t ∷ after
        → Step d (run_timer before t after d)
    cleaned_up : (d e : Daemon World) (code : ℤ) → cleanup_client p d ≡ some (code, e) → Step d e
    engine_changed :
        (uid : ℤ) (engine_id : String) (d e : Daemon World) (code : ℤ)
        → set_current_engine p uid engine_id d ≡ some (code, e)
        → Step d e
    moved_outside : (w : World) (d : Daemon World) → Step d (record d { world = w })

  pub data Reach : Daemon World → Daemon World → Type 0 where
    here : (d : Daemon World) → Reach d d
    then_step : (d e f : Daemon World) → Reach d e → Step e f → Reach d f

-- The globals as the program starts.
abbrev pub start : {World : Type 0} → World → Daemon World
start w = record {
  store = record { app_list = []; setting_list = [] };
  player = record { player_init = false; player_list = []; playing_info = none; index = 0 };
  is_engine = false;
  is_synthesizing = false;
  is_next_synthesis = false;
  timer_set = false;
  timers = [];
  world = w;
}
