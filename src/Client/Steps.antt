-- ===== src/Client/Steps.antt =====
-- A process that uses the library, as a step relation: the application calls a function of client/tts.c, a
-- timer fires, a message of the daemon comes in, and in between, what is outside changes as it likes.
pub mod Alive
use Prim.Native.String.{String}
use framework_uifw_voice_tts.Prelude.{
  ℕ, ◌≡◌, Bool, true, false, Option, none, some, List, [], ◌∷◌, ◌++◌, ℤ, if◌then◌else◌,
}
use framework_uifw_voice_tts.Action.{Action}
use framework_uifw_voice_tts.Client.{Handles}
use framework_uifw_voice_tts.Client.Link.{LibPlatform, LibTimer, Library}
use framework_uifw_voice_tts.Client.Api
use framework_uifw_voice_tts.Client.Notify.{
  run_timer, set_state_changed_cb, unset_state_changed_cb, set_utterance_started_cb,
  unset_utterance_started_cb, set_utterance_completed_cb, unset_utterance_completed_cb,
  set_error_cb, unset_error_cb,
}
use framework_uifw_voice_tts.Client.Listener.{listener}

-- The calls that always return. A call with an argument for a result says whether there is one.
pub data Call : Type 0 where
  create_call : Bool → Call
  prepare_call unprepare_call play_call stop_call pause_call : Option ℤ → Call
  voices_call : Option ℤ → Option ℕ → Call
  default_voice_call max_text_count_call state_call : Option ℤ → Bool → Call
  add_text_call : Option ℤ → Option String → Option String → ℤ → ℤ → Bool → Call
  set_state_changed_call set_started_call set_completed_call set_error_call :
      Option ℤ → Option ℕ → Call
  unset_state_changed_call unset_started_call unset_completed_call unset_error_call :
      Option ℤ → Call

module _ (p : LibPlatform) where
  open p use {World}

  unfoldable pub run_call : Call → Library World → Library World
  run_call (create_call out) d = (Api.create p out d).1
  run_call (prepare_call tts) d = (Api.prepare p tts d).1
  run_call (unprepare_call tts) d = (Api.unprepare p tts d).1
  run_call (play_call tts) d = (Api.play p tts d).1
  run_call (stop_call tts) d = (Api.stop p tts d).1
  run_call (pause_call tts) d = (Api.pause p tts d).1
  run_call (voices_call tts f) d = (Api.foreach_supported_voices p tts f d).1
  run_call (default_voice_call tts out) d = (Api.get_default_voice p tts out d).1
  run_call (max_text_count_call tts out) d = (Api.get_max_text_count p tts out d).1
  run_call (state_call tts out) d = (Api.get_state p tts out d).1
  run_call (add_text_call tts text lang voice speed out) d =
      (Api.add_text p tts text lang voice speed out d).1
  run_call (set_state_changed_call tts f) d = (set_state_changed_cb p tts f d).1
  run_call (set_started_call tts f) d = (set_utterance_started_cb p tts f d).1
  run_call (set_completed_call tts f) d = (set_utterance_completed_cb p tts f d).1
  run_call (set_error_call tts f) d = (set_error_cb p tts f d).1
  run_call (unset_state_changed_call tts) d = (unset_state_changed_cb p tts d).1
  run_call (unset_started_call tts) d = (unset_utterance_started_cb p tts d).1
  run_call (unset_completed_call tts) d = (unset_utterance_completed_cb p tts d).1
  run_call (unset_error_call tts) d = (unset_error_cb p tts d).1

  -- A timer that waits between `before` and `after` fires, and waits again if its function says so.
  unfoldable pub fire : List LibTimer → LibTimer → List LibTimer → Library World → Library World
  fire before t after d =
      let (again, e) = run_timer p t (record d { timers = before ++ after }) in
      if again then record e { timers = e.timers ++ t ∷ [] } else e

  pub data Step : Library World → Library World → Type 0 where
    called : (c : Call) (d : Library World) → Step d (run_call c d)
    destroyed :
        (tts : Option ℤ) (d e : Library World) (code : ℤ)
        → Api.destroy p tts d ≡ some (code, e)
        → Step d e
    fired :
        (before : List LibTimer) (t : LibTimer) (after : List LibTimer) (d : Library World)
        → d.timers ≡ before ++ t ∷ after
        → Step d (fire before t after d)
    told : (d : Library World) → Step d (listener p d).1
    moved_outside : (w : World) (d : Library World) → Step d (record d { world = w })

  pub data Reach : Library World → Library World → Type 0 where
    here : (d : Library World) → Reach d d
    then_step : (d e f : Library World) → Reach d e → Step e f → Reach d f

-- The globals as the process starts.
abbrev pub start : {World : Type 0} → World → Library World
start w = record {
  handles = record { allocated_handle = 0; client_list = [] };
  is_daemon_started = false;
  conn = false;
  timers = [];
  world = w;
}
