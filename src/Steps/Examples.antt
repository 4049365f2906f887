-- ===== src/Steps/Examples.antt =====
-- A short run of the daemon: a client registers, adds a text and plays it.
use framework_uifw_voice_tts.Prelude.{ℕ, pos}
use framework_uifw_voice_tts.Daemon.{Daemon}
use framework_uifw_voice_tts.Server.Callbacks.{initialize_daemon}
use framework_uifw_voice_tts.Invariant.Rules.{Holds, IsWell}
use framework_uifw_voice_tts.Steps.{
  on_initialize, on_add_queue, on_play, handle, requested, here, then_step, start,
}
use framework_uifw_voice_tts.Steps.Safety.{reachable-IsWell}
use framework_uifw_voice_tts.Sample.{sample}

abbrev ready : Daemon ℕ
ready = (initialize_daemon sample (start 0)).1

abbrev registered : Daemon ℕ
registered = (handle sample (on_initialize (pos 41) (pos 7)) ready).1

abbrev queued : Daemon ℕ
queued = (handle sample (on_add_queue (pos 7) "hello" "en_US" (pos 0) (pos 3) (pos 1)) registered).1

reachable-IsWell_example : Holds IsWell (handle sample (on_play (pos 7)) queued).1
reachable-IsWell_example = reachable-IsWell sample 0 _ (
    then_step _ _ _
      (then_step _ _ _
        (then_step _ _ _ (here ready) (requested (on_initialize (pos 41) (pos 7)) ready))
        (requested (on_add_queue (pos 7) "hello" "en_US" (pos 0) (pos 3) (pos 1)) registered))
      (requested (on_play (pos 7)) queued))
