-- ===== src/Client/Steps/Alive.antt =====
-- What holds of the library along its steps.
use framework_uifw_voice_tts.Prelude.{
  suc, ◌≡◌, sym, ap, ◌∙◌, inl, inr, some, List, ◌++◌, ℤ, Bool-cases,
}
use mathlib.Core.Option.{some-injective}
use framework_uifw_voice_tts.Types.{error_none}
use framework_uifw_voice_tts.Client.{client_get_size}
use framework_uifw_voice_tts.Client.Link.{LibPlatform, LibTimer, Library}
use framework_uifw_voice_tts.Client.Api.{destroy}
use framework_uifw_voice_tts.Client.Notify.{run_timer}
use framework_uifw_voice_tts.Client.Settled.{each_nil, IsAllSettled, Holds}
use framework_uifw_voice_tts.Client.Settled.Requests
use framework_uifw_voice_tts.Client.Settled.Calls
use framework_uifw_voice_tts.Client.Settled.Notices.{run_timer-Keeps, listener-Keeps}
use framework_uifw_voice_tts.Client.Settled.Lifetime.{create-Keeps, destroy_settled}
use framework_uifw_voice_tts.Client.Steps.{
  Call, create_call, prepare_call, unprepare_call, play_call, stop_call, pause_call, voices_call,
  default_voice_call, max_text_count_call, state_call, add_text_call, set_state_changed_call,
  set_started_call, set_completed_call, set_error_call, unset_state_changed_call,
  unset_started_call, unset_completed_call, unset_error_call, run_call, fire, Step, called,
  destroyed, fired, told, moved_outside, Reach, here, then_step, start,
}

-- tts_destroy of a handle returns success and takes its client off the list.
abbrev pub Destroys : (p : LibPlatform) → ℤ → Library p.World → Type 0
Destroys p h d =
    (e : Library p.World) × (destroy p (some h) d ≡ some (error_none, e))
    × (suc (client_get_size e.handles) ≡ client_get_size d.handles)

module _ (p : LibPlatform) where
  open p use {World}

  run_call-settled :
      (c : Call) (d : Library World) → Holds IsAllSettled d → Holds IsAllSettled (run_call p c d)
  unfolding run_call
  run_call-settled (create_call out) d h = (create-Keeps p out).at d h
  run_call-settled (prepare_call tts) d h = (Requests.prepare-Keeps p tts).at d h
  run_call-settled (unprepare_call tts) d h = (Calls.unprepare-Keeps p tts).at d h
  run_call-settled (play_call tts) d h = (Calls.play-Keeps p tts).at d h
  run_call-settled (stop_call tts) d h = (Calls.stop-Keeps p tts).at d h
  run_call-settled (pause_call tts) d h = (Calls.pause-Keeps p tts).at d h
  run_call-settled (voices_call tts f) d h = (Requests.foreach_voices-Keeps p tts f).at d h
  run_call-settled (default_voice_call tts out) d h =
      (Requests.get_default_voice-Keeps p tts out).at d h
  run_call-settled (max_text_count_call tts out) d h =
      (Requests.get_max_text_count-Keeps p tts out).at d h
  run_call-settled (state_call tts out) d h = (Requests.get_state-Keeps p tts out).at d h
  run_call-settled (add_text_call tts text lang voice speed out) d h =
      (Calls.add_text-Keeps p tts text lang voice speed out).at d h
  run_call-settled (set_state_changed_call tts f) d h =
      (Calls.set_state_changed-Keeps p tts f).at d h
  run_call-settled (set_started_call tts f) d h = (Calls.set_utterance_started-Keeps p tts f).at d h
  run_call-settled (set_completed_call tts f) d h =
      (Calls.set_utterance_completed-Keeps p tts f).at d h
  run_call-settled (set_error_call tts f) d h = (Calls.set_error-Keeps p tts f).at d h
  run_call-settled (unset_state_changed_call tts) d h =
      (Calls.unset_state_changed-Keeps p tts).at d h
  run_call-settled (unset_started_call tts) d h = (Calls.unset_utterance_started-Keeps p tts).at d h
  run_call-settled (unset_completed_call tts) d h =
      (Calls.unset_utterance_completed-Keeps p tts).at d h
  run_call-settled (unset_error_call tts) d h = (Calls.unset_error-Keeps p tts).at d h

  fire-settled :
      (before : List LibTimer) (t : LibTimer) (after : List LibTimer) (d : Library World)
      → Holds IsAllSettled d
      → Holds IsAllSettled (fire p before t after d)
  unfolding fire
  fire-settled before t after d h =
      let taken : Library World = record d { timers = before ++ after } in
      let kept = (run_timer-Keeps p t).at taken (record { holds = h.holds }) in
      elim (Bool-cases (run_timer p t taken).0) [
        | inl again ↦ rw again (record { holds = kept.holds })
        | inr once ↦ rw once kept
      ]

  Step-settled : (d e : Library World) → Step p d e → Holds IsAllSettled d → Holds IsAllSettled e
  Step-settled _ _ (called c d) h = run_call-settled c d h
  Step-settled _ _ (destroyed tts d e code done) h =
      let r = destroy_settled p tts d h in
      let same = ap (λ x. x.1) (some-injective (r.0, r.1) (code, e) (sym r.2 ∙ done)) in
      rw (sym same) r.3
  Step-settled _ _ (fired before t after d waits) h = fire-settled before t after d h
  Step-settled _ _ (told d) h = (listener-Keeps p).at d h
  Step-settled _ _ (moved_outside w d) h = record { holds = h.holds }

  Reach-settled : (d e : Library World) → Reach p d e → Holds IsAllSettled d → Holds IsAllSettled e
  Reach-settled _ _ (here d) h = h
  Reach-settled _ _ (then_step d m e r s) h = Step-settled m e s (Reach-settled d m r h)

  -- From the start of the process, by calls of the library in any order, whatever their arguments, by its
  -- timers and by messages of the daemon in any order, and with whatever the daemon answers: between two
  -- calls no callback uses a client, and each client's utterance id is between 0 and 9999.
  pub reachable-settled :
      (w : World) (d : Library World) → Reach p (start w) d → Holds IsAllSettled d
  reachable-settled w d r = Reach-settled _ d r (record { holds = each_nil })
