-- ===== src/Client/Machine/Refines.antt =====
-- client/tts.c does what the state machine of a handle says.
use mathlib.Core.Path.{fun_ext}
use framework_uifw_voice_tts.Prelude.{
  ◌≡◌, refl, sym, ap, ◌∙◌, Bool, not, ◌||◌, inl, inr, Option, none, some, List, [], ◌∷◌, ℤ,
  is_nonzero, if◌then◌else◌, Bool-cases, ◌==ℤ◌, ==ℤ_refl, eq_of_==ℤ,
}
use framework_uifw_voice_tts.Types.{error_none, error_invalid_parameter, error_invalid_state}
use framework_uifw_voice_tts.Action.{Action, case_option, pure, ◌>>=◌}
use framework_uifw_voice_tts.Wire.{
  ServerMethod, play_method, stop_method, pause_method, finalize_method, Arg, arg_int,
}
use framework_uifw_voice_tts.Client.{
  TtsState, tts_created, tts_ready, tts_playing, tts_paused, tts_other, TtsClient, find_handle,
  change_client, client_get,
}
use framework_uifw_voice_tts.Client.Link.{
  LibPlatform, Library, ask_handles, on_handles, add_timer, request_result, request_play,
  request_stop, request_pause, request_finalize,
}
use framework_uifw_voice_tts.Client.Api.{
  is_created, is_ready, is_playing, enter, has_callback, with_client, prepare, unprepare,
  enter_state, play, stop, pause,
}
use framework_uifw_voice_tts.Client.Settled.Requests.{request_result-Keeps}
use framework_uifw_voice_tts.Client.Machine.{
  Operation, prepare_op, unprepare_op, play_op, stop_op, pause_op, States, set_state, allowed,
  machine_step, machine_run, view, states_of, perform, answer_of, library_run,
}
use framework_uifw_voice_tts.Client.Machine.View.{view-enter}

-- What an application sees of a call: its result, and the states of the handles.
abbrev pub observe : {World : Type 0} → ℤ × Library World → ℤ × States
observe r = (r.0, states_of r.1)

view-entered :
    (h : ℤ) (state : TtsState) (l : List TtsClient) (c : TtsClient)
    → find_handle h l ≡ some c
    → view (change_client h (enter state) l) ≡ set_state h state (view l)
view-entered h state l c e = fun_ext (λ k. view-enter h state l c k e)

view_kept :
    (h : ℤ) (state : TtsState) (l : List TtsClient) (c : TtsClient)
    → find_handle h l ≡ some c
    → c.current_state ≡ state
    → view l ≡ set_state h state (view l)
view_kept h state l c e f = fun_ext (λ k. elim (Bool-cases (k ==ℤ h)) [
  | inl here ↦ rw (eq_of_==ℤ k h here) (rw (==ℤ_refl h) (rw e (ap some f)))
  | inr off ↦ rw off refl
])

play_allowed :
    (st : TtsState)
    → allowed play_op st ≡ (if is_playing st || is_created st then none else some tts_playing)
play_allowed tts_created = refl
play_allowed tts_ready = refl
play_allowed tts_playing = refl
play_allowed tts_paused = refl
play_allowed (tts_other n) = refl

stop_allowed :
    (st : TtsState) → allowed stop_op st ≡ (if is_created st then none else some tts_ready)
stop_allowed tts_created = refl
stop_allowed tts_ready = refl
stop_allowed tts_playing = refl
stop_allowed tts_paused = refl
stop_allowed (tts_other n) = refl

pause_allowed :
    (st : TtsState) → allowed pause_op st ≡ (if not (is_playing st) then none else some tts_paused)
pause_allowed tts_created = refl
pause_allowed tts_ready = refl
pause_allowed tts_playing = refl
pause_allowed tts_paused = refl
pause_allowed (tts_other n) = refl

unprepare_allowed :
    (st : TtsState)
    → allowed unprepare_op st ≡ (if not (is_ready st) then none else some tts_created)
unprepare_allowed tts_created = refl
unprepare_allowed tts_ready = refl
unprepare_allowed tts_playing = refl
unprepare_allowed tts_paused = refl
unprepare_allowed (tts_other n) = refl

module _ (p : LibPlatform) where
  open p use {World}

  pub enter_state_observed :
      (h : ℤ) (c : TtsClient) (state : TtsState) (d : Library World)
      → find_handle h d.handles.client_list ≡ some c
      → observe (enter_state p h c state d) ≡ (error_none, set_state h state (states_of d))
  unfolding enter_state on_handles add_timer pure ◌>>=◌
  enter_state_observed h c state d e =
      let entered = view-entered h state d.handles.client_list c e in
      elim (Bool-cases (has_callback c.state_changed_cb)) [
        | inl callback ↦ rw callback (ap (λ s. (error_none, s)) entered)
        | inr silent ↦ rw silent (ap (λ s. (error_none, s)) entered)
      ]

  module _ (refuse : TtsState → Bool) (m : TtsClient → Action (Library World) ℤ) (state : TtsState)
      (table : TtsState → Option TtsState)
      (tabled : (st : TtsState) → table st ≡ (if refuse st then none else some state))
      (frame : (c : TtsClient) (d : Library World) → (m c d).1.handles ≡ d.handles) where
    -- The form that tts_play, tts_stop and tts_pause have.
    abbrev agree : ℤ → Action (Library World) ℤ
    agree h = with_client p error_invalid_parameter (some h) λ k c.
        if refuse c.current_state
        then pure error_invalid_state
        else do result ← m c; if is_nonzero result then pure result else enter_state p k c state

    agree_observed :
        (h : ℤ) (d : Library World)
        → observe (agree h d)
          ≡ machine_step table
              (case_option (find_handle h d.handles.client_list) error_none (λ c. (m c d).0))
              h
              (states_of d)
    unfolding ask_handles client_get pure ◌>>=◌
    agree_observed h d = by_client (find_handle h d.handles.client_list) refl
      where
        by_client :
            (o : Option TtsClient)
            → find_handle h d.handles.client_list ≡ o
            → observe (agree h d)
              ≡ machine_step table
                  (case_option (find_handle h d.handles.client_list) error_none (λ c. (m c d).0))
                  h
                  (states_of d)
        by_client none e = rw e refl
        by_client (some c) e = rw e (
            rw (tabled c.current_state) (elim (Bool-cases (refuse c.current_state)) [
              | inl refused ↦ rw refused refl
              | inr taken ↦ rw taken (elim (Bool-cases (is_nonzero (m c d).0)) [
                | inl denied ↦ rw denied (ap (λ s. ((m c d).0, view s.client_list)) (frame c d))
                | inr agreed ↦ rw agreed (
                    enter_state_observed h c state (m c d).1
                      (ap (λ s. find_handle h s.client_list) (frame c d) ∙ e)
                    ∙ ap (λ s. (error_none, set_state h state (view s.client_list))) (frame c d))
              ])
            ]))

  request_frame :
      (method : ServerMethod) (args : List Arg) (d : Library World)
      → (request_result p method args d).1.handles ≡ d.handles
  request_frame method args d =
      ((request_result-Keeps p {P = λ s. s ≡ d.handles} method args).at d
        (record { holds = refl })).holds

  play_observed :
      (h : ℤ) (d : Library World)
      → observe (play p (some h) d)
        ≡ machine_step (allowed play_op) (answer_of p play_op h d) h (states_of d)
  unfolding play request_play
  play_observed h d =
      agree_observed (λ st. is_playing st || is_created st) (λ c. request_play p c.uid) tts_playing
        (allowed play_op) play_allowed (λ c. request_frame play_method (arg_int c.uid ∷ [])) h d

  stop_observed :
      (h : ℤ) (d : Library World)
      → observe (stop p (some h) d)
        ≡ machine_step (allowed stop_op) (answer_of p stop_op h d) h (states_of d)
  unfolding stop request_stop
  stop_observed h d =
      agree_observed is_created (λ c. request_stop p c.uid) tts_ready (allowed stop_op) stop_allowed
        (λ c. request_frame stop_method (arg_int c.uid ∷ [])) h d

  pause_observed :
      (h : ℤ) (d : Library World)
      → observe (pause p (some h) d)
        ≡ machine_step (allowed pause_op) (answer_of p pause_op h d) h (states_of d)
  unfolding pause request_pause
  pause_observed h d =
      agree_observed (λ st. not (is_playing st)) (λ c. request_pause p c.uid) tts_paused
        (allowed pause_op) pause_allowed (λ c. request_frame pause_method (arg_int c.uid ∷ [])) h d

  unprepare_observed :
      (h : ℤ) (d : Library World)
      → observe (unprepare p (some h) d)
        ≡ machine_step (allowed unprepare_op) (answer_of p unprepare_op h d) h (states_of d)
  unfolding unprepare request_finalize ask_handles client_get pure ◌>>=◌ on_handles add_timer
  unprepare_observed h d = by_client (find_handle h d.handles.client_list) refl
    where
      by_client :
          (o : Option TtsClient)
          → find_handle h d.handles.client_list ≡ o
          → observe (unprepare p (some h) d)
            ≡ machine_step (allowed unprepare_op) (answer_of p unprepare_op h d) h (states_of d)
      by_client none e = rw e refl
      by_client (some c) e = rw e (
          rw (unprepare_allowed c.current_state)
            (elim (Bool-cases (not (is_ready c.current_state))) [
              | inl refused ↦ rw refused refl
              | inr taken ↦ rw taken (
                  ap (λ s. (error_none, view (change_client h (enter tts_created) s.client_list)))
                    (request_frame finalize_method (arg_int c.uid ∷ []) d)
                  ∙ ap (λ s. (error_none, s))
                      (view-entered h tts_created d.handles.client_list c e))
            ]))

  prepare_observed :
      (h : ℤ) (d : Library World)
      → observe (prepare p (some h) d)
        ≡ machine_step (allowed prepare_op) (answer_of p prepare_op h d) h (states_of d)
  unfolding prepare ask_handles client_get pure ◌>>=◌ add_timer
  prepare_observed h d = by_client (find_handle h d.handles.client_list) refl
    where
      by_state :
          (c : TtsClient) (st : TtsState)
          → c.current_state ≡ st
          → find_handle h d.handles.client_list ≡ some c
          → observe (prepare p (some h) d)
            ≡ machine_step (allowed prepare_op) (answer_of p prepare_op h d) h (states_of d)
      by_state c tts_created f e =
          rw e
            (rw f (ap (λ s. (error_none, s)) (view_kept h tts_created d.handles.client_list c e f)))
      by_state c tts_ready f e = rw e (rw f refl)
      by_state c tts_playing f e = rw e (rw f refl)
      by_state c tts_paused f e = rw e (rw f refl)
      by_state c (tts_other n) f e = rw e (rw f refl)

      by_client :
          (o : Option TtsClient)
          → find_handle h d.handles.client_list ≡ o
          → observe (prepare p (some h) d)
            ≡ machine_step (allowed prepare_op) (answer_of p prepare_op h d) h (states_of d)
      by_client none e = rw e refl
      by_client (some c) e = by_state c c.current_state refl e

  step_refines :
      (op : Operation) (h : ℤ) (d : Library World)
      → observe (perform p op h d) ≡ machine_step (allowed op) (answer_of p op h d) h (states_of d)
  step_refines prepare_op h d = prepare_observed h d
  step_refines unprepare_op h d = unprepare_observed h d
  step_refines play_op h d = play_observed h d
  step_refines stop_op h d = stop_observed h d
  step_refines pause_op h d = pause_observed h d

  -- Any sequence of the calls tts_prepare, tts_unprepare, tts_play, tts_stop and tts_pause on any handles
  -- does what the state machine does with the answers that the daemon gave along the way: the results are
  -- the same one by one, and in the end every handle is in the state that the machine says. The machine
  -- allows tts_stop wherever the handle is prepared, as the code does; the header asks for a handle that
  -- plays or is paused.
  pub library_run-refines :
      (ops : List (Operation × ℤ)) (d : Library World)
      → let (codes, answers, e) = library_run p ops d in
        machine_run ops answers (states_of d) ≡ (codes, states_of e)
  unfolding library_run machine_run
  library_run-refines [] d = refl
  library_run-refines ((op, h) ∷ ops) d =
      rw (sym (step_refines op h d)) (rw (library_run-refines ops (perform p op h d).1) refl)
