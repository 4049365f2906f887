-- ===== src/Client/Machine.antt =====
-- What client/tts.c lets be done with a handle: a state machine, in which a call is allowed in some
-- states, and moves to another if the daemon agrees. It knows no list of clients, no callbacks and no
-- connection.
pub mod View
pub mod Refines
use framework_uifw_voice_tts.Prelude.{
  Bool, true, false, Option, none, some, List, [], ◌∷◌, ℤ, pos, ◌==ℤ◌, is_nonzero, if◌then◌else◌,
}
use framework_uifw_voice_tts.Types.{error_none, error_invalid_parameter, error_invalid_state}
use framework_uifw_voice_tts.Action.{Action, case_option}
use framework_uifw_voice_tts.Client.{
  TtsState, tts_created, tts_ready, tts_playing, tts_paused, tts_other, TtsClient, Handles,
  find_handle,
}
use framework_uifw_voice_tts.Client.Link.{
  LibPlatform, Library, request_play, request_stop, request_pause,
}
use framework_uifw_voice_tts.Client.Api

-- The calls that depend on the state of a handle or change it.
pub data Operation : Type 0 where
  prepare_op unprepare_op play_op stop_op pause_op : Operation

-- The states of the handles of a process; `none` is no handle.
abbrev pub States : Type 0
States = ℤ → Option TtsState

abbrev pub set_state : ℤ → TtsState → States → States
set_state h state s k = if k ==ℤ h then some state else s k

-- The state that an operation leads to, where it is allowed. Stopping is allowed wherever the handle is
-- prepared, also where it is ready, which client/tts.h rules out; only playing can be paused.
abbrev pub allowed : Operation → TtsState → Option TtsState
allowed prepare_op tts_created = some tts_created
allowed unprepare_op tts_ready = some tts_created
allowed play_op tts_ready = some tts_playing
allowed play_op tts_paused = some tts_playing
allowed play_op (tts_other _) = some tts_playing
allowed stop_op tts_ready = some tts_ready
allowed stop_op tts_playing = some tts_ready
allowed stop_op tts_paused = some tts_ready
allowed stop_op (tts_other _) = some tts_ready
allowed pause_op tts_playing = some tts_paused
allowed _ _ = none

-- The move to an allowed state, which the daemon's answer decides.
abbrev pub decided : ℤ → ℤ → TtsState → States → ℤ × States
decided answer h state s =
    if is_nonzero answer then (answer, s) else (error_none, set_state h state s)

-- An operation on a handle, with the daemon's answer.
abbrev pub machine_step : (TtsState → Option TtsState) → ℤ → ℤ → States → ℤ × States
machine_step table answer h s =
    case_option (s h) (error_invalid_parameter, s)
      λ state. case_option (table state) (error_invalid_state, s) λ next. decided answer h next s

-- Operations on handles, one after another, with the daemon's answers.
unfoldable pub machine_run : List (Operation × ℤ) → List ℤ → States → List ℤ × States
machine_run [] answers s = ([], s)
machine_run (_ ∷ _) [] s = ([], s)
machine_run ((op, h) ∷ ops) (answer ∷ answers) s =
    let (code, t) = machine_step (allowed op) answer h s in
    let (codes, u) = machine_run ops answers t in (code ∷ codes, u)

-- The states of the handles on a list of clients, and of those that the library has.
abbrev pub view : List TtsClient → States
view l h = case_option (find_handle h l) none (λ c. some c.current_state)

abbrev pub states_of : {World : Type 0} → Library World → States
states_of d = view d.handles.client_list

module _ (p : LibPlatform) where
  open p use {World}

  abbrev pub perform : Operation → ℤ → Action (Library World) ℤ
  perform prepare_op h = Api.prepare p (some h)
  perform unprepare_op h = Api.unprepare p (some h)
  perform play_op h = Api.play p (some h)
  perform stop_op h = Api.stop p (some h)
  perform pause_op h = Api.pause p (some h)

  -- What the daemon answers to an operation on a client; preparing does not ask it, and unpreparing does
  -- not heed it.
  abbrev pub daemon_answer : Operation → TtsClient → Library World → ℤ
  daemon_answer prepare_op c d = error_none
  daemon_answer unprepare_op c d = error_none
  daemon_answer play_op c d = (request_play p c.uid d).0
  daemon_answer stop_op c d = (request_stop p c.uid d).0
  daemon_answer pause_op c d = (request_pause p c.uid d).0

  abbrev pub answer_of : Operation → ℤ → Library World → ℤ
  answer_of op h d =
      case_option (find_handle h d.handles.client_list) error_none (λ c. daemon_answer op c d)

  -- Operations on the library, with their results and the answers that the daemon gave.
  unfoldable pub library_run :
      List (Operation × ℤ) → Library World → List ℤ × List ℤ × Library World
  library_run [] d = ([], [], d)
  library_run ((op, h) ∷ ops) d =
      let (code, e) = perform op h d in
      let (codes, answers, f) = library_run ops e in (code ∷ codes, answer_of op h d ∷ answers, f)
