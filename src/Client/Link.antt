-- ===== src/Client/Link.antt =====
-- client/tts_dbus.c: the connection of the library to the bus, and its requests to the daemon.
use Prim.Native.String.{String}
use framework_uifw_voice_tts.Prelude.{
  ℕ, zero, suc, Bool, true, false, not, Option, none, some, List, [], ◌∷◌, ◌++◌, ℤ, pos, negsuc,
  is_nonzero, if◌then◌else◌,
}
use framework_uifw_voice_tts.Types.{error_invalid_parameter, error_operation_failed, minus_one}
use framework_uifw_voice_tts.Action.{Action, pure, ◌>>=◌, ◌>>◌, case_option}
use framework_uifw_voice_tts.Wire.{
  ServerMethod, hello_method, initialize_method, finalize_method, get_support_voices_method,
  get_current_voice_method, add_queue_method, play_method, stop_method, pause_method, Arg, arg_int,
  arg_string, get_int, get_int_string_int,
}
use framework_uifw_voice_tts.Platform.{Method}
use framework_uifw_voice_tts.Client.{Handles}

-- What the application is told.
pub data Notice : Type 0 where
  state_notice : ℤ → ℤ → Notice
  utterance_notice : ℤ → Notice
  error_notice : ℤ → ℤ → Notice

-- What the library calls and this repository does not implement: libdbus, the process table and fork
-- behind __tts_check_tts_daemon, and the application's callbacks. A Boolean answer says that the call
-- succeeded; a reply is the arguments of the answer, or `none` if there came none. A message that came in
-- is `none` if none waits, and its method is `none` if the library knows no such method.
pub record LibPlatform : Type 1 where
  pub World : Type 0
  pub pid : ℕ
  pub bus_get_private : World → Bool × World
  pub request_name : World → Bool × World
  pub add_match : World → Bool × World
  pub fd_handler_add : World → Bool × World
  pub connection_close : World → Unit {0} × World
  pub is_connected : World → Bool × World
  pub new_method_call : ServerMethod → World → Bool × World
  pub append_args : List Arg → World → Bool × World
  pub send_with_reply : ServerMethod → List Arg → World → Option (List Arg) × World
  pub pop_message : World → Option (Option Method × List Arg) × World
  pub send_reply : ℤ → World → Unit {0} × World
  pub check_daemon : World → ℤ × World
  pub application : ℕ → ℤ → Notice → World → Unit {0} × World
  pub voice_callback : ℕ → ℤ → String → ℤ → World → Bool × World

-- What a timer of the library runs, for the handle that it was given.
pub data LibTimer : Type 0 where
  connect_daemon_timer notify_state_timer notify_error_timer notify_started_timer
        notify_completed_timer :
      ℤ → LibTimer

-- The globals of the library: `g_is_daemon_started`, whether `g_conn` is set, the handles of
-- client/tts_client.c and the timers that wait in the application's main loop.
pub record Library (World : Type 0) : Type 0 where
  pub handles : Handles
  pub is_daemon_started : Bool
  pub conn : Bool
  pub timers : List LibTimer
  pub world : World

module _ {World : Type 0} where
  -- A call of something outside.
  unfoldable pub external : {A : Type 0} → (World → A × World) → Action (Library World) A
  external f d = ((f d.world).0, record d { world = (f d.world).1 })

  unfoldable pub ask_handles : {A : Type 0} → (Handles → A) → Action (Library World) A
  ask_handles f d = (f d.handles, d)

  unfoldable pub on_handles : (Handles → Handles) → Action (Library World) (Unit {0})
  on_handles f d = (tt, record d { handles = f d.handles })

  unfoldable pub set_conn : Bool → Action (Library World) (Unit {0})
  set_conn flag d = (tt, record d { conn = flag })

  unfoldable pub get_conn : Action (Library World) Bool
  get_conn d = (d.conn, d)

  unfoldable pub get_is_daemon_started : Action (Library World) Bool
  get_is_daemon_started d = (d.is_daemon_started, d)

  unfoldable pub set_is_daemon_started : Action (Library World) (Unit {0})
  set_is_daemon_started d = (tt, record d { is_daemon_started = true })

  -- ecore_timer_add (0, …)
  unfoldable pub add_timer : LibTimer → Action (Library World) (Unit {0})
  add_timer t d = (tt, record d { timers = d.timers ++ t ∷ [] })

module _ (p : LibPlatform) where
  open p use {
    World, pid, bus_get_private, request_name, add_match, fd_handler_add, connection_close,
    is_connected, new_method_call, append_args, send_with_reply, voice_callback,
  }

  -- A connection that was made but not set up stays in `g_conn`.
  unfoldable pub open_connection : Action (Library World) ℤ
  open_connection = do
    there ← get_conn
    if there then pure (pos 0) else do
      got ← external bus_get_private
      if not got then pure error_operation_failed else do
        set_conn true
        named ← external request_name
        if not named then pure error_operation_failed else do
          matched ← external add_match
          if not matched then pure error_operation_failed else do
            listening ← external fd_handler_add
            if not listening then pure error_operation_failed else pure (pos 0)

  unfoldable pub close_connection : Action (Library World) ℤ
  close_connection = do external connection_close; set_conn false; pure (pos 0)

  unfoldable pub reconnect : Action (Library World) ℤ
  reconnect = do
    connected ← external is_connected
    if connected then pure (pos 0) else do
      close_connection
      opened ← open_connection
      if is_nonzero opened then pure minus_one else pure (pos 0)

  -- A request without arguments, of which only the fact of an answer counts.
  unfoldable pub request_hello : Action (Library World) ℤ
  request_hello = do
    made ← external (new_method_call hello_method)
    if not made then pure error_operation_failed else do
      reply ← external (send_with_reply hello_method [])
      case_option reply (pure error_operation_failed) (λ args. pure (pos 0))

  -- The part that the requests below share: the message, its arguments, the answer and, if there is
  -- none, a look at the connection.
  unfoldable pub send_request : ServerMethod → List Arg → Action (Library World) (Option (List Arg))
  send_request method args = do
    made ← external (new_method_call method)
    if not made then pure none else do
      appended ← external (append_args args)
      if not appended then pure none else do
        reply ← external (send_with_reply method args)
        case_option reply (do reconnect; pure none) (λ answer. pure (some answer))

  -- The result of an answer: the first INT32, and TTS_ERROR_OPERATION_FAILED if it cannot be read.
  abbrev pub result_of : Option (List Arg) → ℤ
  result_of answer =
      case_option answer error_operation_failed
        λ args. case_option (get_int args) error_operation_failed (λ r. r)

  unfoldable pub request_result : ServerMethod → List Arg → Action (Library World) ℤ
  request_result method args = do answer ← send_request method args; pure (result_of answer)

  unfoldable pub request_initialize : ℤ → Action (Library World) ℤ
  request_initialize uid = request_result initialize_method (arg_int (pos pid) ∷ arg_int uid ∷ [])

  unfoldable pub request_finalize : ℤ → Action (Library World) ℤ
  request_finalize uid = request_result finalize_method (arg_int uid ∷ [])

  unfoldable pub request_play : ℤ → Action (Library World) ℤ
  request_play uid = request_result play_method (arg_int uid ∷ [])

  unfoldable pub request_stop : ℤ → Action (Library World) ℤ
  request_stop uid = request_result stop_method (arg_int uid ∷ [])

  unfoldable pub request_pause : ℤ → Action (Library World) ℤ
  request_pause uid = request_result pause_method (arg_int uid ∷ [])

  unfoldable pub request_add_text :
      ℤ → Option String → String → ℤ → ℤ → ℤ → Action (Library World) ℤ
  request_add_text uid text lang voice_type speed uttid =
      case_option text (pure error_invalid_parameter) λ t. request_result add_queue_method (
        arg_int uid
        ∷ arg_string t
        ∷ arg_string lang
        ∷ arg_int voice_type
        ∷ arg_int speed
        ∷ arg_int uttid
        ∷ [])

  -- The language and the type of the voice are written to the caller only with a result of 0.
  unfoldable pub request_get_default_voice : ℤ → Action (Library World) (ℤ × Option (String × ℤ))
  request_get_default_voice uid = do
    answer ← send_request get_current_voice_method (arg_int uid ∷ [])
    case_option answer (pure (error_operation_failed, none)) λ args.
        case_option (get_int_string_int args) (pure (error_operation_failed, none)) λ r.
          let (result, lang, voice_type) = r in
          if is_nonzero result then pure (result, none) else pure (result, some (lang, voice_type))

  -- The voices of an answer, handed to the callback until it declines. The count that comes first is
  -- believed: `none` is a voice that is read behind the end of the message.
  unfoldable pub each_voice : ℕ → ℕ → ℤ → List Arg → Action (Library World) (Option (Unit {0}))
  each_voice zero callback tts args = pure (some tt)
  each_voice (suc n) callback tts (arg_string lang ∷ arg_int voice_type ∷ rest) = do
    more ← external (voice_callback callback tts lang voice_type)
    if more then each_voice n callback tts rest else pure (some tt)
  each_voice (suc n) callback tts _ = pure none

  -- The part of an answer behind its result: the number of voices, and the voices. A number that is not
  -- there is `none` too, since it would be read from an uninitialised variable.
  unfoldable pub voices_of : ℕ → ℤ → List Arg → Action (Library World) (Option ℤ)
  voices_of callback tts (arg_int (pos n) ∷ rest) = do
    read ← each_voice n callback tts rest
    case_option read (pure none) (λ done. pure (some (pos 0)))
  voices_of callback tts (arg_int (negsuc _) ∷ rest) = pure (some (pos 0))
  voices_of callback tts _ = pure none

  unfoldable pub answered_voices : ℕ → ℤ → List Arg → Action (Library World) (Option ℤ)
  answered_voices callback tts (arg_int result ∷ rest) =
      if is_nonzero result then pure (some result) else voices_of callback tts rest
  answered_voices callback tts _ = pure (some error_operation_failed)

  unfoldable pub request_get_support_voice : ℤ → ℤ → ℕ → Action (Library World) (Option ℤ)
  request_get_support_voice uid tts callback = do
    answer ← send_request get_support_voices_method (arg_int uid ∷ [])
    case_option answer (pure (some error_operation_failed)) (answered_voices callback tts)
