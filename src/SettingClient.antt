-- ===== src/SettingClient.antt =====
-- client/tts_setting.c and client/tts_setting_dbus.c: the library of the applications that change the
-- settings. This file has its globals, what it calls, and its connection to the bus; SettingClient.Requests
-- has the requests to the daemon and SettingClient.Calls the calls of an application.
use Prim.Native.String.{String}
use framework_uifw_voice_tts.Prelude.{
  ℕ, Bool, true, false, not, Option, List, [], ◌∷◌, ◌++◌, ℤ, pos, if◌then◌else◌,
}
use framework_uifw_voice_tts.Types.{error_operation_failed}
use framework_uifw_voice_tts.Action.{Action, pure, ◌>>=◌, ◌>>◌}
use framework_uifw_voice_tts.Wire.{ServerMethod, Arg}
pub mod Requests
pub mod Calls
pub mod Keeps
pub mod Lifetime
pub mod Examples

-- tts_setting_state_e
pub data SettingState : Type 0 where
  setting_state_none setting_state_ready : SettingState

-- What the library calls and this repository does not implement. `append_args` says what the message holds
-- after it, since the library does not look whether it failed; `strdup` says whether there was memory; a
-- reply is the arguments of the answer, or `none` if there came none.
pub record SettingPlatform : Type 1 where
  pub World : Type 0
  pub pid : ℕ
  pub bus_get_private : World → Bool × World
  pub request_name : World → Bool × World
  pub release_name : World → Unit {0} × World
  pub connection_close : World → Unit {0} × World
  pub new_method_call : ServerMethod → World → Bool × World
  pub append_args : List Arg → World → List Arg × World
  pub send_with_reply : ServerMethod → List Arg → World → Option (List Arg) × World
  pub strdup : String → World → Option String × World
  pub check_daemon : World → ℤ × World
  pub sleep : World → Unit {0} × World
  pub initialized_callback : ℕ → SettingState → ℤ → World → Unit {0} × World
  pub engine_callback : ℕ → String → String → String → World → Bool × World
  pub voice_callback : ℕ → String → String → ℤ → World → Bool × World
  pub setting_callback : ℕ → String → String → String → World → Bool × World

pub data SettingTimer : Type 0 where
  connect_daemon_timer initialized_timer : SettingTimer

-- The globals: g_is_daemon_started, g_state, g_initialized_cb with g_user_data, g_reason, whether g_conn is
-- set, and the timers that wait.
pub record SettingLibrary (World : Type 0) : Type 0 where
  pub is_daemon_started : Bool
  pub state : SettingState
  pub initialized_cb : ℕ
  pub reason : ℤ
  pub conn : Bool
  pub timers : List SettingTimer
  pub world : World

module _ {World : Type 0} where
  unfoldable pub beyond : {A : Type 0} → (World → A × World) → Action (SettingLibrary World) A
  beyond f d = ((f d.world).0, record d { world = (f d.world).1 })

  unfoldable pub get_library : Action (SettingLibrary World) (SettingLibrary World)
  get_library d = (d, d)

  unfoldable pub set_state : SettingState → Action (SettingLibrary World) (Unit {0})
  set_state s d = (tt, record d { state = s })

  unfoldable pub set_reason : ℤ → Action (SettingLibrary World) (Unit {0})
  set_reason r d = (tt, record d { reason = r })

  unfoldable pub set_conn : Bool → Action (SettingLibrary World) (Unit {0})
  set_conn b d = (tt, record d { conn = b })

  unfoldable pub set_daemon_started : Action (SettingLibrary World) (Unit {0})
  set_daemon_started d = (tt, record d { is_daemon_started = true })

  unfoldable pub set_callback : ℕ → Action (SettingLibrary World) (Unit {0})
  set_callback callback d = (tt, record d { initialized_cb = callback })

  unfoldable pub add_timer : SettingTimer → Action (SettingLibrary World) (Unit {0})
  add_timer t d = (tt, record d { timers = d.timers ++ t ∷ [] })

module _ (p : SettingPlatform) where
  open p use {World, bus_get_private, request_name, release_name, connection_close}

  -- A connection without a name stays in `g_conn`.
  unfoldable pub open_connection : Action (SettingLibrary World) ℤ
  open_connection = do
    d ← get_library
    if d.conn then pure (pos 0) else do
      got ← beyond bus_get_private
      if not got then pure error_operation_failed else do
        set_conn true
        named ← beyond request_name
        if named then pure (pos 0) else pure error_operation_failed

  unfoldable pub close_connection : Action (SettingLibrary World) ℤ
  close_connection = do beyond release_name; beyond connection_close; set_conn false; pure (pos 0)
