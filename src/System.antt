-- ===== src/System.antt =====
-- The library of client/ and the daemon of server/ together, on a bus that delivers: every request of the
-- library reaches the daemon's listener (server/ttsd_dbus.c), and its answer comes back.
pub mod Delivered
pub mod Voices
pub mod Agreement
pub mod Settings
mod Examples
use Prim.Native.String.{String}
use framework_uifw_voice_tts.Prelude.{ℕ, Bool, true, Option, none, some, List, ℤ, pos}
use framework_uifw_voice_tts.Wire.{ServerMethod, Arg}
use framework_uifw_voice_tts.Platform.{Platform}
use framework_uifw_voice_tts.Daemon.{Daemon}
use framework_uifw_voice_tts.DbusServer.{serve}
use framework_uifw_voice_tts.Client.Link.{Notice, LibPlatform}

-- What an application brings along: its process id, and its callbacks, on a state of its own.
pub record Application : Type 1 where
  pub State : Type 0
  pub pid : ℕ
  pub notify : ℕ → ℤ → Notice → State → State
  pub on_voice : ℕ → ℤ → String → ℤ → State → Bool × State

module _ (p : Platform) (q : Application) where
  -- A call that always succeeds and changes nothing.
  abbrev fine : {A : Type 0} → A → Daemon p.World × q.State → A × (Daemon p.World × q.State)
  fine a w = (a, w)

  abbrev deliver :
      ServerMethod
      → List Arg
      → Daemon p.World × q.State
      → Option (List Arg) × (Daemon p.World × q.State)
  deliver method args w = elim (serve p method args w.0) [
    | none ↦ (none, w)
    | some r ↦ (some r.0, (r.1, w.1))
  ]

  -- The library's surroundings, with the daemon in them. A daemon that reads outside its table does not
  -- answer.
  abbrev pub linked : LibPlatform
  linked = record {
    World = Daemon p.World × q.State;
    pid = q.pid;
    bus_get_private = fine true;
    request_name = fine true;
    add_match = fine true;
    fd_handler_add = fine true;
    connection_close = fine tt;
    is_connected = fine true;
    new_method_call = λ m. fine true;
    append_args = λ args. fine true;
    send_with_reply = deliver;
    pop_message = fine none;
    send_reply = λ n. fine tt;
    check_daemon = fine (pos 0);
    application = λ f tts n w. (tt, (w.0, q.notify f tts n w.1));
    voice_callback =
        λ f tts lang voice w. let (more, s) = q.on_voice f tts lang voice w.1 in (more, (w.0, s));
  }
