-- ===== src/DbusServer/Requests.antt =====
-- server/ttsd_dbus_server.c: the requests of clients, read from a message and answered with one.
use framework_uifw_voice_tts.Prelude.{List, [], ◌∷◌, pos, length}
use framework_uifw_voice_tts.Types.{error_operation_failed}
use framework_uifw_voice_tts.Wire.{Arg, arg_int, arg_string, get_int, get_int_int, get_text}
use framework_uifw_voice_tts.Action.{Action, ◌>>=◌}
use framework_uifw_voice_tts.Platform.{Platform}
use framework_uifw_voice_tts.Daemon.{Daemon}
use framework_uifw_voice_tts.Server
use framework_uifw_voice_tts.Server.Client
use framework_uifw_voice_tts.Server.Queries.{no_voice, get_support_voices, get_current_voice}
use framework_uifw_voice_tts.DbusServer.Reply.{
  voice_args, with_result, respond, run_request, answer_request,
}

module _ (p : Platform) where
  open p use {World}

  -- The answer has no arguments.
  unfoldable pub hello : Action (Daemon World) (List Arg)
  hello = respond p []

  unfoldable pub initialize : List Arg → Action (Daemon World) (List Arg)
  initialize args = answer_request p (get_int_int args) λ r. Client.initialize p r.0 r.1

  unfoldable pub finalize : List Arg → Action (Daemon World) (List Arg)
  finalize args = answer_request p (get_int args) λ uid. Client.finalize p uid

  unfoldable pub add_text : List Arg → Action (Daemon World) (List Arg)
  add_text args = answer_request p (get_text args) λ r.
      let (uid, text, lang, voice_type, speed, uttid) = r in
      Client.add_queue p uid text lang voice_type speed uttid

  unfoldable pub play : List Arg → Action (Daemon World) (List Arg)
  play args = answer_request p (get_int args) λ uid. Client.play p uid

  unfoldable pub stop : List Arg → Action (Daemon World) (List Arg)
  stop args = answer_request p (get_int args) λ uid. Server.stop p uid

  unfoldable pub pause : List Arg → Action (Daemon World) (List Arg)
  pause args = answer_request p (get_int args) λ uid. Client.pause p uid

  unfoldable pub support_voices : List Arg → Action (Daemon World) (List Arg)
  support_voices args = do
    r ← run_request p (error_operation_failed, []) (get_int args) (get_support_voices p)
    respond p (with_result r.0 (arg_int (pos (length r.1)) ∷ voice_args r.1))

  unfoldable pub current_voice : List Arg → Action (Daemon World) (List Arg)
  current_voice args = do
    r ← run_request p (error_operation_failed, no_voice) (get_int args) (get_current_voice p)
    respond p (with_result r.0 (arg_string r.1.language ∷ arg_int r.1.voice_type ∷ []))
