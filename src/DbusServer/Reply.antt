-- ===== src/DbusServer/Reply.antt =====
-- server/ttsd_dbus_server.c: how the answers to requests are put together and sent.
use framework_uifw_voice_tts.Prelude.{Option, List, [], ◌∷◌, ℤ, is_nonzero, if◌then◌else◌}
use framework_uifw_voice_tts.Types.{error_operation_failed}
use framework_uifw_voice_tts.Wire.{Arg, arg_int, arg_string}
use framework_uifw_voice_tts.Action.{Action, pure, ◌>>=◌, ◌>>◌, case_option}
use framework_uifw_voice_tts.Platform.{Platform, Voice, Engine, EngineSetting}
use framework_uifw_voice_tts.Daemon.{Daemon, outside}

-- The loops over a result, which put the members of each element behind the others.
unfoldable pub voice_args : List Voice → List Arg
voice_args [] = []
voice_args (v ∷ l) = arg_string v.language ∷ arg_int v.voice_type ∷ voice_args l

unfoldable pub engine_args : List Engine → List Arg
engine_args [] = []
engine_args (e ∷ l) =
    arg_string e.engine_id ∷ arg_string e.engine_name ∷ arg_string e.ug_name ∷ engine_args l

unfoldable pub setting_args : List EngineSetting → List Arg
setting_args [] = []
setting_args (s ∷ l) = arg_string s.key ∷ arg_string s.value ∷ setting_args l

-- A result, and what follows it if it is 0.
abbrev pub with_result : ℤ → List Arg → List Arg
with_result ret args = if is_nonzero ret then arg_int ret ∷ [] else arg_int ret ∷ args

module _ (p : Platform) where
  open p use {World, bus}

  unfoldable pub respond : List Arg → Action (Daemon World) (List Arg)
  respond args = do outside (bus.send_reply args); pure args

  -- A request whose arguments cannot be read is not run: its result is TTSD_ERROR_OPERATION_FAILED.
  unfoldable pub run_request :
      {A B : Type 0} → B → Option A → (A → Action (Daemon World) B) → Action (Daemon World) B
  run_request failed parsed f = case_option parsed (pure failed) f

  -- A request that is answered with its result alone.
  unfoldable pub answer_request :
      {A : Type 0} → Option A → (A → Action (Daemon World) ℤ) → Action (Daemon World) (List Arg)
  answer_request parsed f = do
    ret ← run_request error_operation_failed parsed f
    respond (arg_int ret ∷ [])
