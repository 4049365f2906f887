-- ===== src/DbusServer/SettingRequests.antt =====
-- server/ttsd_dbus_server.c: the requests of setting clients, read from a message and answered with one.
use framework_uifw_voice_tts.Prelude.{Option, none, some, List, [], ◌∷◌, pos, length}
use framework_uifw_voice_tts.Types.{error_operation_failed}
use framework_uifw_voice_tts.Wire.{
  Arg, arg_int, arg_string, get_int, get_int_int, get_int_string, get_int_string_int,
  get_int_string_string,
}
use framework_uifw_voice_tts.Action.{Action, ◌>>=◌, case_option}
use framework_uifw_voice_tts.Platform.{Platform}
use framework_uifw_voice_tts.Daemon.{Daemon}
use framework_uifw_voice_tts.Server.Setting
use framework_uifw_voice_tts.Server.Queries.{
  no_voice, setting_get_engine_list, setting_get_current_engine, setting_get_voice_list,
  setting_get_default_voice, setting_set_default_voice, setting_get_engine_setting,
  setting_set_engine_setting, setting_get_default_speed, setting_set_default_speed,
}
use framework_uifw_voice_tts.DbusServer.Reply.{
  voice_args, engine_args, setting_args, with_result, respond, run_request, answer_request,
}

module _ (p : Platform) where
  open p use {World}

  unfoldable pub setting_initialize : List Arg → Action (Daemon World) (List Arg)
  setting_initialize args = answer_request p (get_int args) λ uid. Setting.setting_initialize p uid

  unfoldable pub setting_finalize : List Arg → Action (Daemon World) (List Arg)
  setting_finalize args = answer_request p (get_int args) λ uid. Setting.setting_finalize p uid

  unfoldable pub set_default_voice : List Arg → Action (Daemon World) (List Arg)
  set_default_voice args =
      answer_request p (get_int_string_int args) λ r. setting_set_default_voice p r.0 r.1 r.2

  unfoldable pub set_speed : List Arg → Action (Daemon World) (List Arg)
  set_speed args = answer_request p (get_int_int args) λ r. setting_set_default_speed p r.0 r.1

  unfoldable pub set_engine_setting : List Arg → Action (Daemon World) (List Arg)
  set_engine_setting args =
      answer_request p (get_int_string_string args) λ r. setting_set_engine_setting p r.0 r.1 r.2

  unfoldable pub get_engine_list : List Arg → Action (Daemon World) (List Arg)
  get_engine_list args = do
    r ← run_request p (error_operation_failed, []) (get_int args) (setting_get_engine_list p)
    respond p (with_result r.0 (arg_int (pos (length r.1)) ∷ engine_args r.1))

  unfoldable pub get_engine : List Arg → Action (Daemon World) (List Arg)
  get_engine args = do
    r ← run_request p (error_operation_failed, "") (get_int args) (setting_get_current_engine p)
    respond p (with_result r.0 (arg_string r.1 ∷ []))

  -- `none` if a loop over the clients reads outside their table.
  unfoldable pub set_engine : List Arg → Daemon World → Option (List Arg × Daemon World)
  set_engine args d =
      case_option (get_int_string args) (some (respond p (arg_int error_operation_failed ∷ []) d))
        λ r.
          case_option (Setting.set_current_engine p r.0 r.1 d) none
            λ s. some (respond p (arg_int s.0 ∷ []) s.1)

  unfoldable pub get_voice_list : List Arg → Action (Daemon World) (List Arg)
  get_voice_list args = do
    r ← run_request p (error_operation_failed, "", []) (get_int args) (setting_get_voice_list p)
    respond p (with_result r.0 (arg_string r.1 ∷ arg_int (pos (length r.2)) ∷ voice_args r.2))

  unfoldable pub get_default_voice : List Arg → Action (Daemon World) (List Arg)
  get_default_voice args = do
    r ←
        run_request p (error_operation_failed, no_voice) (get_int args)
          (setting_get_default_voice p)
    respond p (with_result r.0 (arg_string r.1.language ∷ arg_int r.1.voice_type ∷ []))

  unfoldable pub get_speed : List Arg → Action (Daemon World) (List Arg)
  get_speed args = do
    r ← run_request p (error_operation_failed, pos 0) (get_int args) (setting_get_default_speed p)
    respond p (with_result r.0 (arg_int r.1 ∷ []))

  unfoldable pub get_engine_setting : List Arg → Action (Daemon World) (List Arg)
  get_engine_setting args = do
    r ← run_request p (error_operation_failed, "", []) (get_int args) (setting_get_engine_setting p)
    respond p (with_result r.0 (arg_string r.1 ∷ arg_int (pos (length r.2)) ∷ setting_args r.2))
