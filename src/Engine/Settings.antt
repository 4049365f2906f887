-- ===== src/Engine/Settings.antt =====
-- server/ttsd_engine_agent.c: the requests of setting clients.
pub mod Rollback
use Prim.Native.String.{String}
use framework_uifw_voice_tts.Prelude.{
  ℕ, Bool, true, false, not, Option, none, some, List, [], ◌∷◌, ℤ, pos, is_nonzero, if◌then◌else◌,
}
use framework_uifw_voice_tts.Types.{
  error_invalid_voice, error_engine_not_found, error_operation_failed,
}
use framework_uifw_voice_tts.Action.{Action, pure, ◌>>=◌, ◌>>◌, case_option}
use framework_uifw_voice_tts.Platform.{Voice, Engine, EngineSetting}
use framework_uifw_voice_tts.Engine.{
  EngineInfo, CurrentEngine, EnginePlatform, Agent, beyond, get_agent, on_current, when_loaded,
}
use framework_uifw_voice_tts.Engine.Current.{
  is_current, set_current_engine, set_voice, set_speed, update_engine_list, load_current_engine,
  unload_current_engine,
}
use framework_uifw_voice_tts.Engine.Voices.{get_voice_list, get_default_voice}
use framework_uifw_voice_tts.Engine.Synthesis.{plain_code}

abbrev pub uuid_of : Option EngineInfo → String
uuid_of none = ""
uuid_of (some e) = e.engine_uuid

unfoldable pub engines_of : List EngineInfo → List Engine
engines_of [] = []
engines_of (e ∷ l) =
    record { engine_id = e.engine_uuid; engine_name = e.engine_name; ug_name = e.setting_ug_path }
    ∷ engines_of l

module _ (p : EnginePlatform) where
  open p use {
    World, config_set_default_voice, config_set_default_speed, config_set_default_engine,
    is_valid_voice, foreach_engine_setting, set_engine_setting,
  }

  unfoldable pub setting_get_engine_list : Action (Agent World) (ℤ × List Engine)
  setting_get_engine_list = do
    d ← get_agent
    if not d.agent_init then pure (error_operation_failed, []) else do
      updated ← update_engine_list p
      e ← get_agent
      pure (
          if is_nonzero updated
          then (error_operation_failed, [])
          else (pos 0, engines_of e.engine_list))

  unfoldable pub setting_get_engine : Action (Agent World) (ℤ × String)
  setting_get_engine = do
    d ← get_agent
    pure (
        if not d.agent_init
        then (error_operation_failed, "")
        else if not d.cur.is_loaded
        then (error_engine_not_found, "")
        else (pos 0, uuid_of d.cur.info))

  -- The end of ttsd_engine_setting_set_engine, with the result of choosing the new engine.
  unfoldable pub load_chosen : String → String → ℤ → Action (Agent World) ℤ
  load_chosen old id set =
      if is_nonzero set
      then (do set_current_engine old; load_current_engine p; pure error_operation_failed)
      else (do
        loaded ← load_current_engine p
        if is_nonzero loaded
            then pure error_operation_failed
            else do beyond (config_set_default_engine id); pure (pos 0))

  -- There is a current engine where this is called: the daemon has initialised one before.
  unfoldable pub setting_set_engine : String → Action (Agent World) ℤ
  setting_set_engine id = do
    d ← get_agent
    if not d.agent_init
        then pure error_operation_failed
        else if is_current id d.cur.info
        then pure (pos 0)
        else do
          unload_current_engine p
          set ← set_current_engine id
          load_chosen (uuid_of d.cur.info) id set

  unfoldable pub setting_get_voice_list : Action (Agent World) (ℤ × String × List Voice)
  setting_get_voice_list =
      when_loaded (error_operation_failed, "", [])
        λ d. do
          r ← get_voice_list p
          pure (if is_nonzero r.0 then (r.0, "", []) else (pos 0, uuid_of d.cur.info, r.1))

  unfoldable pub setting_get_default_voice : Action (Agent World) (ℤ × Option (String × ℤ))
  setting_get_default_voice = when_loaded (error_operation_failed, none) λ d. get_default_voice p

  unfoldable pub setting_set_default_voice : String → ℤ → Action (Agent World) ℤ
  setting_set_default_voice lang type = when_loaded error_operation_failed λ d. do
    valid ← beyond (is_valid_voice lang type)
    case_option valid (pure error_operation_failed) λ yes.
        if not yes then pure error_invalid_voice else do
          on_current (set_voice (record { language = lang; voice_type = type }))
          beyond (config_set_default_voice lang type)
          pure (pos 0)

  unfoldable pub setting_get_default_speed : Action (Agent World) (ℤ × ℤ)
  setting_get_default_speed =
      when_loaded (error_operation_failed, pos 0) λ d. pure (pos 0, d.cur.default_speed)

  unfoldable pub setting_set_default_speed : ℤ → Action (Agent World) ℤ
  setting_set_default_speed speed =
      when_loaded error_operation_failed
        λ d. do on_current (set_speed speed); beyond (config_set_default_speed speed); pure (pos 0)

  -- No settings are an error too.
  abbrev pub some_settings : String → ℤ × List EngineSetting → ℤ × String × List EngineSetting
  some_settings id (code, []) = (error_operation_failed, "", [])
  some_settings id (code, s ∷ l) =
      if is_nonzero code then (error_operation_failed, "", []) else (pos 0, id, s ∷ l)

  unfoldable pub setting_get_engine_setting_info :
      Action (Agent World) (ℤ × String × List EngineSetting)
  setting_get_engine_setting_info =
      when_loaded (error_operation_failed, "", [])
        λ d. do
          answer ← beyond foreach_engine_setting
          pure (
              case_option answer (error_operation_failed, "", [])
                (some_settings (uuid_of d.cur.info)))

  unfoldable pub setting_set_engine_setting : String → String → Action (Agent World) ℤ
  setting_set_engine_setting key value =
      when_loaded error_operation_failed
        λ d. do code ← beyond (set_engine_setting key value); pure (plain_code code)
