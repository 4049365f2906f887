-- ===== src/Server/Queries.antt =====
-- The requests of server/ttsd_server.cpp that check the caller and ask the engine agent. What a refused
-- request would leave in its result is not read by any caller.
use Prim.Native.String.{String}
use framework_uifw_voice_tts.Prelude.{
  List, [], ℤ, pos, ◌==ℤ◌, is_nonzero, is_negative, if◌then◌else◌,
}
use framework_uifw_voice_tts.Types.{
  state_created, error_none, error_invalid_parameter, error_operation_failed, minus_one,
}
use framework_uifw_voice_tts.Data.{get_client_state}
use framework_uifw_voice_tts.Data.Setting.{is_setting}
use framework_uifw_voice_tts.Action.{Action, pure, ◌>>=◌}
use framework_uifw_voice_tts.Platform.{Platform, Voice, Engine, EngineSetting}
use framework_uifw_voice_tts.Daemon.{Daemon, outside, ask_store}

abbrev pub no_voice : Voice
no_voice = record { language = ""; voice_type = pos 0 }

module _ (p : Platform) where
  open p use {World, settings}

  unfoldable pub get_support_voices : ℤ → Action (Daemon World) (ℤ × List Voice)
  get_support_voices uid = do
    client ← ask_store (get_client_state uid state_created)
    if is_negative client.0 then pure (error_invalid_parameter, []) else do
      voices ← outside settings.get_voice_list
      if is_nonzero voices.0 then pure (error_operation_failed, []) else pure (error_none, voices.1)

  unfoldable pub get_current_voice : ℤ → Action (Daemon World) (ℤ × Voice)
  get_current_voice uid = do
    client ← ask_store (get_client_state uid state_created)
    if is_negative client.0
        then pure (error_invalid_parameter, no_voice)
        else do outside settings.get_default_voice

  -- The check with which the requests of a setting client begin. The code of the engine agent is the
  -- request's own.
  unfoldable pub as_setting : {A : Type 0} → ℤ → A → (World → A × World) → Action (Daemon World) A
  as_setting uid refused f = do
    index ← ask_store (is_setting uid)
    if index ==ℤ minus_one then pure refused else outside f

  unfoldable pub setting_get_engine_list : ℤ → Action (Daemon World) (ℤ × List Engine)
  setting_get_engine_list uid =
      as_setting uid (error_invalid_parameter, []) settings.setting_get_engine_list

  unfoldable pub setting_get_current_engine : ℤ → Action (Daemon World) (ℤ × String)
  setting_get_current_engine uid =
      as_setting uid (error_invalid_parameter, "") settings.setting_get_engine

  unfoldable pub setting_get_voice_list : ℤ → Action (Daemon World) (ℤ × String × List Voice)
  setting_get_voice_list uid =
      as_setting uid (error_invalid_parameter, "", []) settings.setting_get_voice_list

  unfoldable pub setting_get_default_voice : ℤ → Action (Daemon World) (ℤ × Voice)
  setting_get_default_voice uid =
      as_setting uid (error_invalid_parameter, no_voice) settings.setting_get_default_voice

  unfoldable pub setting_set_default_voice : ℤ → String → ℤ → Action (Daemon World) ℤ
  setting_set_default_voice uid language voice_type =
      as_setting uid error_invalid_parameter
        (settings.setting_set_default_voice language voice_type)

  unfoldable pub setting_get_engine_setting :
      ℤ → Action (Daemon World) (ℤ × String × List EngineSetting)
  setting_get_engine_setting uid =
      as_setting uid (error_invalid_parameter, "", []) settings.setting_get_engine_setting_info

  unfoldable pub setting_set_engine_setting : ℤ → String → String → Action (Daemon World) ℤ
  setting_set_engine_setting uid key value =
      as_setting uid error_invalid_parameter (settings.setting_set_engine_setting key value)

  unfoldable pub setting_get_default_speed : ℤ → Action (Daemon World) (ℤ × ℤ)
  setting_get_default_speed uid =
      as_setting uid (error_invalid_parameter, pos 0) settings.setting_get_default_speed

  unfoldable pub setting_set_default_speed : ℤ → ℤ → Action (Daemon World) ℤ
  setting_set_default_speed uid speed =
      as_setting uid error_invalid_parameter (settings.setting_set_default_speed speed)
