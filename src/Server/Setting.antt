-- ===== src/Server/Setting.antt =====
-- The requests of setting clients in server/ttsd_server.cpp that change the daemon's own state.
use Prim.Native.String.{String}
use framework_uifw_voice_tts.Prelude.{
  Bool, true, not, Option, none, some, ℤ, ◌==ℤ◌, is_nonzero, if◌then◌else◌,
}
use framework_uifw_voice_tts.Types.{
  AppState, state_ready, error_none, error_invalid_parameter, error_engine_not_found,
  error_operation_failed, minus_one,
}
use framework_uifw_voice_tts.Data.{delete_client, clear_data, set_client_state}
use framework_uifw_voice_tts.Data.Foreach.{foreach_clients}
use framework_uifw_voice_tts.Data.Setting.{is_setting, setting_add, setting_delete}
use framework_uifw_voice_tts.Action.{Action, pure, ◌>>=◌, ◌>>◌}
use framework_uifw_voice_tts.Platform.{Platform}
use framework_uifw_voice_tts.Daemon.{Daemon, outside, on_store, ask_store}
use framework_uifw_voice_tts.Dbus.{send_set_state_message}
use framework_uifw_voice_tts.Player.Messages.{all_stop}
use framework_uifw_voice_tts.Server.Client.{require_engine, load_for_first, unload_for_last}

module _ (p : Platform) where
  open p use {World, agent}

  unfoldable pub setting_initialize : ℤ → Action (Daemon World) ℤ
  setting_initialize uid = do
    engine ← require_engine p
    if not engine then pure error_engine_not_found else do
      index ← ask_store (is_setting uid)
      if not (index ==ℤ minus_one) then pure error_invalid_parameter else do
        loaded ← load_for_first p
        if not loaded then pure error_operation_failed else do
          added ← on_store (setting_add uid)
          if is_nonzero added then pure error_operation_failed else pure error_none

  unfoldable pub setting_finalize : ℤ → Action (Daemon World) ℤ
  setting_finalize uid = do
    index ← ask_store (is_setting uid)
    if index ==ℤ minus_one
        then pure error_invalid_parameter
        else do on_store (setting_delete uid); unload_for_last p; pure error_none

  -- __get_client_cb: each client is stopped and told; one that cannot be told is deleted.
  unfoldable pub reset_client : ℤ → ℤ → AppState → Action (Daemon World) Bool
  reset_client pid uid state = do
    on_store (clear_data uid)
    on_store (set_client_state uid state_ready)
    sent ← send_set_state_message p pid uid state_ready
    if is_nonzero sent then (do on_store (delete_client uid); pure true) else pure true

  -- The new engine is set once the loop over the clients is through.
  unfoldable pub set_engine_after : String → Option (ℤ × Daemon World) → Option (ℤ × Daemon World)
  set_engine_after engine_id none = none
  set_engine_after engine_id (some (code, d)) = some (outside (agent.set_engine engine_id) d)

  -- ttsd_server_setting_set_current_engine, `none` if the loop over the clients reads outside the table.
  unfoldable pub set_current_engine : ℤ → String → Daemon World → Option (ℤ × Daemon World)
  set_current_engine uid engine_id d =
      if is_setting uid d.store ==ℤ minus_one
      then some (error_invalid_parameter, d)
      else if (outside (agent.is_same_engine engine_id) d).0
      then some (error_none, (outside (agent.is_same_engine engine_id) d).1)
      else set_engine_after engine_id (
          foreach_clients (Daemon World) (λ e. e.store.app_list) (some reset_client)
            (all_stop p (outside (agent.is_same_engine engine_id) d).1).1)
