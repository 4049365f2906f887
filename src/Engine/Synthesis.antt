-- ===== src/Engine/Synthesis.antt =====
-- server/ttsd_engine_agent.c: what the daemon has the current engine do for a text.
use Prim.Native.String.{String}
use framework_uifw_voice_tts.Prelude.{
  not, Option, none, some, ℤ, pos, ◌==ℤ◌, is_nonzero, if◌then◌else◌,
}
use framework_uifw_voice_tts.Types.{AudioType, error_invalid_voice, error_operation_failed}
use framework_uifw_voice_tts.Action.{Action, pure, ◌>>=◌, case_option}
use framework_uifw_voice_tts.Engine.{EnginePlatform, Agent, beyond, when_loaded}
use framework_uifw_voice_tts.Engine.Voices.{select_valid_voice}

-- A function of the engine: it may be missing, and any code but 0 is a failure.
abbrev pub plain_code : Option ℤ → ℤ
plain_code none = error_operation_failed
plain_code (some code) = if is_nonzero code then error_operation_failed else pos 0

module _ (p : EnginePlatform) where
  open p use {World, start_synth, cancel_synth, get_audio_format}

  unfoldable pub start_synthesis : String → ℤ → String → ℤ → ℤ × ℤ → Action (Agent World) ℤ
  start_synthesis lang vctype text speed user = when_loaded error_operation_failed λ d. do
    chosen ← select_valid_voice p lang vctype
    if not chosen.0 then pure error_invalid_voice else do
      code ←
          beyond (
            start_synth chosen.1 text (if speed ==ℤ pos 0 then d.cur.default_speed else speed) user)
      pure (plain_code code)

  unfoldable pub cancel_synthesis : Action (Agent World) ℤ
  cancel_synthesis =
      when_loaded error_operation_failed λ d. do code ← beyond cancel_synth; pure (plain_code code)

  -- The format is written to the caller only with a code of 0.
  unfoldable pub audio_format : Action (Agent World) (ℤ × Option (AudioType × ℤ × ℤ))
  audio_format =
      when_loaded (error_operation_failed, none)
        λ d. do
          answer ← beyond get_audio_format
          pure (
              case_option answer (error_operation_failed, none)
                λ r.
                  let (code, type, rate, channels) = r in
                  if is_nonzero code
                  then (error_operation_failed, none)
                  else (pos 0, some (type, rate, channels)))
