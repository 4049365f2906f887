-- ===== src/Engine/Voices.antt =====
-- server/ttsd_engine_agent.c: the voices of the current engine, and which one a client gets.
pub mod Choice
use Prim.Native.String.{String}
use framework_uifw_voice_tts.Prelude.{
  ℕ, Bool, true, false, not, ◌&&◌, Option, none, some, List, [], ◌∷◌, ℤ, pos, ◌==ℤ◌, is_nonzero,
  if◌then◌else◌,
}
use framework_uifw_voice_tts.Types.{error_operation_failed}
use framework_uifw_voice_tts.Action.{Action, pure, ◌>>=◌, ◌>>◌, case_option}
use framework_uifw_voice_tts.Platform.{Voice}
use framework_uifw_voice_tts.Engine.{
  has_prefix, CurrentEngine, EnginePlatform, Agent, beyond, get_agent, on_current, when_loaded,
}
use framework_uifw_voice_tts.Engine.Current.{take_first_voice}

-- What a client asks for by "default" and by the type 0.
abbrev pub is_default : String → Bool
is_default lang = has_prefix lang "default"

-- The default language; it is set when the agent is initialised.
abbrev pub language_of : CurrentEngine → String
language_of c = case_option c.default_lang "" (λ l. l)

abbrev pub default_voice_of : CurrentEngine → String × ℤ
default_voice_of c = (language_of c, c.default_vctype)

-- The loop for a language and a type.
unfoldable pub find_voice : String → ℤ → List Voice → Option (String × ℤ)
find_voice lang type [] = none
find_voice lang type (v ∷ l) =
    if has_prefix v.language lang && v.voice_type ==ℤ type
    then some (v.language, v.voice_type)
    else find_voice lang type l

-- The loops for a language where the type only is preferred: `voice_selected`, the last voice of that
-- language unless one has the type, and `voice`, the one that was read last.
unfoldable pub prefer_voice :
    String → ℤ → Option Voice → Option Voice → List Voice → Option Voice × Option Voice
prefer_voice lang type selected voice [] = (selected, voice)
prefer_voice lang type selected voice (v ∷ l) =
    let here = has_prefix v.language lang in
    let rest = prefer_voice lang type (if here then some v else selected) (some v) l in
    if here && v.voice_type ==ℤ type then (some v, some v) else rest

-- The language comes from one of the two voices, and the type from the first.
abbrev pub voice_from : Option Voice → Option Voice → Option (String × ℤ)
voice_from none voice = none
voice_from (some s) none = none
voice_from (some s) (some v) = some (v.language, s.voice_type)

abbrev pub both : Option Voice → Option (String × ℤ)
both selected = voice_from selected selected

-- The three cases behind the first, with the voices of the engine.
unfoldable pub choose_voice : CurrentEngine → String → ℤ → List Voice → Option (String × ℤ)
choose_voice c lang type l =
    if not (is_default lang) && is_nonzero type
    then find_voice lang type l
    else if not (is_default lang)
    then (if has_prefix lang (language_of c)
        then some (default_voice_of c)
        else both (prefer_voice lang c.default_vctype none none l).0)
    else (if type ==ℤ c.default_vctype
        then some (default_voice_of c)
        else (let (selected, voice) = prefer_voice (language_of c) type none none l in
            voice_from selected voice))

-- No voices at all are a failure.
unfoldable pub choose_listed : CurrentEngine → String → ℤ → List Voice → Option (String × ℤ)
choose_listed c lang type [] = none
choose_listed c lang type (v ∷ l) = choose_voice c lang type (v ∷ l)

abbrev pub is_found : Option (String × ℤ) → Bool
is_found none = false
is_found (some _) = true

module _ (p : EnginePlatform) where
  open p use {World, foreach_voices}

  -- ttsd_engine_select_valid_voice, with the voice that it writes. An engine without a list of voices is
  -- answered with an error code, which as a `bool` is `true`, and no voice is written.
  unfoldable pub select_valid_voice : String → ℤ → Action (Agent World) (Bool × Option (String × ℤ))
  select_valid_voice lang type = do
    d ← get_agent
    if is_default lang && not (is_nonzero type)
        then pure (true, some (default_voice_of d.cur))
        else do
          listed ← beyond foreach_voices
          case_option listed (pure (true, none)) λ r.
              if is_nonzero r.0
              then pure (false, none)
              else do let voice = choose_listed d.cur lang type r.1; pure (is_found voice, voice)

  unfoldable pub get_voice_list : Action (Agent World) (ℤ × List Voice)
  get_voice_list =
      when_loaded (error_operation_failed, [])
        λ d. do
          listed ← beyond foreach_voices
          pure (
              case_option listed (error_operation_failed, [])
                λ r. if is_nonzero r.0 then (error_operation_failed, []) else (pos 0, r.1))

  -- ttsd_engine_get_default_voice: where no voice is set, the first of the engine is, as when it is loaded.
  unfoldable pub get_default_voice : Action (Agent World) (ℤ × Option (String × ℤ))
  get_default_voice =
      when_loaded (error_operation_failed, none)
        λ d.
          case_option d.cur.default_lang
            (do
              taken ← take_first_voice p
              e ← get_agent
              pure (
                  if is_nonzero taken
                  then (error_operation_failed, none)
                  else (pos 0, some (default_voice_of e.cur))))
            (λ lang. pure (pos 0, some (lang, d.cur.default_vctype)))
