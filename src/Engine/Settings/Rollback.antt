-- ===== src/Engine/Settings/Rollback.antt =====
-- Changing the engine to one that is not there.
use Prim.Native.Char.{code}
use Prim.Native.String.{String}
use framework_uifw_voice_tts.Prelude.{
  ◌≡◌, refl, ap, ◌∙◌, Bool, true, false, not, inl, inr, none, some, List, arith, Option-cases,
  if◌then◌else◌,
}
use framework_uifw_voice_tts.Types.{error_operation_failed}
use framework_uifw_voice_tts.Action.{Action, Keeps, keeps_rules, pure, ◌>>=◌}
use framework_uifw_voice_tts.Platform.{Voice}
use framework_uifw_voice_tts.Engine.{
  has_prefix, EngineInfo, EnginePlatform, Agent, beyond, get_agent, on_current,
}
use framework_uifw_voice_tts.Engine.Current.{
  find_engine, is_current, set_current_engine, set_voice, set_loaded, take_first_voice,
  select_default_voice, start_engine, load_current_engine, unload_current_engine,
}
use framework_uifw_voice_tts.Engine.Settings.{uuid_of, load_chosen, setting_set_engine}

has_prefix_refl : (s : String) → has_prefix s s ≡ true
has_prefix_refl String.[] = refl
has_prefix_refl (String.◌∷◌ c s) = ground (arith, has_prefix_refl s)

-- The engine that is chosen and the list of engines.
record Names {World : Type 0} (c : EngineInfo) (l : List EngineInfo) (d : Agent World)
    : Type 0 where
  chosen : d.cur.info ≡ some c
  listed : d.engine_list ≡ l

module _ {World : Type 0} {c : EngineInfo} {l : List EngineInfo} where
  Keeps-beyond : {A : Type 0} (f : World → A × World) → Keeps (Names c l) (beyond f)
  unfolding beyond
  Keeps-beyond f = record { at = λ d h. record { chosen = h.chosen; listed = h.listed } }

  Keeps-get_agent : Keeps (Names {World = World} c l) get_agent
  unfolding get_agent
  Keeps-get_agent = record { at = λ d h. h }

  Keeps-set_loaded : (b : Bool) → Keeps (Names {World = World} c l) (on_current (set_loaded b))
  unfolding on_current
  Keeps-set_loaded b = record { at = λ d h. record { chosen = h.chosen; listed = h.listed } }

  Keeps-set_voice : (v : Voice) → Keeps (Names {World = World} c l) (on_current (set_voice v))
  unfolding on_current
  Keeps-set_voice v = record { at = λ d h. record { chosen = h.chosen; listed = h.listed } }

  -- Going back to the engine that is current changes nothing.
  set_current_engine_back :
      (d : Agent World) → Names c l d → (set_current_engine c.engine_uuid d).1 ≡ d
  unfolding set_current_engine get_agent pure ◌>>=◌
  set_current_engine_back d h = elim (Option-cases (find_engine c.engine_uuid d.engine_list)) [
    | inl absent ↦ rw absent refl
    | inr (e, found) ↦ rw found (rw h.chosen (rw (has_prefix_refl c.engine_uuid) refl))
  ]

ruleset name_rules = (keeps_rules, Keeps-beyond, Keeps-get_agent, Keeps-set_loaded, Keeps-set_voice)

module _ (p : EnginePlatform) {c : EngineInfo} {l : List EngineInfo} where
  open p use {World}

  unload-Keeps : Keeps (Names c l) (unload_current_engine p)
  unfolding unload_current_engine
  unload-Keeps = search name_rules depth 30

  take_first_voice-Keeps : Keeps (Names c l) (take_first_voice p)
  unfolding take_first_voice
  take_first_voice-Keeps = search name_rules depth 30

  start_engine-Keeps : Keeps (Names c l) (start_engine p)
  unfolding start_engine select_default_voice
  start_engine-Keeps = search (name_rules, take_first_voice-Keeps) depth 30

  load-Keeps : Keeps (Names c l) (load_current_engine p)
  unfolding load_current_engine
  load-Keeps = search (name_rules, start_engine-Keeps) depth 30

module _ (p : EnginePlatform) where
  open p use {World}

  set_current_engine_absent :
      (id : String) (d : Agent World)
      → find_engine id d.engine_list ≡ none
      → set_current_engine id d ≡ (error_operation_failed, d)
  unfolding set_current_engine get_agent pure ◌>>=◌
  set_current_engine_absent id d absent = rw absent refl

  go_on :
      {A : Type 0} (ready current : Bool) (x y z : Action (Agent World) A)
      → ready ≡ true
      → current ≡ false
      → (if not ready then x else if current then y else z) ≡ z
  go_on true false x y z e f = refl
  go_on true true x y z e f = cc
  go_on false current x y z e f = cc

  -- What is done where the new engine is not found.
  rolled_back :
      (id : String) (c : EngineInfo) (d : Agent World)
      → d.agent_init ≡ true
      → d.cur.info ≡ some c
      → has_prefix c.engine_uuid id ≡ false
      → find_engine id d.engine_list ≡ none
      → setting_set_engine p id d
        ≡ (error_operation_failed, (load_current_engine p (unload_current_engine p d).1).1)
  unfolding setting_set_engine load_chosen get_agent pure ◌>>=◌
  rolled_back id c d ready current other unknown =
      let u = (unload_current_engine p d).1 in
      let kept = (unload-Keeps p).at d (record { chosen = current; listed = refl }) in
      let gone = set_current_engine_absent id u (ap (find_engine id) kept.listed ∙ unknown) in
      ap (λ m. m d)
        (go_on d.agent_init (is_current id d.cur.info) _ _ _ ready
          (ap (is_current id) current ∙ other))
      ∙ ap (λ r. load_chosen p (uuid_of d.cur.info) id r.0 r.1) gone
      ∙ ap (λ i. load_chosen p (uuid_of i) id error_operation_failed u) current
      ∙ ap (λ v. (error_operation_failed, (load_current_engine p v).1))
          (set_current_engine_back u kept)

  -- A request to change to an engine that is not installed fails, and the engine that was current stays the
  -- current one, whether it can be loaded again or not; the list of engines stays too.
  pub setting_set_engine-unknown :
      (id : String) (c : EngineInfo) (d : Agent World)
      → d.agent_init ≡ true
      → d.cur.info ≡ some c
      → has_prefix c.engine_uuid id ≡ false
      → find_engine id d.engine_list ≡ none
      → let (code, e) = setting_set_engine p id d in
        (code ≡ error_operation_failed) × (e.cur.info ≡ some c) × (e.engine_list ≡ d.engine_list)
  setting_set_engine-unknown id c d ready current other unknown =
      let u = (unload_current_engine p d).1 in
      let kept = (unload-Keeps p).at d (record { chosen = current; listed = refl }) in
      let loaded = (load-Keeps p).at u kept in
      rw (rolled_back id c d ready current other unknown) (refl, loaded.chosen, loaded.listed)
