-- ===== src/Engine/Current.antt =====
-- server/ttsd_engine_agent.c: the list of engines, and choosing, loading and unloading the current one.
use Prim.Native.String.{String}
use framework_uifw_voice_tts.Prelude.{
  Bool, true, false, not, Option, none, some, List, [], ◌∷◌, ◌++◌, ℤ, pos, negsuc, is_nonzero,
  if◌then◌else◌,
}
use framework_uifw_voice_tts.Types.{error_operation_failed, minus_one}
use framework_uifw_voice_tts.Action.{Action, pure, ◌>>=◌, ◌>>◌, case_option}
use framework_uifw_voice_tts.Platform.{Voice}
use framework_uifw_voice_tts.Engine.{
  has_prefix, EngineInfo, CurrentEngine, default_directory, download_directory, load_symbol,
  unload_symbol, info_symbol, EnginePlatform, Agent, beyond, get_agent, set_engine_list, set_init,
  on_current,
}

-- TTSP_VOICE_TYPE_FEMALE and TTSP_SPEED_NORMAL
abbrev pub voice_type_female : ℤ
voice_type_female = pos 2

abbrev pub speed_normal : ℤ
speed_normal = pos 3

-- The loops over the list of engines: the first whose uuid begins with an id, and whether there is one
-- whose uuid an id begins with.
unfoldable pub find_engine : String → List EngineInfo → Option EngineInfo
find_engine id [] = none
find_engine id (e ∷ l) = if has_prefix e.engine_uuid id then some e else find_engine id l

-- __internal_check_engine_id
unfoldable pub check_engine_id : String → List EngineInfo → ℤ
check_engine_id id [] = minus_one
check_engine_id id (e ∷ l) = if has_prefix id e.engine_uuid then pos 0 else check_engine_id id l

-- The loop of ttsd_engine_agent_initialize_current_engine: the default engine, or else the last one.
unfoldable pub default_or_last : List EngineInfo → Option EngineInfo
default_or_last [] = none
default_or_last (e ∷ []) = some e
default_or_last (e ∷ f ∷ l) =
    let rest = default_or_last (f ∷ l) in
    if has_prefix e.engine_uuid "27F277E9-BBC4-4dca-B553-D9884A3CDAA0" then some e else rest

abbrev pub is_current : String → Option EngineInfo → Bool
is_current id none = false
is_current id (some c) = has_prefix c.engine_uuid id

abbrev pub choose : EngineInfo → CurrentEngine → CurrentEngine
choose e c = record c {
  info = some e;
  is_loaded = false;
  is_set = true;
  need_network = e.use_network;
}

-- __internal_set_current_engine. The current engine stays if its uuid begins with the id too.
unfoldable pub set_current_engine : {World : Type 0} → String → Action (Agent World) ℤ
set_current_engine id = do
  d ← get_agent
  case_option (find_engine id d.engine_list) (pure error_operation_failed)
      λ e. if is_current id d.cur.info then pure (pos 0) else do on_current (choose e); pure (pos 0)

abbrev pub set_voice : Voice → CurrentEngine → CurrentEngine
set_voice v c = record c { default_lang = some v.language; default_vctype = v.voice_type }

abbrev pub set_speed : ℤ → CurrentEngine → CurrentEngine
set_speed speed c = record c { default_speed = speed }

abbrev pub set_loaded : Bool → CurrentEngine → CurrentEngine
set_loaded flag c = record c { is_loaded = flag }

abbrev pub forget : CurrentEngine → CurrentEngine
forget c = record c { info = none; is_set = false }

module _ (p : EnginePlatform) where
  open p use {
    World, config_get_default_voice, config_get_default_speed, config_get_default_engine,
    config_set_default_voice, config_set_default_speed, config_set_default_engine, read_directory,
    dlopen, dlsym, dlclose, get_engine_info, load_engine, unload_engine, has_right_size, initialize,
    deinitialize, is_valid_voice, foreach_voices,
  }

  -- ttsd_engine_agent_init, with a callback for results.
  unfoldable pub agent_init : Action (Agent World) ℤ
  agent_init = do
    on_current forget
    set_init true
    voice ← beyond config_get_default_voice
    case_option voice
        (on_current (set_voice (record { language = "en_US"; voice_type = voice_type_female })))
        (λ v. on_current (set_voice (record { language = v.0; voice_type = v.1 })))
    speed ← beyond config_get_default_speed
    case_option speed
        (do beyond (config_set_default_speed speed_normal); on_current (set_speed speed_normal))
        (λ s. on_current (set_speed s))
    pure (pos 0)

  -- The steps of __internal_get_engine_info behind dlopen: an engine has the three functions, and tells
  -- about itself.
  unfoldable pub engine_info_of : String → Action (Agent World) (Option EngineInfo)
  engine_info_of path = do
    loads ← beyond (dlsym load_symbol)
    if not loads then pure none else do
      unloads ← beyond (dlsym unload_symbol)
      if not unloads then pure none else do
        tells ← beyond (dlsym info_symbol)
        if not tells then pure none else beyond (get_engine_info path)

  abbrev pub at_path : String → EngineInfo → EngineInfo
  at_path path e = record e { engine_path = path }

  unfoldable pub internal_get_engine_info : String → Action (Agent World) (Option EngineInfo)
  internal_get_engine_info path = do
    opened ← beyond (dlopen path)
    if not opened then pure none else do
      info ← engine_info_of path
      beyond dlclose
      pure (case_option info none (λ e. some (at_path path e)))

  -- The loop over the files of a directory, which appends the engines among them.
  unfoldable pub collect_engines : List String → Action (Agent World) (List EngineInfo)
  collect_engines [] = pure []
  collect_engines (path ∷ paths) = do
    info ← internal_get_engine_info path
    rest ← collect_engines paths
    pure (case_option info rest (λ e. e ∷ rest))

  abbrev pub some_engine : List EngineInfo → ℤ
  some_engine [] = error_operation_failed
  some_engine (e ∷ l) = pos 0

  -- __internal_update_engine_list; a directory that cannot be opened has no files.
  unfoldable pub update_engine_list : Action (Agent World) ℤ
  update_engine_list = do
    built_in ← beyond (read_directory default_directory)
    found ← collect_engines built_in
    downloads ← beyond (read_directory download_directory)
    more ← collect_engines downloads
    set_engine_list (found ++ more)
    pure (some_engine (found ++ more))

  -- The uuid that ttsd_engine_agent_initialize_current_engine starts from: of the configuration, or of the
  -- default engine.
  abbrev pub preferred : Option String → List EngineInfo → Option String
  preferred (some id) l = some id
  preferred none l = case_option (default_or_last l) none (λ e. some e.engine_uuid)

  -- An id that no engine matches is replaced by the first engine's.
  abbrev pub settled_id : String → List EngineInfo → String
  settled_id id [] = id
  settled_id id (e ∷ l) = if is_nonzero (check_engine_id id (e ∷ l)) then e.engine_uuid else id

  -- Whether the id is the configuration's, so that it need not be written there.
  abbrev pub is_from_config : Option String → List EngineInfo → Bool
  is_from_config none l = false
  is_from_config (some id) l = not (is_nonzero (check_engine_id id l))

  unfoldable pub initialize_current_engine : Action (Agent World) ℤ
  initialize_current_engine = do
    d ← get_agent
    if not d.agent_init then pure error_operation_failed else do
      updated ← update_engine_list
      if is_nonzero updated then pure error_operation_failed else do
        configured ← beyond config_get_default_engine
        e ← get_agent
        case_option (preferred configured e.engine_list) (pure error_operation_failed) λ id. do
          let settled = settled_id id e.engine_list
          set ← set_current_engine settled
          if is_nonzero set then pure error_operation_failed else do
            if is_from_config configured e.engine_list
                then pure (pos 0)
                else beyond (config_set_default_engine settled)
            pure (pos 0)

  -- The default voice of ttsd_engine_agent_load_current_engine, where the one that is set is not valid: the
  -- first that the engine lists.
  unfoldable pub take_first_voice : Action (Agent World) ℤ
  take_first_voice = do
    listed ← beyond foreach_voices
    case_option listed (pure error_operation_failed) λ r.
        if is_nonzero r.0
        then pure error_operation_failed
        else case_option (first_voice r.1) (pure error_operation_failed) λ v. do
          valid ← beyond (is_valid_voice v.language v.voice_type)
          if not (is_true valid) then pure error_operation_failed else do
            beyond (config_set_default_voice v.language v.voice_type)
            on_current (set_voice v)
            pure (pos 0)
    where
      first_voice : List Voice → Option Voice
      first_voice [] = none
      first_voice (v ∷ l) = some v

      is_true : Option Bool → Bool
      is_true none = false
      is_true (some b) = b

  unfoldable pub select_default_voice : Action (Agent World) ℤ
  select_default_voice = do
    d ← get_agent
    case_option d.cur.default_lang take_first_voice λ lang. do
      valid ← beyond (is_valid_voice lang d.cur.default_vctype)
      case_option valid (pure error_operation_failed)
          λ yes. if yes then pure (pos 0) else take_first_voice

  -- The steps of loading behind the dynamic linker's.
  unfoldable pub start_engine : Action (Agent World) ℤ
  start_engine = do
    loaded ← beyond load_engine
    if is_nonzero loaded then pure error_operation_failed else do
      sized ← beyond has_right_size
      if not sized then pure error_operation_failed else do
        begun ← beyond initialize
        case_option begun (pure error_operation_failed) λ code.
            if is_nonzero code then pure error_operation_failed else do
              chosen ← select_default_voice
              if is_nonzero chosen
                  then pure error_operation_failed
                  else do on_current (set_loaded true); pure (pos 0)

  abbrev pub path_of : Option EngineInfo → String
  path_of none = ""
  path_of (some e) = e.engine_path

  unfoldable pub load_current_engine : Action (Agent World) ℤ
  load_current_engine = do
    d ← get_agent
    if not d.agent_init
        then pure error_operation_failed
        else if not d.cur.is_set
        then pure error_operation_failed
        else if d.cur.is_loaded
        then pure (pos 0)
        else do
          opened ← beyond (dlopen (path_of d.cur.info))
          if not opened then pure (negsuc 1) else do
            unloads ← beyond (dlsym unload_symbol)
            if not unloads then pure (negsuc 2) else do
              loads ← beyond (dlsym load_symbol)
              if not loads then pure (negsuc 2) else start_engine

  unfoldable pub unload_current_engine : Action (Agent World) ℤ
  unload_current_engine = do
    d ← get_agent
    if not d.agent_init
        then pure error_operation_failed
        else if not d.cur.is_set
        then pure error_operation_failed
        else if not d.cur.is_loaded
        then pure (pos 0)
        else do
          beyond deinitialize
          beyond unload_engine
          beyond dlclose
          on_current (set_loaded false)
          pure (pos 0)

  -- ttsd_engine_agent_need_network: the error code, returned as a `bool`, is `true`.
  unfoldable pub need_network : Action (Agent World) Bool
  need_network = do
    d ← get_agent
    pure (
        if not d.agent_init then true else if not d.cur.is_loaded then true else d.cur.need_network)

  -- ttsd_engine_agent_is_same_engine
  unfoldable pub is_same_engine : String → Action (Agent World) Bool
  is_same_engine id = do
    d ← get_agent
    pure (
        if not d.agent_init
        then false
        else if not d.cur.is_loaded
        then false
        else is_current id d.cur.info)
