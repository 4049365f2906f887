-- ===== src/System/Settings/Lists.antt =====
-- The lists that the daemon answers setting clients with, on their way to the application's callbacks.
use Prim.Native.String.{String}
use framework_uifw_voice_tts.Prelude.{
  ℕ, ◌≡◌, refl, sym, ap, ◌∙◌, false, inl, inr, Option, some, List, [], ◌∷◌, ℤ, pos, is_nonzero,
  Bool-cases, if◌then◌else◌, length,
}
use framework_uifw_voice_tts.Wire.{arg_int, arg_string}
use framework_uifw_voice_tts.Action.{pure, ◌>>=◌}
use framework_uifw_voice_tts.Platform.{Platform, Engine, Voice, EngineSetting}
use framework_uifw_voice_tts.Daemon.{Daemon}
use framework_uifw_voice_tts.Server.Queries.{
  setting_get_engine_list, setting_get_voice_list, setting_get_engine_setting,
}
use framework_uifw_voice_tts.DbusServer.{serve}
use framework_uifw_voice_tts.DbusServer.SettingRequests
use framework_uifw_voice_tts.DbusServer.Reply.{
  engine_args, voice_args, setting_args, respond, run_request,
}
use framework_uifw_voice_tts.System.Delivered.{zero_of_result}
use framework_uifw_voice_tts.SettingClient.{
  setting_state_ready, SettingLibrary, beyond, get_library,
}
use framework_uifw_voice_tts.SettingClient.Requests
use framework_uifw_voice_tts.SettingClient.Calls
use framework_uifw_voice_tts.System.Settings.{SettingApplication, setting_linked}

-- The engines, voices or settings are given to the callback in their order, until it declines one.
unfoldable pub give_engines : (q : SettingApplication) → ℕ → List Engine → q.State → q.State
give_engines q callback [] s = s
give_engines q callback (e ∷ l) s =
    let (more, t) = q.on_engine callback e.engine_id e.engine_name e.ug_name s in
    let rest = give_engines q callback l t in if more then rest else t

unfoldable pub give_voices : (q : SettingApplication) → ℕ → String → List Voice → q.State → q.State
give_voices q callback id [] s = s
give_voices q callback id (v ∷ l) s =
    let (more, t) = q.on_voice callback id v.language v.voice_type s in
    let rest = give_voices q callback id l t in if more then rest else t

unfoldable pub give_settings :
    (q : SettingApplication) → ℕ → String → List EngineSetting → q.State → q.State
give_settings q callback id [] s = s
give_settings q callback id (k ∷ l) s =
    let (more, t) = q.on_setting callback id k.key k.value s in
    let rest = give_settings q callback id l t in if more then rest else t

module _ (p : Platform) (q : SettingApplication) where
  abbrev Both : Type 0
  Both = Daemon p.World × q.State

  -- The library when the application has been told.
  abbrev after : (q.State → q.State) → SettingLibrary Both → SettingLibrary Both
  after f d = record d { world = (d.world.0, f d.world.1) }

  each_engine-engine_args :
      (callback : ℕ) (l : List Engine) (d : SettingLibrary Both)
      → Requests.each_engine (setting_linked p q) (length l) callback (engine_args l) d
        ≡ (some (pos 0), after (give_engines q callback l) d)
  unfolding Requests.each_engine engine_args give_engines beyond pure ◌>>=◌
  each_engine-engine_args callback [] d = refl
  each_engine-engine_args callback (e ∷ l) d =
      let t = q.on_engine callback e.engine_id e.engine_name e.ug_name d.world.1 in
      elim (Bool-cases t.0) [
        | inl more ↦
            rw more
              (rw (each_engine-engine_args callback l (record d { world = (d.world.0, t.1) })) refl)
        | inr enough ↦ rw enough refl
      ]

  each_voice-voice_args :
      (callback : ℕ) (id : String) (l : List Voice) (d : SettingLibrary Both)
      → Requests.each_voice (setting_linked p q) (length l) callback id (voice_args l) d
        ≡ (some (pos 0), after (give_voices q callback id l) d)
  unfolding Requests.each_voice voice_args give_voices beyond pure ◌>>=◌
  each_voice-voice_args callback id [] d = refl
  each_voice-voice_args callback id (v ∷ l) d =
      let t = q.on_voice callback id v.language v.voice_type d.world.1 in
      elim (Bool-cases t.0) [
        | inl more ↦
            rw more (
              rw (each_voice-voice_args callback id l (record d { world = (d.world.0, t.1) })) refl)
        | inr enough ↦ rw enough refl
      ]

  each_setting-setting_args :
      (callback : ℕ) (id : String) (l : List EngineSetting) (d : SettingLibrary Both)
      → Requests.each_setting (setting_linked p q) (length l) callback id (setting_args l) d
        ≡ (some (pos 0), after (give_settings q callback id l) d)
  unfolding Requests.each_setting setting_args give_settings beyond pure ◌>>=◌
  each_setting-setting_args callback id [] d = refl
  each_setting-setting_args callback id (k ∷ l) d =
      let t = q.on_setting callback id k.key k.value d.world.1 in
      elim (Bool-cases t.0) [
        | inl more ↦ rw more (
            rw (each_setting-setting_args callback id l (record d { world = (d.world.0, t.1) }))
              refl)
        | inr enough ↦ rw enough refl
      ]

  -- A list that was handed out.
  listed :
      (f : q.State → q.State) (d : SettingLibrary Both) (x : Option ℤ × SettingLibrary Both)
      (ret : ℤ)
      → x ≡ (some (pos 0), after f d)
      → is_nonzero ret ≡ false
      → (x.0 ≡ some ret) × (x.1.world.1 ≡ f d.world.1)
  listed f d x ret told_all done = (
    ap (λ y. y.0) told_all ∙ ap some (sym (zero_of_result ret done)),
    ap (λ y. y.1.world.1) told_all,
  )

  -- tts_setting_foreach_supported_engines with a callback, of an initialised library, on a bus that
  -- delivers: its result is the daemon's, and with a result of 0 the engines that the daemon listed are
  -- given to the callback, in their order and unchanged, until it declines one; with any other result the
  -- callback is not called.
  pub setting_engines-delivered :
      (callback : ℕ) (d : SettingLibrary Both)
      → d.state ≡ setting_state_ready
      → let (ret, engines) = (setting_get_engine_list p (pos q.pid) d.world.0).0 in
        let (result, e) = Calls.foreach_supported_engines (setting_linked p q) (some callback) d in
        (result ≡ some ret)
        × (e.world.1
            ≡ (if is_nonzero ret then d.world.1 else give_engines q callback engines d.world.1))
  unfolding Calls.foreach_supported_engines Calls.when_ready Requests.request_get_engine_list
      Requests.request_list Requests.send_request Requests.read_engines Requests.after_result
      get_library beyond pure ◌>>=◌ serve SettingRequests.get_engine_list run_request respond
  setting_engines-delivered callback d ready = rw (ap Calls.is_ready ready) (
      let (r, e) = setting_get_engine_list p (pos q.pid) d.world.0 in
      elim (Bool-cases (is_nonzero r.0)) [
        | inl failed ↦ rw failed (rw failed (refl, refl))
        | inr done ↦ rw done (
            rw done (
              let sent = arg_int r.0 ∷ arg_int (pos (length r.1)) ∷ engine_args r.1 in
              let base = record d { world = ((respond p sent e).1, d.world.1) } in
              listed (give_engines q callback r.1) base _ r.0
                (each_engine-engine_args callback r.1 base) done))
      ])

  -- tts_setting_foreach_surpported_voices with a callback, of an initialised library, on a bus that
  -- delivers: its result is the daemon's, and with a result of 0 the callback is given the
  -- voices that the daemon listed, each with the id of the engine, until it declines one; with any other
  -- result it is not called.
  pub setting_voices-delivered :
      (callback : ℕ) (d : SettingLibrary Both)
      → d.state ≡ setting_state_ready
      → let (ret, id, voices) = (setting_get_voice_list p (pos q.pid) d.world.0).0 in
        let (result, e) = Calls.foreach_supported_voices (setting_linked p q) (some callback) d in
        (result ≡ some ret)
        × (e.world.1
            ≡ (if is_nonzero ret then d.world.1 else give_voices q callback id voices d.world.1))
  unfolding Calls.foreach_supported_voices Calls.when_ready Requests.request_get_voice_list
      Requests.request_list Requests.send_request Requests.read_voices Requests.after_result
      get_library beyond pure ◌>>=◌ serve SettingRequests.get_voice_list run_request respond
  setting_voices-delivered callback d ready = rw (ap Calls.is_ready ready) (
      let (r, e) = setting_get_voice_list p (pos q.pid) d.world.0 in
      elim (Bool-cases (is_nonzero r.0)) [
        | inl failed ↦ rw failed (rw failed (refl, refl))
        | inr done ↦ rw done (
            rw done (
              let sent =
                arg_int r.0 ∷ arg_string r.1 ∷ arg_int (pos (length r.2)) ∷ voice_args r.2 in
              let base = record d { world = ((respond p sent e).1, d.world.1) } in
              listed (give_voices q callback r.1 r.2) base _ r.0
                (each_voice-voice_args callback r.1 r.2 base) done))
      ])

  -- tts_setting_foreach_engine_settings with a callback, of an initialised library, on a bus that
  -- delivers: its result is the daemon's, and with a result of 0 the callback is given the keys
  -- and values that the daemon listed, each with the id of the engine, until it declines one; with any
  -- other result it is not called.
  pub engine_settings-delivered :
      (callback : ℕ) (d : SettingLibrary Both)
      → d.state ≡ setting_state_ready
      → let (ret, id, settings) = (setting_get_engine_setting p (pos q.pid) d.world.0).0 in
        let (result, e) = Calls.foreach_engine_settings (setting_linked p q) (some callback) d in
        (result ≡ some ret)
        × (e.world.1 ≡ (
            if is_nonzero ret then d.world.1 else give_settings q callback id settings d.world.1))
  unfolding Calls.foreach_engine_settings Calls.when_ready Requests.request_get_engine_setting
      Requests.request_list Requests.send_request Requests.read_settings Requests.after_result
      get_library beyond pure ◌>>=◌ serve SettingRequests.get_engine_setting run_request respond
  engine_settings-delivered callback d ready = rw (ap Calls.is_ready ready) (
      let (r, e) = setting_get_engine_setting p (pos q.pid) d.world.0 in
      elim (Bool-cases (is_nonzero r.0)) [
        | inl failed ↦ rw failed (rw failed (refl, refl))
        | inr done ↦ rw done (
            rw done (
              let sent =
                arg_int r.0 ∷ arg_string r.1 ∷ arg_int (pos (length r.2)) ∷ setting_args r.2 in
              let base = record d { world = ((respond p sent e).1, d.world.1) } in
              listed (give_settings q callback r.1 r.2) base _ r.0
                (each_setting-setting_args callback r.1 r.2 base) done))
      ])
