-- ===== src/SettingClient/Lifetime.antt =====
-- client/tts_setting.c: the calls of an application, one after another, and the two states that they show.
use Prim.Native.String.{String}
use framework_uifw_voice_tts.Prelude.{
  ◌≡◌, refl, ℕ, zero, suc, Bool, true, false, Option, some, inl, inr, List, [], ◌∷◌, ℤ, pos,
  is_nonzero, Bool-cases, if◌then◌else◌,
}
use framework_uifw_voice_tts.Types.{error_invalid_state, error_operation_failed}
use framework_uifw_voice_tts.Action.{Action, Keeps, Leads-if, Keeps-bind, Keeps-pure, pure, ◌>>=◌}
use framework_uifw_voice_tts.SettingClient.{
  SettingState, setting_state_none, setting_state_ready, SettingPlatform, SettingLibrary, beyond,
  get_library, set_state, close_connection,
}
use framework_uifw_voice_tts.System.Delivered.{zero_of_result}
use framework_uifw_voice_tts.SettingClient.Calls
use framework_uifw_voice_tts.SettingClient.Keeps.{
  StateIs, state_rules, Keeps-beyond, open_connection-Keeps, hello-Keeps, initialize-Keeps,
  finalize-Keeps, set_engine-Keeps, set_default_voice-Keeps, set_default_speed-Keeps,
  set_engine_setting-Keeps, get_engine-Keeps, get_default_voice-Keeps, get_default_speed-Keeps,
  get_engine_list-Keeps, get_voice_list-Keeps, get_engine_setting-Keeps,
}

-- The calls that are only for an initialised library.
pub data Request : Type 0 where
  engines_request voices_request settings_request : Option ℕ → Request
  engine_request speed_request : Bool → Request
  voice_request : Bool → Bool → Request
  set_engine_request : Option String → Request
  set_voice_request : Option String → ℤ → Request
  set_speed_request : ℤ → Request
  set_setting_request : Option String → Option String → Request

pub data SettingCall : Type 0 where
  initialize_call finalize_call : SettingCall
  async_call : ℕ → SettingCall
  request_call : Request → SettingCall

-- The abstract library, ready or not, and what a call may answer in each: `none` is a fault.
pub data Allowed : Bool → SettingCall → Option ℤ → Bool → Type 0 where
  initialized : {ready : Bool} → Allowed ready initialize_call (some (pos 0)) true
  not_initialized :
      {code : ℤ} → is_nonzero code ≡ true → Allowed false initialize_call (some code) false
  asked :
      {ready : Bool} {callback : ℕ} {code : ℤ}
      → Allowed ready (async_call callback) (some code) ready
  finalized : Allowed true finalize_call (some (pos 0)) false
  not_finalized : Allowed true finalize_call (some error_operation_failed) true
  finalize_refused : Allowed false finalize_call (some error_invalid_state) false
  requested : {r : Request} {code : Option ℤ} → Allowed true (request_call r) code true
  refused : {r : Request} → Allowed false (request_call r) (some error_invalid_state) false

pub data Trace : Bool → List (SettingCall × Option ℤ) → Bool → Type 0 where
  done : {ready : Bool} → Trace ready [] ready
  next :
      {before between after : Bool} {c : SettingCall} {code : Option ℤ}
      {rest : List (SettingCall × Option ℤ)}
      → Allowed before c code between
      → Trace between rest after
      → Trace before ((c, code) ∷ rest) after

-- From the state `st`, the action answers the call `c` as the abstract library allows.
record Fulfils {World : Type 0} (st : SettingState) (c : SettingCall)
    (m : Action (SettingLibrary World) ℤ) : Type 0 where
  at :
      (d : SettingLibrary World)
      → StateIs st d
      → Allowed (Calls.is_ready st) c (some (m d).0) (Calls.is_ready (m d).1.state)

module _ {World : Type 0} {st : SettingState} {c : SettingCall} where
  Fulfils-pure :
      (code : ℤ)
      → Allowed (Calls.is_ready st) c (some code) (Calls.is_ready st)
      → Fulfils {World = World} st c (pure code)
  unfolding pure
  Fulfils-pure code a = record { at = λ d h. rw h.state_is a }

  Fulfils-if :
      (b : Bool) (m n : Action (SettingLibrary World) ℤ)
      → Fulfils st c m
      → Fulfils st c n
      → Fulfils st c (if b then m else n)
  Fulfils-if true m n km kn = km
  Fulfils-if false m n km kn = kn

  Fulfils-bind :
      {A : Type 0} (m : Action (SettingLibrary World) A) (f : A → Action (SettingLibrary World) ℤ)
      → Keeps (StateIs st) m
      → ((a : A) → Fulfils st c (f a))
      → Fulfils st c (m >>= f)
  unfolding ◌>>=◌
  Fulfils-bind m f k kf = record { at = λ d h. (kf (m d).0).at (m d).1 (k.at d h) }

  -- The guard on the state with which a call starts.
  Fulfils-guard :
      (f : SettingState → Action (SettingLibrary World) ℤ)
      → Fulfils st c (f st)
      → Fulfils st c (get_library >>= λ d. f d.state)
  unfolding ◌>>=◌ get_library
  Fulfils-guard f k = record { at = λ d h. at_state d h d.state h.state_is }
    where
      at_state :
          (d : SettingLibrary World)
          → StateIs st d
          → (s : SettingState) → s ≡ st
          → Allowed (Calls.is_ready st) c (some (f s d).0) (Calls.is_ready (f s d).1.state)
      at_state d h s e = rw e (k.at d h)

-- The end of an initialisation.
entered-Fulfils :
    {World : Type 0} (ret : ℤ)
    → Fulfils {World = World} setting_state_none initialize_call
        ((if is_nonzero ret then pure tt else set_state setting_state_ready) >>= λ _. pure ret)
unfolding ◌>>=◌ pure set_state
entered-Fulfils ret = record {
  at = λ d h. elim (Bool-cases (is_nonzero ret)) [
    | inl failed ↦ rw failed (rw h.state_is (not_initialized failed))
    | inr succeeded ↦ rw succeeded (rw (zero_of_result ret succeeded) initialized)
  ];
}

module _ (p : SettingPlatform) where
  open p use {World}

  -- A request, of which the result code is kept.
  unfoldable pub perform_request : Request → Action (SettingLibrary World) (Option ℤ)
  perform_request (engines_request callback) = Calls.foreach_supported_engines p callback
  perform_request (voices_request callback) = Calls.foreach_supported_voices p callback
  perform_request (settings_request callback) = Calls.foreach_engine_settings p callback
  perform_request (engine_request there) = do r ← Calls.get_engine p there; pure (some r.0)
  perform_request (speed_request there) = do r ← Calls.get_default_speed p there; pure (some r.0)
  perform_request (voice_request l v) = do r ← Calls.get_default_voice p l v; pure (some r.0)
  perform_request (set_engine_request s) = do r ← Calls.set_engine p s; pure (some r)
  perform_request (set_voice_request l v) = do r ← Calls.set_default_voice p l v; pure (some r)
  perform_request (set_speed_request v) = do r ← Calls.set_default_speed p v; pure (some r)
  perform_request (set_setting_request k v) = do r ← Calls.set_engine_setting p k v; pure (some r)

  unfoldable pub perform : SettingCall → Action (SettingLibrary World) (Option ℤ)
  perform initialize_call = do r ← Calls.initialize p; pure (some r)
  perform finalize_call = do r ← Calls.finalize p; pure (some r)
  perform (async_call callback) = do r ← Calls.initialize_async p callback; pure (some r)
  perform (request_call r) = perform_request r

  unfoldable pub setting_run :
      List SettingCall → SettingLibrary World → List (SettingCall × Option ℤ) × SettingLibrary World
  setting_run [] d = ([], d)
  setting_run (c ∷ cs) d =
      let (code, e) = perform c d in let (codes, f) = setting_run cs e in ((c, code) ∷ codes, f)

  -- Before the library is initialised, a request is refused and nothing happens: no state changes and
  -- nothing is sent.
  request_refused :
      (r : Request) (d : SettingLibrary World)
      → d.state ≡ setting_state_none
      → perform_request r d ≡ (some error_invalid_state, d)
  unfolding perform_request Calls.foreach_supported_engines Calls.foreach_supported_voices
      Calls.foreach_engine_settings Calls.get_engine Calls.get_default_speed Calls.get_default_voice
      Calls.set_engine Calls.set_default_voice Calls.set_default_speed Calls.set_engine_setting
      Calls.when_ready get_library pure ◌>>=◌
  request_refused (engines_request callback) d h = rw h refl
  request_refused (voices_request callback) d h = rw h refl
  request_refused (settings_request callback) d h = rw h refl
  request_refused (engine_request there) d h = rw h refl
  request_refused (speed_request there) d h = rw h refl
  request_refused (voice_request l v) d h = rw h refl
  request_refused (set_engine_request s) d h = rw h refl
  request_refused (set_voice_request l v) d h = rw h refl
  request_refused (set_speed_request v) d h = rw h refl
  request_refused (set_setting_request k v) d h = rw h refl

  perform_request-Keeps : (st : SettingState) (r : Request) → Keeps (StateIs st) (perform_request r)
  unfolding perform_request Calls.foreach_supported_engines Calls.foreach_supported_voices
      Calls.foreach_engine_settings Calls.get_engine Calls.get_default_speed Calls.get_default_voice
      Calls.set_engine Calls.set_default_voice Calls.set_default_speed Calls.set_engine_setting
      Calls.when_ready
  perform_request-Keeps st (engines_request callback) =
      search (state_rules, get_engine_list-Keeps p) depth 30
  perform_request-Keeps st (voices_request callback) =
      search (state_rules, get_voice_list-Keeps p) depth 30
  perform_request-Keeps st (settings_request callback) =
      search (state_rules, get_engine_setting-Keeps p) depth 30
  perform_request-Keeps st (engine_request there) =
      search (state_rules, get_engine-Keeps p) depth 30
  perform_request-Keeps st (speed_request there) =
      search (state_rules, get_default_speed-Keeps p) depth 30
  perform_request-Keeps st (voice_request l v) =
      search (state_rules, get_default_voice-Keeps p) depth 30
  perform_request-Keeps st (set_engine_request s) =
      search (state_rules, set_engine-Keeps p) depth 30
  perform_request-Keeps st (set_voice_request l v) =
      search (state_rules, set_default_voice-Keeps p) depth 30
  perform_request-Keeps st (set_speed_request v) =
      search (state_rules, set_default_speed-Keeps p) depth 30
  perform_request-Keeps st (set_setting_request k v) =
      search (state_rules, set_engine_setting-Keeps p) depth 30

  try_initialize-Keeps : (st : SettingState) (n : ℕ) → Keeps (StateIs st) (Calls.try_initialize p n)
  unfolding Calls.try_initialize
  try_initialize-Keeps st zero = Keeps-pure _
  try_initialize-Keeps st (suc n) = Keeps-bind _ _ (initialize-Keeps p) λ ret.
      Leads-if _ _ _ (Keeps-pure _) (
        Leads-if _ _ _ (Keeps-bind _ _ (Keeps-beyond _) λ _. try_initialize-Keeps st n)
          (Keeps-pure _))

  async-Keeps :
      (st : SettingState) (callback : ℕ) → Keeps (StateIs st) (Calls.initialize_async p callback)
  unfolding Calls.initialize_async
  async-Keeps st callback = search (state_rules, open_connection-Keeps p) depth 30

  async-Allowed :
      (callback : ℕ) (st : SettingState)
      → Fulfils st (async_call callback) (Calls.initialize_async p callback)
  async-Allowed callback st = record {
    at = λ d h. rw ((async-Keeps st callback).at d h).state_is asked;
  }

  initialize-Fulfils : (st : SettingState) → Fulfils st initialize_call (Calls.initialize p)
  unfolding Calls.initialize
  initialize-Fulfils setting_state_none = Fulfils-guard _ (
      Fulfils-bind _ _ (open_connection-Keeps p) λ opened.
        Fulfils-if (is_nonzero opened) (pure error_operation_failed) _
          (Fulfils-pure _ (not_initialized refl))
          (Fulfils-bind _ _ (hello-Keeps p) λ hello.
            Fulfils-bind _ _
              (Leads-if (is_nonzero hello) (beyond p.check_daemon) (pure (pos 0)) (Keeps-beyond _)
                (Keeps-pure _))
              λ _. Fulfils-bind _ _ (try_initialize-Keeps _ 3) entered-Fulfils))
  initialize-Fulfils setting_state_ready = Fulfils-guard _ (Fulfils-pure _ initialized)

  left-Fulfils :
      Fulfils setting_state_ready finalize_call
        (close_connection p >>= λ _. set_state setting_state_none >>= λ _. pure (pos 0))
  unfolding ◌>>=◌ pure set_state
  left-Fulfils = record { at = λ d h. finalized }

  finalize-Fulfils : (st : SettingState) → Fulfils st finalize_call (Calls.finalize p)
  unfolding Calls.finalize
  finalize-Fulfils setting_state_none = Fulfils-guard _ (Fulfils-pure _ finalize_refused)
  finalize-Fulfils setting_state_ready = Fulfils-guard _ (
      Fulfils-bind _ _ (finalize-Keeps p) λ ret.
        Fulfils-if (is_nonzero ret) (pure error_operation_failed) _ (Fulfils-pure _ not_finalized)
          left-Fulfils)

  request-Allowed :
      (r : Request) (st : SettingState) (d : SettingLibrary World)
      → d.state ≡ st
      → Allowed
          (Calls.is_ready st)
          (request_call r)
          (perform_request r d).0
          (Calls.is_ready (perform_request r d).1.state)
  request-Allowed r setting_state_none d h = rw (request_refused r d h) (rw h refused)
  request-Allowed r setting_state_ready d h =
      rw ((perform_request-Keeps setting_state_ready r).at d (record { state_is = h })).state_is
        requested

  step-Allowed :
      (c : SettingCall) (d : SettingLibrary World)
      → Allowed (Calls.is_ready d.state) c (perform c d).0 (Calls.is_ready (perform c d).1.state)
  unfolding perform ◌>>=◌ pure
  step-Allowed initialize_call d = (initialize-Fulfils d.state).at d (record { state_is = refl })
  step-Allowed finalize_call d = (finalize-Fulfils d.state).at d (record { state_is = refl })
  step-Allowed (async_call callback) d =
      (async-Allowed callback d.state).at d (record { state_is = refl })
  step-Allowed (request_call r) d = request-Allowed r d.state d refl

  -- Any sequence of calls of the setting library, from any state of it and whatever the daemon and the bus
  -- answer, is one that the abstract library, which is only ready or not, allows: tts_setting_initialize
  -- makes it ready exactly when it answers 0, tts_setting_finalize ends that exactly when it answers 0,
  -- every other call leaves it as it is, and while it is not ready, tts_setting_finalize and all requests
  -- answer TTS_SETTING_ERROR_INVALID_STATE.
  pub setting_run-Trace :
      (calls : List SettingCall) (d : SettingLibrary World)
      → let (codes, e) = setting_run calls d in
        Trace (Calls.is_ready d.state) codes (Calls.is_ready e.state)
  unfolding setting_run
  setting_run-Trace [] d = done
  setting_run-Trace (c ∷ cs) d = next (step-Allowed c d) (setting_run-Trace cs (perform c d).1)
