-- ===== src/System/Delivered.antt =====
-- What a request of the library does to a daemon that it reaches.
use Prim.Native.String.{String}
use framework_uifw_voice_tts.Prelude.{
  arith, negsuc, ◌≡◌, refl, ap, false, inl, inr, none, some, [], ◌∷◌, ℤ, pos, is_nonzero,
  Bool-cases, if◌then◌else◌,
}
use framework_uifw_voice_tts.Types.{error_operation_failed}
use framework_uifw_voice_tts.Wire.{arg_int}
use framework_uifw_voice_tts.Action.{Action, pure, ◌>>=◌}
use framework_uifw_voice_tts.Platform.{Platform}
use framework_uifw_voice_tts.Daemon.{Daemon}
use framework_uifw_voice_tts.Server
use framework_uifw_voice_tts.Server.Client
use framework_uifw_voice_tts.Server.Queries.{get_current_voice}
use framework_uifw_voice_tts.DbusServer.{serve}
use framework_uifw_voice_tts.DbusServer.Requests
use framework_uifw_voice_tts.DbusServer.Reply.{respond, run_request, answer_request}
use framework_uifw_voice_tts.Client.Link.{
  Library, external, send_request, request_result, request_initialize, request_finalize,
  request_play, request_stop, request_pause, request_add_text, request_get_default_voice,
}
use framework_uifw_voice_tts.System.{Application, linked}

pub zero_of_result : (r : ℤ) → is_nonzero r ≡ false → r ≡ pos 0
zero_of_result (pos n) e = ground arith
zero_of_result (negsuc n) e = cc

module _ (p : Platform) (q : Application) where
  -- The library and the daemon when the daemon has run a request and sent its result.
  abbrev pub answered_with :
      Action (Daemon p.World) ℤ
      → Library (Daemon p.World × q.State)
      → ℤ × Library (Daemon p.World × q.State)
  answered_with run d =
      let (ret, e) = run d.world.0 in
      (ret, record d { world = ((respond p (arg_int ret ∷ []) e).1, d.world.1) })

  -- A request of the library runs the daemon's function of that name on the same values, once, and brings
  -- back its result unchanged: initialising with the process id of the application, finalising, playing,
  -- stopping, pausing, and adding a text with its language, voice, speed and utterance id.
  pub request-delivered :
      (uid : ℤ) (text lang : String) (voice speed utt : ℤ) (d : Library (Daemon p.World × q.State))
      → (request_initialize (linked p q) uid d
          ≡ answered_with (Client.initialize p (pos q.pid) uid) d)
        × (request_finalize (linked p q) uid d ≡ answered_with (Client.finalize p uid) d)
        × (request_play (linked p q) uid d ≡ answered_with (Client.play p uid) d)
        × (request_stop (linked p q) uid d ≡ answered_with (Server.stop p uid) d)
        × (request_pause (linked p q) uid d ≡ answered_with (Client.pause p uid) d)
        × (request_add_text (linked p q) uid (some text) lang voice speed utt d
            ≡ answered_with (Client.add_queue p uid text lang voice speed utt) d)
  unfolding request_initialize request_finalize request_play request_stop request_pause
      request_add_text request_result send_request external pure ◌>>=◌ serve Requests.initialize
      Requests.finalize Requests.play Requests.stop Requests.pause Requests.add_text answer_request
      run_request respond
  request-delivered uid text lang voice speed utt d = (refl, refl, refl, refl, refl, refl)

  -- The default voice reaches the application only with a result of 0. Whatever else the daemon's result
  -- is, the library reports TTS_ERROR_OPERATION_FAILED: the answer then has the result alone, and the
  -- library reads it as one with a voice.
  pub request_get_default_voice-delivered :
      (uid : ℤ) (d : Library (Daemon p.World × q.State))
      → let (r, e) = get_current_voice p uid d.world.0 in
        (request_get_default_voice (linked p q) uid d).0 ≡ (
          if is_nonzero r.0
          then (error_operation_failed, none)
          else (pos 0, some (r.1.language, r.1.voice_type)))
  unfolding request_get_default_voice send_request external pure ◌>>=◌ serve Requests.current_voice
      run_request respond
  request_get_default_voice-delivered uid d =
      let r = (get_current_voice p uid d.world.0).0 in
      elim (Bool-cases (is_nonzero r.0)) [
        | inl failed ↦ rw failed refl
        | inr done ↦
            rw done (
              rw done
                (ap (λ c. (c, some (r.1.language, r.1.voice_type))) (zero_of_result r.0 done)))
      ]
