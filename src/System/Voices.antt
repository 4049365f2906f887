-- ===== src/System/Voices.antt =====
-- The list of supported voices on its way from the engine to the application's callback.
use framework_uifw_voice_tts.Prelude.{
  ℕ, ◌≡◌, refl, sym, ap, ◌∙◌, inl, inr, none, some, List, [], ◌∷◌, ℤ, pos, is_nonzero, Bool-cases,
  if◌then◌else◌, length,
}
use framework_uifw_voice_tts.Wire.{arg_int}
use framework_uifw_voice_tts.Action.{case_option, pure, ◌>>=◌}
use framework_uifw_voice_tts.Platform.{Platform, Voice}
use framework_uifw_voice_tts.Daemon.{Daemon}
use framework_uifw_voice_tts.Server.Queries.{get_support_voices}
use framework_uifw_voice_tts.DbusServer.{serve}
use framework_uifw_voice_tts.DbusServer.Requests
use framework_uifw_voice_tts.DbusServer.Reply.{voice_args, respond, run_request}
use framework_uifw_voice_tts.Client.Link.{
  Library, external, ask_handles, send_request, each_voice, voices_of, answered_voices,
  request_get_support_voice,
}
use framework_uifw_voice_tts.Client.{TtsClient, tts_ready, find_handle, client_get}
use framework_uifw_voice_tts.Client.Api.{foreach_supported_voices}
use framework_uifw_voice_tts.Client.Find.{find_handle-handle}
use framework_uifw_voice_tts.System.{Application, linked}
use framework_uifw_voice_tts.System.Delivered.{zero_of_result}

-- The voices are given to the callback in their order, until it declines one.
unfoldable pub hand_out : (q : Application) → ℕ → ℤ → List Voice → q.State → q.State
hand_out q callback tts [] s = s
hand_out q callback tts (v ∷ l) s =
    let (more, t) = q.on_voice callback tts v.language v.voice_type s in
    let rest = hand_out q callback tts l t in if more then rest else t

module _ (p : Platform) (q : Application) where
  each_voice-voice_args :
      (callback : ℕ) (tts : ℤ) (l : List Voice) (d : Library (Daemon p.World × q.State))
      → each_voice (linked p q) (length l) callback tts (voice_args l) d
        ≡ (some tt, record d { world = (d.world.0, hand_out q callback tts l d.world.1) })
  unfolding each_voice voice_args hand_out external pure ◌>>=◌
  each_voice-voice_args callback tts [] d = refl
  each_voice-voice_args callback tts (v ∷ l) d =
      let told = q.on_voice callback tts v.language v.voice_type d.world.1 in
      elim (Bool-cases told.0) [
        | inl more ↦ rw more (
            rw (each_voice-voice_args callback tts l (record d { world = (d.world.0, told.1) }))
              refl)
        | inr enough ↦ rw enough refl
      ]

  voices_of-voice_args :
      (callback : ℕ) (tts : ℤ) (l : List Voice) (d : Library (Daemon p.World × q.State))
      → voices_of (linked p q) callback tts (arg_int (pos (length l)) ∷ voice_args l) d
        ≡ (some (pos 0), record d { world = (d.world.0, hand_out q callback tts l d.world.1) })
  unfolding voices_of pure ◌>>=◌
  voices_of-voice_args callback tts l d =
      ap (λ r. (case_option r.0 (pure none) (λ done. pure (some (pos 0)))) r.1)
        (each_voice-voice_args callback tts l d)

  -- The request, on a bus that delivers.
  request_get_support_voice-delivered :
      (uid tts : ℤ) (callback : ℕ) (d : Library (Daemon p.World × q.State))
      → let (ret, voices) = (get_support_voices p uid d.world.0).0 in
        let (result, e) = request_get_support_voice (linked p q) uid tts callback d in
        (result ≡ some ret)
        × (e.world.1
            ≡ (if is_nonzero ret then d.world.1 else hand_out q callback tts voices d.world.1))
  unfolding request_get_support_voice send_request answered_voices voices_of external pure ◌>>=◌
      serve Requests.support_voices run_request respond
  request_get_support_voice-delivered uid tts callback d =
      let r = (get_support_voices p uid d.world.0).0 in
      elim (Bool-cases (is_nonzero r.0)) [
        | inl failed ↦ rw failed (rw failed (refl, refl))
        | inr done ↦ rw done (
            rw done (
              let args = arg_int r.0 ∷ arg_int (pos (length r.1)) ∷ voice_args r.1 in
              let e = (get_support_voices p uid d.world.0).1 in
              let told =
                voices_of-voice_args callback tts r.1
                  (record d { world = ((respond p args e).1, d.world.1) }) in
              (
                ap (λ x. x.0) told ∙ ap some (sym (zero_of_result r.0 done)),
                ap (λ x. x.1.world.1) told,
              )))
      ]

  -- tts_foreach_supported_voices with a callback, for a handle in the state `ready`, on a bus that
  -- delivers: its result is the daemon's, and with a result of 0 the voices that the daemon listed are
  -- given to the callback, in their order and unchanged, with the handle that was passed in, until it
  -- declines one; with any other result the callback is not called.
  pub foreach_supported_voices-delivered :
      (h : ℤ) (c : TtsClient) (callback : ℕ) (d : Library (Daemon p.World × q.State))
      → find_handle h d.handles.client_list ≡ some c
      → c.current_state ≡ tts_ready
      → let (ret, voices) = (get_support_voices p c.uid d.world.0).0 in
        let (result, e) = foreach_supported_voices (linked p q) (some h) (some callback) d in
        (result ≡ some ret)
        × (e.world.1
            ≡ (if is_nonzero ret then d.world.1 else hand_out q callback h voices d.world.1))
  unfolding foreach_supported_voices ask_handles client_get pure ◌>>=◌
  foreach_supported_voices-delivered h c callback d found ready = rw found (
      rw ready (
        rw (find_handle-handle h d.handles.client_list c found)
          (request_get_support_voice-delivered c.uid h callback d)))
