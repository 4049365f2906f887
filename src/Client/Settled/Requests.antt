-- ===== src/Client/Settled/Requests.antt =====
-- The functions of client/tts_dbus.c, and those of client/tts.c that write no client, keep any condition on
-- the handles.
use framework_uifw_voice_tts.Prelude.{
  ℕ, zero, suc, is_nonzero, Bool, Option, List, [], ◌∷◌, ℤ, pos, negsuc,
}
use framework_uifw_voice_tts.Action.{Keeps, Keeps-bind, Keeps-pure, Leads-if}
use framework_uifw_voice_tts.Wire.{ServerMethod, Arg, arg_int, arg_string}
use framework_uifw_voice_tts.Client.{Handles}
use framework_uifw_voice_tts.Client.Link.{
  LibPlatform, open_connection, close_connection, reconnect, request_hello, send_request,
  request_result, request_get_default_voice, each_voice, voices_of, answered_voices,
  request_get_support_voice,
}
use framework_uifw_voice_tts.Client.Api.{
  start_daemon, prepare, foreach_supported_voices, get_default_voice, get_max_text_count, get_state,
}
use framework_uifw_voice_tts.Client.Settled.{
  IsSettled, Each, each_nil, each_cons, Each-append, change_client-Each, IsAllSettled, Holds,
  Keeps-on_handles, Keeps-external, library_rules,
}

module _ (p : LibPlatform) {P : Handles → Type 0} where
  open p use {World, pid}

  pub open_connection-Keeps : Keeps (Holds P) (open_connection p)
  unfolding open_connection
  open_connection-Keeps = search library_rules depth 20

  pub close_connection-Keeps : Keeps (Holds P) (close_connection p)
  unfolding close_connection
  close_connection-Keeps = search library_rules depth 20

  pub reconnect-Keeps : Keeps (Holds P) (reconnect p)
  unfolding reconnect
  reconnect-Keeps = search (library_rules, open_connection-Keeps, close_connection-Keeps) depth 20

  pub request_hello-Keeps : Keeps (Holds P) (request_hello p)
  unfolding request_hello
  request_hello-Keeps = search library_rules depth 20

  pub send_request-Keeps :
      (method : ServerMethod) (args : List Arg) → Keeps (Holds P) (send_request p method args)
  unfolding send_request
  send_request-Keeps method args = search (library_rules, reconnect-Keeps) depth 20

  pub request_result-Keeps :
      (method : ServerMethod) (args : List Arg) → Keeps (Holds P) (request_result p method args)
  unfolding request_result
  request_result-Keeps method args = search (library_rules, send_request-Keeps) depth 20

  pub ruleset request_rules = (
    library_rules, open_connection-Keeps, close_connection-Keeps, request_hello-Keeps,
    send_request-Keeps, request_result-Keeps,
  )

  each_voice-Keeps :
      (n callback : ℕ) (tts : ℤ) (args : List Arg)
      → Keeps (Holds P) (each_voice p n callback tts args)
  unfolding each_voice
  each_voice-Keeps zero callback tts args = search library_rules depth 20
  each_voice-Keeps (suc n) callback tts [] = search library_rules depth 20
  each_voice-Keeps (suc n) callback tts (arg_int _ ∷ _) = search library_rules depth 20
  each_voice-Keeps (suc n) callback tts (arg_string lang ∷ []) = search library_rules depth 20
  each_voice-Keeps (suc n) callback tts (arg_string lang ∷ arg_string _ ∷ _) =
      search library_rules depth 20
  each_voice-Keeps (suc n) callback tts (arg_string lang ∷ arg_int voice ∷ rest) =
      Keeps-bind _ _ (Keeps-external _)
        (λ more. Leads-if more _ _ (each_voice-Keeps n callback tts rest) (Keeps-pure _))

  voices_of-Keeps :
      (callback : ℕ) (tts : ℤ) (args : List Arg) → Keeps (Holds P) (voices_of p callback tts args)
  unfolding voices_of
  voices_of-Keeps callback tts [] = search library_rules depth 20
  voices_of-Keeps callback tts (arg_string _ ∷ _) = search library_rules depth 20
  voices_of-Keeps callback tts (arg_int (pos n) ∷ rest) =
      Keeps-bind _ _ (each_voice-Keeps n callback tts rest) (λ read. search library_rules depth 20)
  voices_of-Keeps callback tts (arg_int (negsuc _) ∷ rest) = search library_rules depth 20

  answered_voices-Keeps :
      (callback : ℕ) (tts : ℤ) (args : List Arg)
      → Keeps (Holds P) (answered_voices p callback tts args)
  unfolding answered_voices
  answered_voices-Keeps callback tts [] = search library_rules depth 20
  answered_voices-Keeps callback tts (arg_string _ ∷ _) = search library_rules depth 20
  answered_voices-Keeps callback tts (arg_int result ∷ rest) =
      Leads-if (is_nonzero result) _ _ (Keeps-pure _) (voices_of-Keeps callback tts rest)

  pub start_daemon-Keeps : Keeps (Holds P) (start_daemon p)
  unfolding start_daemon
  start_daemon-Keeps = search library_rules depth 20

  pub prepare-Keeps : (tts : Option ℤ) → Keeps (Holds P) (prepare p tts)
  unfolding prepare
  prepare-Keeps tts = search library_rules depth 20

  pub foreach_voices-Keeps :
      (tts : Option ℤ) (callback : Option ℕ)
      → Keeps (Holds P) (foreach_supported_voices p tts callback)
  unfolding foreach_supported_voices request_get_support_voice
  foreach_voices-Keeps tts callback = search (request_rules, answered_voices-Keeps) depth 20

  pub get_default_voice-Keeps :
      (tts : Option ℤ) (out : Bool) → Keeps (Holds P) (get_default_voice p tts out)
  unfolding get_default_voice request_get_default_voice
  get_default_voice-Keeps tts out = search request_rules depth 20

  pub get_max_text_count-Keeps :
      (tts : Option ℤ) (out : Bool) → Keeps (Holds P) (get_max_text_count p tts out)
  unfolding get_max_text_count
  get_max_text_count-Keeps tts out = search library_rules depth 20

  pub get_state-Keeps : (tts : Option ℤ) (out : Bool) → Keeps (Holds P) (get_state p tts out)
  unfolding get_state
  get_state-Keeps tts out = search library_rules depth 20
