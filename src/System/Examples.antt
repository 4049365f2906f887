-- ===== src/System/Examples.antt =====
-- The library and the daemon together at concrete inputs.
use Prim.Native.String.{String}
use framework_uifw_voice_tts.Prelude.{
  ℕ, suc, ◌≡◌, refl, true, Option, none, some, List, [], ◌∷◌, ℤ, pos, is_nonzero, if◌then◌else◌,
  length,
}
use framework_uifw_voice_tts.Types.{state_ready, error_none, error_operation_failed, AppData}
use framework_uifw_voice_tts.Data.Locate.{find}
use framework_uifw_voice_tts.Daemon.{Daemon}
use framework_uifw_voice_tts.Server
use framework_uifw_voice_tts.Server.Client
use framework_uifw_voice_tts.Server.Queries.{get_support_voices, get_current_voice}
use framework_uifw_voice_tts.Sample.{sample, scene, reader}
use framework_uifw_voice_tts.Client.{TtsClient, tts_playing, tts_ready, created_client, find_handle}
use framework_uifw_voice_tts.Client.Link.{
  LibPlatform, Library, request_initialize, request_finalize, request_play, request_stop,
  request_pause, request_add_text, request_get_default_voice,
}
use framework_uifw_voice_tts.Client.Api
use framework_uifw_voice_tts.Client.Settled.{IsAllSettled, Holds}
use framework_uifw_voice_tts.Client.Steps.{
  create_call, run_call, Reach, here, then_step, called, start,
}
use framework_uifw_voice_tts.Client.Steps.Alive.{reachable-settled}
use framework_uifw_voice_tts.Client.Machine.{
  Operation, stop_op, play_op, pause_op, library_run, machine_run, states_of,
}
use framework_uifw_voice_tts.Client.Machine.Refines.{library_run-refines}
use framework_uifw_voice_tts.Client.Utterance.{ids_from, add_each, add_each-ids}
use framework_uifw_voice_tts.System.{Application, linked}
use framework_uifw_voice_tts.System.Delivered.{
  answered_with, request-delivered, request_get_default_voice-delivered,
}
use framework_uifw_voice_tts.System.Voices.{hand_out, foreach_supported_voices-delivered}
use framework_uifw_voice_tts.System.Agreement.{stop_agrees}

-- An application that counts the voices that it is told.
abbrev counter : Application
counter = record {
  State = ℕ;
  pid = 41;
  notify = λ f tts n s. s;
  on_voice = λ f tts lang voice s. (true, suc s);
}

abbrev lib : LibPlatform
lib = linked sample counter

-- The library's client for the one that plays in the daemon.
abbrev talker : TtsClient
talker = record (created_client 41 (pos 7)) { current_state = tts_playing }

abbrev library : Library (Daemon ℕ × ℕ)
library = record {
  handles = record { allocated_handle = 7; client_list = talker ∷ [] };
  is_daemon_started = true;
  conn = true;
  timers = [];
  world = (scene, 0);
}

abbrev created : Library (Daemon ℕ × ℕ)
created = run_call lib (create_call true) (start (scene, 0))

creating : Reach lib (start (scene, 0)) created
creating = then_step _ _ _ (here (start (scene, 0))) (called (create_call true) (start (scene, 0)))

reachable-settled_example : Holds IsAllSettled created
reachable-settled_example = reachable-settled lib (scene, 0) created creating

abbrev operations : List (Operation × ℤ)
operations = (pause_op, pos 7) ∷ (play_op, pos 7) ∷ (play_op, pos 7) ∷ (stop_op, pos 8) ∷ []

library_run-refines_example :
    let (codes, answers, e) = library_run lib operations library in
    machine_run operations answers (states_of library) ≡ (codes, states_of e)
library_run-refines_example = library_run-refines lib operations library

request-delivered_example :
    (request_initialize lib (pos 8) library
      ≡ answered_with sample counter (Client.initialize sample (pos 41) (pos 8)) library)
    × (request_finalize lib (pos 8) library
        ≡ answered_with sample counter (Client.finalize sample (pos 8)) library)
    × (request_play lib (pos 8) library
        ≡ answered_with sample counter (Client.play sample (pos 8)) library)
    × (request_stop lib (pos 8) library
        ≡ answered_with sample counter (Server.stop sample (pos 8)) library)
    × (request_pause lib (pos 8) library
        ≡ answered_with sample counter (Client.pause sample (pos 8)) library)
    × (request_add_text lib (pos 8) (some "Hello") "en_US" (pos 1) (pos 3) (pos 1) library
        ≡ answered_with sample counter
            (Client.add_queue sample (pos 8) "Hello" "en_US" (pos 1) (pos 3) (pos 1))
            library)
request-delivered_example =
    request-delivered sample counter (pos 8) "Hello" "en_US" (pos 1) (pos 3) (pos 1) library

request_get_default_voice-delivered_example :
    let (r, e) = get_current_voice sample (pos 7) scene in
    (request_get_default_voice lib (pos 7) library).0 ≡ (
      if is_nonzero r.0
      then (error_operation_failed, none)
      else (pos 0, some (r.1.language, r.1.voice_type)))
request_get_default_voice-delivered_example =
    request_get_default_voice-delivered sample counter (pos 7) library

-- The same client when it does not play.
abbrev at_rest : Library (Daemon ℕ × ℕ)
at_rest = record library {
  handles = record {
    allocated_handle = 7;
    client_list = record (created_client 41 (pos 7)) { current_state = tts_ready } ∷ [];
  };
}

foreach_supported_voices-delivered_example :
    let (ret, voices) = (get_support_voices sample (pos 7) scene).0 in
    let (result, e) = Api.foreach_supported_voices lib (some (pos 7)) (some 3) at_rest in
    (result ≡ some ret)
    × (e.world.1 ≡ (if is_nonzero ret then 0 else hand_out counter 3 (pos 7) voices 0))
foreach_supported_voices-delivered_example =
    foreach_supported_voices-delivered sample counter (pos 7)
      (record (created_client 41 (pos 7)) { current_state = tts_ready }) 3 at_rest
      (unfold find_handle in refl) refl

stop_agrees_example :
    let (code, e) = Api.stop lib (some (pos 7)) library in
    (code ≡ error_none)
    × (states_of e (pos 7) ≡ some tts_ready)
    × (b : AppData) × (find (pos 7) e.world.0.store.app_list ≡ some b)
    × (b.state ≡ state_ready)
    × (b.m_speak_data ≡ [])
stop_agrees_example =
    stop_agrees sample counter (pos 7) talker reader library (unfold find_handle in refl) refl refl
      (λ e. cc)

abbrev texts : List (Option String)
texts = some "Hello" ∷ none ∷ []

add_each-ids_example :
    (add_each lib (pos 7) none (pos 0) (pos 0) texts library).0 ≡ ids_from 0 (length texts)
add_each-ids_example =
    add_each-ids lib (pos 7) talker 0 none (pos 0) (pos 0) texts library
      (unfold find_handle in refl) refl refl
