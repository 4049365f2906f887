-- ===== src/Outcome/Examples.antt =====
-- Requests and results at a concrete state of the daemon.
use framework_uifw_voice_tts.Prelude.{
  ◌+◌, ◌*◌, ◌/◌, ◌<◌, ℕ, suc, ◌≤◌, ◌≡◌, refl, ◌⊎◌, true, false, some, [], ◌∷◌, arith, pos, negsuc,
  length,
}
use mathlib.Core.Option.{some-injective}
use mathlib.Core.Path.{subst}
use framework_uifw_voice_tts.Player.Sound.{count_item}
use framework_uifw_voice_tts.Invariant.Rules.{Holds, IsWell}
use framework_uifw_voice_tts.Server.{get_is_engine}
use framework_uifw_voice_tts.Outcome.Register.{initialize_registers, finalize_unregisters}
use framework_uifw_voice_tts.Types.{minus_one, event_finish, error_none, error_operation_failed}
use framework_uifw_voice_tts.Data.{
  new_app, get_client_count, client_index_from, is_client, get_current_playing, is_uttid_valid,
}
use framework_uifw_voice_tts.Data.Locate.{find}
use framework_uifw_voice_tts.Data.Invariant.{count_playing}
use framework_uifw_voice_tts.Data.Queues.{SameOthers}
use framework_uifw_voice_tts.Action.{◌>>=◌, pure}
use framework_uifw_voice_tts.Daemon.{ask_store, PlayerItem, outside}
use framework_uifw_voice_tts.Player.Items.{get_item}
use framework_uifw_voice_tts.Player.File.{init_wave_header, file_name, temp_file_max}
use framework_uifw_voice_tts.Platform.{WavHeader}
use framework_uifw_voice_tts.Player.File.Header.{init_wave_header_mono}
use framework_uifw_voice_tts.Player.File.Bounds.{whole_name, file_name_fits}
use framework_uifw_voice_tts.Server.{stop}
use framework_uifw_voice_tts.Server.Client.{
  require_engine, load_for_first, initialize, finalize, network_ready, play,
}
use framework_uifw_voice_tts.Server.Callbacks.{synthesis_result_callback}
use framework_uifw_voice_tts.Outcome.Stop.{player_stopped, stopped, stop_outcome}
use framework_uifw_voice_tts.Outcome.Play.Takeover.{play_takeover}
use framework_uifw_voice_tts.Outcome.Result.{sound_of, result_queued}
use framework_uifw_voice_tts.Outcome.Late.{result_dropped}
use framework_uifw_voice_tts.Sample.{
  sample, scene, say, reader, waiter, two_clients, two_clients-IsValid,
}

stop_outcome_example :
    let (code, e) = stop sample (pos 7) scene in
    let w = (player_stopped sample (pos 7) scene).world in
    (code ≡ error_none)
    × (find (pos 7) e.store.app_list ≡ some (stopped reader))
    × SameOthers (pos 7) scene.store e.store
    × (e.is_synthesizing ≡ false)
    × (e.world ≡ (sample.agent.cancel_synthesis w).1)
stop_outcome_example = stop_outcome sample (pos 7) scene reader refl

network_ready-sample : (network_ready sample scene).0 ≡ true
unfolding network_ready outside ◌>>=◌ pure
network_ready-sample = refl

play_takeover_example :
    let (code, e) = play sample (pos 8) scene in
    ((code ≡ error_none) ⊎ (code ≡ error_operation_failed))
    × (get_current_playing e.store ≡ pos 8)
    × (count_playing e.store.app_list ≡ 1)
play_takeover_example =
    play_takeover sample (pos 8) scene waiter two_clients-IsValid refl refl refl
      network_ready-sample

result_dropped_example :
    let stop_done = (stop sample (pos 7) scene).1 in
    let (code, e) =
      synthesis_result_callback sample event_finish (1 ∷ []) 1 (pos 7) (pos 1) stop_done in
    (code ≡ pos 0)
    × (e.store ≡ stop_done.store)
    × (find (pos 7) e.store.app_list ≡ some (stopped reader))
    × (e.is_synthesizing ≡ false)
    × (e.is_next_synthesis ≡ stop_done.is_next_synthesis)
result_dropped_example =
    result_dropped sample event_finish (1 ∷ []) 1 (pos 7) (pos 1) scene reader (say (pos 1) ∷ [])
      (say (pos 2)) refl refl refl refl

valid_sample : is_uttid_valid (pos 7) (pos 1) two_clients ≡ true
unfolding is_uttid_valid is_client client_index_from
valid_sample = refl

result_queued_example :
    let (code, e) =
      synthesis_result_callback sample event_finish (1 ∷ []) 1 (pos 7) (pos 1) scene in
    (code ≡ pos 0)
    × (find (pos 7) e.store.app_list
        ≡ some (record reader {
          m_wav_data = sound_of sample event_finish (1 ∷ []) 1 (pos 1) scene ∷ [];
        }))
    × SameOthers (pos 7) scene.store e.store
    × (e.is_synthesizing ≡ false)
    × (e.is_next_synthesis ≡ true)
result_queued_example =
    result_queued sample event_finish (1 ∷ []) 1 (pos 7) (pos 1) scene reader refl valid_sample refl
      refl

file_name_fits_example :
    (file_name (negsuc 2147483647) 65533 (b'w' ∷ b'a' ∷ b'v' ∷ [])
      ≡ whole_name (negsuc 2147483647) 65533 (b'w' ∷ b'a' ∷ b'v' ∷ []))
    × (suc (length (file_name (negsuc 2147483647) 65533 (b'w' ∷ b'a' ∷ b'v' ∷ []))) ≤ temp_file_max)
file_name_fits_example =
    file_name_fits (negsuc 2147483647) 65533 (b'w' ∷ b'a' ∷ b'v' ∷ []) (omega arith) (omega arith)
      refl

engine_found-sample : (require_engine sample scene).0 ≡ true
unfolding require_engine get_is_engine ◌>>=◌ pure
engine_found-sample = refl

engine_loaded-sample : (load_for_first sample (require_engine sample scene).1).0 ≡ true
unfolding load_for_first require_engine get_is_engine ask_store get_client_count ◌>>=◌ pure
engine_loaded-sample = refl

initialize_registers_example :
    let (code, e) = initialize sample (pos 43) (pos 9) scene in
    (((code ≡ error_none) × (i : PlayerItem) × (get_item (pos 9) e.player.player_list ≡ some i))
      ⊎ ((code ≡ error_operation_failed) × (e.player ≡ scene.player)))
    × (find (pos 9) e.store.app_list ≡ some (new_app (pos 43) (pos 9)))
    × SameOthers (pos 9) scene.store e.store
initialize_registers_example =
    initialize_registers sample (pos 43) (pos 9) scene refl engine_found-sample engine_loaded-sample

scene-IsWell : Holds IsWell scene
scene-IsWell = record {
  holds = record {
    tables = two_clients-IsValid;
    players = record {
      items = λ u. ground arith;
      info = λ u e.
          subst (λ v. 0 < count_item v scene.player.player_list) (some-injective (pos 7) u e)
            (omega arith);
      index = λ e. (omega arith, omega arith);
    };
  };
}

finalize_unregisters_example :
    let (code, e) = finalize sample (pos 7) scene in
    (code ≡ error_none)
    × (is_client (pos 7) e.store ≡ minus_one)
    × SameOthers (pos 7) scene.store e.store
finalize_unregisters_example = finalize_unregisters sample (pos 7) scene reader scene-IsWell refl

abbrev channel_count : ℕ
channel_count = 2

init_wave_header_mono_example :
    (h : WavHeader) × (init_wave_header 32000 (pos 16000) (pos 2) ≡ some h)
    × (h.file_size ≡ h.data_size + 36)
    × (h.bytes_per_second ≡ h.sample_rate * h.block_align)
    × (h.block_align ≡ h.n_channels * (h.bits_per_sample / 8) → channel_count ≡ 1)
    × (channel_count ≡ 1 → h.block_align ≡ h.n_channels * (h.bits_per_sample / 8))
init_wave_header_mono_example =
    init_wave_header_mono 32000 16000 channel_count (omega arith) (omega arith) (omega arith)
      (omega arith) (omega arith) (omega arith)
