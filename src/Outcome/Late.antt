-- ===== src/Outcome/Late.antt =====
-- __synthesis_result_callback of server/ttsd_server.cpp after ttsd_server_stop: results that come too late.
use framework_uifw_voice_tts.Prelude.{
  ℕ, ◌≡◌, refl, sym, ap, ◌∙◌, true, false, not, some, List, [], ◌∷◌, ◌++◌, ℤ, pos, ltb_ℤ, ◌==ℤ◌,
  if◌then◌else◌,
}
use framework_uifw_voice_tts.Types.{ResultEvent, SpeakData, AppData, Store, minus_one}
use framework_uifw_voice_tts.Data.{is_uttid_valid, clear_data}
use framework_uifw_voice_tts.Data.Locate.{find}
use framework_uifw_voice_tts.Data.Lookup.{find-update_self}
use framework_uifw_voice_tts.Data.Clear.{cleared, clear_data_lem, cleared-KeepsUid}
use framework_uifw_voice_tts.Data.Reads.{uttid_read, is_uttid_valid_lem}
use framework_uifw_voice_tts.Data.Queues.{clear_data_stops}
use framework_uifw_voice_tts.Platform.{Platform}
use framework_uifw_voice_tts.Daemon.{Daemon}
use framework_uifw_voice_tts.Server.{stop}
use framework_uifw_voice_tts.Server.Callbacks.{synthesis_result_callback}
use framework_uifw_voice_tts.Outcome.Stop.{is_active, stopped, stop_outcome}
use framework_uifw_voice_tts.Outcome.Result.{has_sound, result_stale}

cleared_entry :
    (uid : ℤ) (s : Store) (a : AppData)
    → find uid s.app_list ≡ some a
    → find uid (clear_data uid s).1.app_list ≡ some (cleared a)
cleared_entry uid s a h =
    rw (clear_data_lem uid s, h)
      (rw (find-update_self uid cleared s.app_list cleared-KeepsUid, h) refl)

module _ (p : Platform) where
  open p use {World}

  -- The ids that a stopped client accepts are those that its cleared entry accepts.
  stopped_uttid :
      (uid uttid : ℤ) (d : Daemon World) (a : AppData)
      → find uid d.store.app_list ≡ some a
      → is_uttid_valid uid uttid (stop p uid d).1.store
        ≡ is_uttid_valid uid uttid (clear_data uid d.store).1
  stopped_uttid uid uttid d a h =
      is_uttid_valid_lem uid uttid (stop p uid d).1.store
      ∙ ap (uttid_read uttid) (stop_outcome p uid d a h).1
      ∙ sym (
          is_uttid_valid_lem uid uttid (clear_data uid d.store).1
          ∙ ap (uttid_read uttid) (cleared_entry uid d.store a h))

  -- After a request to stop of a registered client in whose queue the last text had the id `last`, not -1,
  -- a result of the engine for a text with a smaller id comes too late, whatever its event: the tables stay
  -- as the stop left them, with nothing of it in the client's queue. A `cancel` or a `fail` marks the engine
  -- as idle and lets the next text be taken. Sound leaves both marks, also with the event `finish`: of a
  -- client that was neither playing nor paused, the engine goes on counting as busy if it did before.
  pub result_dropped :
      (event : ResultEvent) (bytes : List ℕ) (size : ℕ) (uid uttid : ℤ) (d : Daemon World)
      (a : AppData) (q : List SpeakData) (last : SpeakData)
      → find uid d.store.app_list ≡ some a
      → a.m_speak_data ≡ q ++ last ∷ []
      → (last.utt_id ==ℤ minus_one) ≡ false
      → ltb_ℤ uttid last.utt_id ≡ true
      → let stop_done = (stop p uid d).1 in
        let (code, e) = synthesis_result_callback p event bytes size uid uttid stop_done in
        (code ≡ pos 0)
        × (e.store ≡ stop_done.store)
        × (find uid e.store.app_list ≡ some (stopped a))
        × (e.is_synthesizing ≡ (
            if has_sound event
            then (if is_active a.state then false else d.is_synthesizing)
            else false))
        × (e.is_next_synthesis ≡ (if has_sound event then stop_done.is_next_synthesis else true))
  result_dropped event bytes size uid uttid d a q last here queue ne late =
      let outcome = stop_outcome p uid d a here in
      let stale =
        stopped_uttid uid uttid d a here
        ∙ clear_data_stops uid uttid d.store a q last here queue ne
        ∙ ap not late in
      let (code, store, busy, next) =
        result_stale p event bytes size uid uttid (stop p uid d).1 stale in
      (
        code,
        store,
        ap (λ s. find uid s.app_list) store ∙ outcome.1,
        busy ∙ ap (λ b. if has_sound event then b else false) outcome.3,
        next,
      )
