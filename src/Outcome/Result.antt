-- ===== src/Outcome/Result.antt =====
-- __synthesis_result_callback of server/ttsd_server.cpp: what becomes of a result of the engine.
use framework_uifw_voice_tts.Prelude.{
  ℕ, ◌≡◌, refl, ◌∙◌, Bool, true, false, some, List, [], ◌∷◌, ◌++◌, ℤ, pos, if◌then◌else◌,
}
use framework_uifw_voice_tts.Types.{
  ResultEvent, event_fail, event_start, event_continue, event_finish, event_cancel, SoundData,
  AppData,
}
use framework_uifw_voice_tts.Data.{is_uttid_valid, add_sound_data, enqueue_sound}
use framework_uifw_voice_tts.Data.Locate.{find, add_sound_data_lem}
use framework_uifw_voice_tts.Data.Lookup.{find-update_self, find-update_ne}
use framework_uifw_voice_tts.Data.Queues.{SameOthers}
use framework_uifw_voice_tts.Action.{pure, ◌>>=◌}
use framework_uifw_voice_tts.Platform.{Platform}
use framework_uifw_voice_tts.Daemon.{Daemon, outside, on_store, ask_store}
use framework_uifw_voice_tts.Player.Messages.{is_finish}
use framework_uifw_voice_tts.Server.{set_is_synthesizing, set_is_next_synthesis}
use framework_uifw_voice_tts.Server.Callbacks.{
  synthesis_done, sound_result, synthesis_result_callback,
}

-- The events that come with sound.
abbrev pub has_sound : ResultEvent → Bool
has_sound event_start = true
has_sound event_continue = true
has_sound event_finish = true
has_sound _ = false

module _ (p : Platform) where
  open p use {World, agent}

  -- The record that is queued for a piece of sound in the format that the engine names.
  abbrev pub sound_of : ResultEvent → List ℕ → ℕ → ℤ → Daemon World → SoundData
  sound_of event bytes size uttid d =
      let (code, type, rate, channels) = (agent.get_audio_format d.world).0 in
      record {
        utt_id = uttid;
        bytes = bytes;
        data_size = size;
        event = event;
        audio_type = type;
        rate = rate;
        channels = channels;
      }

  -- For an utterance that is not valid any more the tables stay as they are.
  pub result_stale :
      (event : ResultEvent) (bytes : List ℕ) (size : ℕ) (uid uttid : ℤ) (d : Daemon World)
      → is_uttid_valid uid uttid d.store ≡ false
      → let (code, e) = synthesis_result_callback p event bytes size uid uttid d in
        (code ≡ pos 0)
        × (e.store ≡ d.store)
        × (e.is_synthesizing ≡ (if has_sound event then d.is_synthesizing else false))
        × (e.is_next_synthesis ≡ (if has_sound event then d.is_next_synthesis else true))
  unfolding synthesis_result_callback sound_result synthesis_done ask_store ◌>>=◌ pure
      set_is_synthesizing set_is_next_synthesis
  result_stale event_fail bytes size uid uttid d stale = (refl, refl, refl, refl)
  result_stale event_cancel bytes size uid uttid d stale = (refl, refl, refl, refl)
  result_stale event_start bytes size uid uttid d stale = rw stale (refl, refl, refl, refl)
  result_stale event_continue bytes size uid uttid d stale = rw stale (refl, refl, refl, refl)
  result_stale event_finish bytes size uid uttid d stale = rw stale (refl, refl, refl, refl)

  -- What the callback does with sound that it keeps.
  kept_lem :
      (event : ResultEvent) (bytes : List ℕ) (size : ℕ) (uid uttid : ℤ) (d : Daemon World)
      → is_uttid_valid uid uttid d.store ≡ true
      → (agent.get_audio_format d.world).0.0 ≡ pos 0
      → let (code, e) = sound_result p event bytes size uid uttid d in
        (code ≡ pos 0)
        × (e.store ≡ (add_sound_data uid (sound_of event bytes size uttid d) d.store).1)
        × (e.is_synthesizing ≡ (if is_finish event then false else d.is_synthesizing))
        × (e.is_next_synthesis ≡ (if is_finish event then true else d.is_next_synthesis))
  unfolding sound_result synthesis_done ask_store on_store outside ◌>>=◌ pure set_is_synthesizing
      set_is_next_synthesis
  kept_lem event_fail bytes size uid uttid d valid format =
      rw (valid, format) (refl, refl, refl, refl)
  kept_lem event_start bytes size uid uttid d valid format =
      rw (valid, format) (refl, refl, refl, refl)
  kept_lem event_continue bytes size uid uttid d valid format =
      rw (valid, format) (refl, refl, refl, refl)
  kept_lem event_finish bytes size uid uttid d valid format =
      rw (valid, format) (refl, refl, refl, refl)
  kept_lem event_cancel bytes size uid uttid d valid format =
      rw (valid, format) (refl, refl, refl, refl)

  callback_sound :
      (event : ResultEvent) (bytes : List ℕ) (size : ℕ) (uid uttid : ℤ) (d : Daemon World)
      → has_sound event ≡ true
      → synthesis_result_callback p event bytes size uid uttid d
        ≡ sound_result p event bytes size uid uttid d
  unfolding synthesis_result_callback
  callback_sound event_start bytes size uid uttid d s = refl
  callback_sound event_continue bytes size uid uttid d s = refl
  callback_sound event_finish bytes size uid uttid d s = refl
  callback_sound event_fail bytes size uid uttid d s = absurd (cc s)
  callback_sound event_cancel bytes size uid uttid d s = absurd (cc s)

  -- Sound for a valid utterance of a registered client, in a format that the engine could tell, goes to
  -- the end of the client's queue; the other uids are as before. A `finish` also marks the engine as
  -- idle and lets the next text be taken; the other events leave both marks.
  pub result_queued :
      (event : ResultEvent) (bytes : List ℕ) (size : ℕ) (uid uttid : ℤ) (d : Daemon World)
      (a : AppData)
      → find uid d.store.app_list ≡ some a
      → is_uttid_valid uid uttid d.store ≡ true
      → (agent.get_audio_format d.world).0.0 ≡ pos 0
      → has_sound event ≡ true
      → let (code, e) = synthesis_result_callback p event bytes size uid uttid d in
        (code ≡ pos 0)
        × (find uid e.store.app_list
            ≡ some
                (record a { m_wav_data = a.m_wav_data ++ sound_of event bytes size uttid d ∷ [] }))
        × SameOthers uid d.store e.store
        × (e.is_synthesizing ≡ (if is_finish event then false else d.is_synthesizing))
        × (e.is_next_synthesis ≡ (if is_finish event then true else d.is_next_synthesis))
  result_queued event bytes size uid uttid d a h valid format sound =
      let (code, store, busy, next) = kept_lem event bytes size uid uttid d valid format in
      let f = enqueue_sound (sound_of event bytes size uttid d) in
      rw (callback_sound event bytes size uid uttid d sound) (
        code,
        rw (store, add_sound_data_lem uid (sound_of event bytes size uttid d) d.store, h)
            (find-update_self uid f d.store.app_list (λ x. refl) ∙ rw h),
        λ v ne.
            rw (store, add_sound_data_lem uid (sound_of event bytes size uttid d) d.store, h)
              (find-update_ne uid v f d.store.app_list (λ x. refl) ne),
        busy,
        next,
      )
