-- ===== src/Client/Settled/Calls.antt =====
-- The functions of client/tts.c that write a client keep every client settled.
use Prim.Native.String.{String}
use framework_uifw_voice_tts.Prelude.{
  ℕ, ◌≡◌, Bool, true, false, Option, none, some, ℤ, pos, negsuc, is_negative, ltb_ℤ, arith,
}
use framework_uifw_voice_tts.Action.{Keeps, Keeps-pure}
use framework_uifw_voice_tts.Client.{TtsState, TtsClient}
use framework_uifw_voice_tts.Client.Link.{
  LibPlatform, request_initialize, request_finalize, request_play, request_stop, request_pause,
  request_add_text,
}
use framework_uifw_voice_tts.Client.Api.{
  enter, next_utt_id, count_utterance, note_failure, write_client, fail_connection, connect_found,
  connect_daemon, unprepare, add_text, enter_state, play, stop, pause,
}
use framework_uifw_voice_tts.Client.Notify.{
  set_when_created, set_state_changed_cb, unset_state_changed_cb, set_utterance_started_cb,
  unset_utterance_started_cb, set_utterance_completed_cb, unset_utterance_completed_cb,
  set_error_cb, unset_error_cb,
}
use framework_uifw_voice_tts.Client.Settled.{
  IsSettled, change_client-Each, IsAllSettled, Holds, Keeps-on_handles, library_rules,
}
use framework_uifw_voice_tts.Client.Settled.Requests.{
  request_rules, open_connection-Keeps, close_connection-Keeps, start_daemon-Keeps,
}

pub next_utt_id_range :
    (i : ℤ)
    → is_negative i ≡ false
    → ltb_ℤ i (pos 10000) ≡ true
    → (is_negative (next_utt_id i) ≡ false) × (ltb_ℤ (next_utt_id i) (pos 10000) ≡ true)
next_utt_id_range (pos n) low high = ground arith
next_utt_id_range (negsuc n) low high = cc

module _ (p : LibPlatform) where
  open p use {World, pid}

  -- A write to a client that leaves what makes it settled.
  pub write_client-Keeps :
      (h : ℤ) (f : TtsClient → TtsClient)
      → ((c : TtsClient) → IsSettled c → IsSettled (f c))
      → Keeps (Holds IsAllSettled) (write_client p h f)
  write_client-Keeps h f keep =
      Keeps-on_handles _ (λ s e. change_client-Each f keep h s.client_list e)

  pub enter-Keeps :
      (h : ℤ) (state : TtsState) → Keeps (Holds IsAllSettled) (write_client p h (enter state))
  enter-Keeps h state =
      write_client-Keeps h (enter state)
        (λ c s. record { idle = s.idle; counted = s.counted; in_range = s.in_range })

  pub note_failure-Keeps :
      (h code : ℤ) → Keeps (Holds IsAllSettled) (write_client p h (note_failure code))
  note_failure-Keeps h code =
      write_client-Keeps h (note_failure code)
        (λ c s. record { idle = s.idle; counted = s.counted; in_range = s.in_range })

  pub ruleset write_rules = (request_rules, enter-Keeps, note_failure-Keeps)

  pub connect_daemon-Keeps : (h : ℤ) → Keeps (Holds IsAllSettled) (connect_daemon p h)
  unfolding connect_daemon connect_found fail_connection request_initialize
  connect_daemon-Keeps h = search (write_rules, start_daemon-Keeps) depth 30

  pub unprepare-Keeps : (tts : Option ℤ) → Keeps (Holds IsAllSettled) (unprepare p tts)
  unfolding unprepare request_finalize
  unprepare-Keeps tts = search write_rules depth 20

  count-Keeps : (h : ℤ) → Keeps (Holds IsAllSettled) (write_client p h count_utterance)
  count-Keeps h = write_client-Keeps h count_utterance (λ c s.
      let r = next_utt_id_range c.current_utt_id s.counted s.in_range in
      record { idle = s.idle; counted = r.0; in_range = r.1 })

  pub add_text-Keeps :
      (tts : Option ℤ) (text lang : Option String) (voice speed : ℤ) (out : Bool)
      → Keeps (Holds IsAllSettled) (add_text p tts text lang voice speed out)
  unfolding add_text request_add_text
  add_text-Keeps tts text lang voice speed out = search (write_rules, count-Keeps) depth 30

  enter_state-Keeps :
      (h : ℤ) (c : TtsClient) (state : TtsState)
      → Keeps (Holds IsAllSettled) (enter_state p h c state)
  unfolding enter_state
  enter_state-Keeps h c state = search write_rules depth 20

  pub play-Keeps : (tts : Option ℤ) → Keeps (Holds IsAllSettled) (play p tts)
  unfolding play request_play
  play-Keeps tts = search (write_rules, enter_state-Keeps) depth 20

  pub stop-Keeps : (tts : Option ℤ) → Keeps (Holds IsAllSettled) (stop p tts)
  unfolding stop request_stop
  stop-Keeps tts = search (write_rules, enter_state-Keeps) depth 20

  pub pause-Keeps : (tts : Option ℤ) → Keeps (Holds IsAllSettled) (pause p tts)
  unfolding pause request_pause
  pause-Keeps tts = search (write_rules, enter_state-Keeps) depth 20

  set_when_created-Keeps :
      (tts : Option ℤ) (f : TtsClient → TtsClient)
      → ((c : TtsClient) → IsSettled c → IsSettled (f c))
      → Keeps (Holds IsAllSettled) (set_when_created p tts f)
  unfolding set_when_created
  set_when_created-Keeps tts f keep = search (library_rules, write_client-Keeps) depth 20

  pub set_state_changed-Keeps :
      (tts : Option ℤ) (f : Option ℕ) → Keeps (Holds IsAllSettled) (set_state_changed_cb p tts f)
  unfolding set_state_changed_cb
  set_state_changed-Keeps tts none = Keeps-pure _
  set_state_changed-Keeps tts (some f) =
      set_when_created-Keeps tts _
        (λ c s. record { idle = s.idle; counted = s.counted; in_range = s.in_range })

  pub unset_state_changed-Keeps :
      (tts : Option ℤ) → Keeps (Holds IsAllSettled) (unset_state_changed_cb p tts)
  unfolding unset_state_changed_cb
  unset_state_changed-Keeps tts =
      set_when_created-Keeps tts _
        (λ c s. record { idle = s.idle; counted = s.counted; in_range = s.in_range })

  pub set_utterance_started-Keeps :
      (tts : Option ℤ) (f : Option ℕ)
      → Keeps (Holds IsAllSettled) (set_utterance_started_cb p tts f)
  unfolding set_utterance_started_cb
  set_utterance_started-Keeps tts none = Keeps-pure _
  set_utterance_started-Keeps tts (some f) =
      set_when_created-Keeps tts _
        (λ c s. record { idle = s.idle; counted = s.counted; in_range = s.in_range })

  pub unset_utterance_started-Keeps :
      (tts : Option ℤ) → Keeps (Holds IsAllSettled) (unset_utterance_started_cb p tts)
  unfolding unset_utterance_started_cb
  unset_utterance_started-Keeps tts =
      set_when_created-Keeps tts _
        (λ c s. record { idle = s.idle; counted = s.counted; in_range = s.in_range })

  pub set_utterance_completed-Keeps :
      (tts : Option ℤ) (f : Option ℕ)
      → Keeps (Holds IsAllSettled) (set_utterance_completed_cb p tts f)
  unfolding set_utterance_completed_cb
  set_utterance_completed-Keeps tts none = Keeps-pure _
  set_utterance_completed-Keeps tts (some f) =
      set_when_created-Keeps tts _
        (λ c s. record { idle = s.idle; counted = s.counted; in_range = s.in_range })

  pub unset_utterance_completed-Keeps :
      (tts : Option ℤ) → Keeps (Holds IsAllSettled) (unset_utterance_completed_cb p tts)
  unfolding unset_utterance_completed_cb
  unset_utterance_completed-Keeps tts =
      set_when_created-Keeps tts _
        (λ c s. record { idle = s.idle; counted = s.counted; in_range = s.in_range })

  pub set_error-Keeps :
      (tts : Option ℤ) (f : Option ℕ) → Keeps (Holds IsAllSettled) (set_error_cb p tts f)
  unfolding set_error_cb
  set_error-Keeps tts none = Keeps-pure _
  set_error-Keeps tts (some f) =
      set_when_created-Keeps tts _
        (λ c s. record { idle = s.idle; counted = s.counted; in_range = s.in_range })

  pub unset_error-Keeps : (tts : Option ℤ) → Keeps (Holds IsAllSettled) (unset_error_cb p tts)
  unfolding unset_error_cb
  unset_error-Keeps tts =
      set_when_created-Keeps tts _
        (λ c s. record { idle = s.idle; counted = s.counted; in_range = s.in_range })
