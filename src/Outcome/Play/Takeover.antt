-- ===== src/Outcome/Play/Takeover.antt =====
-- ttsd_server_play of a client that is registered and does not play, with a network if one is needed.
use framework_uifw_voice_tts.Prelude.{
  List, [], ◌∷◌, ◌≡◌, refl, ap, ◌∙◌, ◌⊎◌, inl, inr, true, false, not, ◌&&◌, Option, none, some, ℤ,
  ◌==ℤ◌, is_nonzero, if◌then◌else◌, Bool-cases,
}
use framework_uifw_voice_tts.Types.{
  AppState, state_created, state_playing, state_paused, SpeakData, AppData, Store, no_speak,
  is_playing, error_none, error_operation_failed, minus_one,
}
use framework_uifw_voice_tts.Data.{drop_speak, set_client_state, get_current_playing}
use framework_uifw_voice_tts.Data.Locate.{
  find, get_client_state_lem, get_speak_data_lem, speak_taken,
}
use framework_uifw_voice_tts.Data.Invariant.{IsValid, count_playing, count_playing-update}
use framework_uifw_voice_tts.Data.Playing.{set_playing_accepted}
use framework_uifw_voice_tts.Action.{Keeps, pure, ◌>>=◌}
use framework_uifw_voice_tts.Platform.{Platform}
use framework_uifw_voice_tts.Daemon.{Daemon, Player, on_store, ask_store, timer_add}
use framework_uifw_voice_tts.Player.{pause}
use framework_uifw_voice_tts.Server.{take_speak_data, start_synthesis, play_internal, engine_start}
use framework_uifw_voice_tts.Server.Client.{network_ready, interrupt_current, schedule_next, play}
use framework_uifw_voice_tts.Invariant.Rules.{Holds, Leads-on_store, state_rules}
use framework_uifw_voice_tts.Invariant.Server.{
  Keeps-set_is_synthesizing, Keeps-get_current_synthesis, Keeps-get_timer_set,
}
use framework_uifw_voice_tts.Outcome.Frame.{OnTables, table_rules, pause-tables, resume-tables}
use framework_uifw_voice_tts.Outcome.Play.{interrupted, interrupted_idle, playing_from-update}

-- `uid` plays and no other client does.
pub record PlaysAlone (uid : ℤ) (s : Store) : Type 0 where
  pub current : get_current_playing s ≡ uid
  pub alone : count_playing s.app_list ≡ 1

taken-PlaysAlone :
    (uid v : ℤ) (out : SpeakData) (s : Store) (o : Option AppData)
    → PlaysAlone uid s
    → PlaysAlone uid (speak_taken v out s o).2
unfolding get_current_playing
taken-PlaysAlone uid v out s none h = h
taken-PlaysAlone uid v out s (some a) h = taken a.m_speak_data
  where
    taken :
        (q : List SpeakData)
        → PlaysAlone uid (speak_taken v out s (some (record a { m_speak_data = q }))).2
    taken [] = h
    taken (d ∷ q) = record {
      current = playing_from-update v drop_speak s.app_list (λ x. refl) (λ x. refl) ∙ h.current;
      alone = count_playing-update v drop_speak s.app_list (λ x. refl) ∙ h.alone;
    }

take_speak_data-PlaysAlone :
    (uid v : ℤ) (s : Store) → PlaysAlone uid s → PlaysAlone uid (take_speak_data v s).1
take_speak_data-PlaysAlone uid v s h =
    rw (get_speak_data_lem v no_speak s) (taken-PlaysAlone uid v no_speak s (find v s.app_list) h)

module _ (p : Platform) where
  open p use {World}

  Keeps-take_speak_alone :
      (uid v : ℤ)
      → Keeps (Holds {World = World} (OnTables (PlaysAlone uid))) (on_store (take_speak_data v))
  Keeps-take_speak_alone uid v =
      Leads-on_store (take_speak_data v)
        (λ s q h. record { on_tables = take_speak_data-PlaysAlone uid v s h.on_tables })

  ruleset play_rules = (
    table_rules, Keeps-take_speak_alone, Keeps-set_is_synthesizing, Keeps-get_current_synthesis,
    Keeps-get_timer_set, resume-tables,
  )

  start_synthesis-alone :
      (uid v : ℤ) → Keeps (Holds (OnTables (PlaysAlone uid))) (start_synthesis p v 1)
  unfolding start_synthesis engine_start
  start_synthesis-alone uid v = search play_rules depth 20

  play_internal-alone :
      (uid v : ℤ) (state : AppState)
      → Keeps (Holds (OnTables (PlaysAlone uid))) (play_internal p v state)
  unfolding play_internal
  play_internal-alone uid v state = search (play_rules, start_synthesis-alone) depth 20

  schedule_next-alone : (uid : ℤ) → Keeps (Holds (OnTables (PlaysAlone uid))) (schedule_next p)
  unfolding schedule_next
  schedule_next-alone uid = search play_rules depth 20

  network_ready-Keeps : {P : Store → Player → Type 0} → Keeps (Holds P) (network_ready p)
  unfolding network_ready
  network_ready-Keeps = search state_rules depth 20

  pause_lem : (uid : ℤ) (d : Daemon World) → (pause p uid d).1.store ≡ d.store
  pause_lem uid d =
      ((pause-tables p {T = λ s. s ≡ d.store} uid).at d
        (record { holds = record { on_tables = refl } })).holds.on_tables

  -- The tables when another playing client has been paused.
  interrupt_current-store :
      (uid : ℤ) (d : Daemon World) → (interrupt_current p uid d).1.store ≡ interrupted uid d.store
  unfolding interrupt_current ask_store on_store timer_add ◌>>=◌ pure
  interrupt_current-store uid d =
      elim (Bool-cases (
        not (uid ==ℤ get_current_playing d.store)
        && not (get_current_playing d.store ==ℤ minus_one))) [
          | inl other ↦ rw other (
              ap (λ s. (set_client_state (get_current_playing d.store) state_paused s).1)
                (pause_lem (get_current_playing d.store) d))
          | inr none_other ↦ rw none_other
        ]

  -- What the request has done to the daemon before the client's own state is set.
  abbrev before_start : ℤ → Daemon World → Daemon World
  before_start uid d = (interrupt_current p uid (network_ready p d).1).1

  before_start-store :
      (uid : ℤ) (d : Daemon World) → (before_start uid d).store ≡ interrupted uid d.store
  before_start-store uid d =
      interrupt_current-store uid (network_ready p d).1
      ∙ ap (interrupted uid)
          ((network_ready-Keeps {P = λ s q. s ≡ d.store}).at d (record { holds = refl })).holds

  abbrev started : ℤ → Daemon World → Daemon World
  started uid d = (on_store (set_client_state uid state_playing) (before_start uid d)).1

  play_lem :
      (uid : ℤ) (d : Daemon World) (a : AppData)
      → find uid d.store.app_list ≡ some a
      → is_playing a.state ≡ false
      → (network_ready p d).0 ≡ true
      → (set_client_state uid state_playing (before_start uid d).store).0 ≡ error_none
      → let (code, e) = play_internal p uid a.state (started uid d) in
        play p uid d ≡ (
          if is_nonzero code
          then (error_operation_failed, e)
          else (error_none, (schedule_next p e).1))
  unfolding play ask_store on_store ◌>>=◌ pure
  play_lem uid d a h off ready accepted =
      rw (get_client_state_lem uid state_created d.store, h)
        (rw off (
          rw ready (
            rw accepted
              (elim (Bool-cases (is_nonzero (play_internal p uid a.state (started uid d)).0)) [
                | inl failed ↦ rw failed
                | inr fine ↦ rw fine
              ]))))

  started-PlaysAlone :
      (uid : ℤ) (d : Daemon World) (a : AppData)
      → IsValid d.store
      → find uid d.store.app_list ≡ some a
      → is_playing a.state ≡ false
      → find minus_one d.store.app_list ≡ none
      → ((set_client_state uid state_playing (before_start uid d).store).0 ≡ error_none)
        × Holds (OnTables (PlaysAlone uid)) (started uid d)
  unfolding on_store
  started-PlaysAlone uid d a v h off free =
      let (idle, at) = interrupted_idle uid d.store a v h off free in
      let (code, current, _, alone) =
        set_playing_accepted uid (interrupted uid d.store) a at idle in
      rw (before_start-store uid d) (
        code,
        record { holds = record { on_tables = record { current = current; alone = alone } } },
      )

  -- A request to play, of a registered client that is not playing yet, in well-formed tables where no
  -- client has the uid -1, and with a network if the engine needs one: afterwards this client is the one
  -- that plays, and the only one. That is so whether the request succeeds or returns
  -- TTSD_ERROR_OPERATION_FAILED, and it returns nothing else.
  pub play_takeover :
      (uid : ℤ) (d : Daemon World) (a : AppData)
      → IsValid d.store
      → find uid d.store.app_list ≡ some a
      → is_playing a.state ≡ false
      → find minus_one d.store.app_list ≡ none
      → (network_ready p d).0 ≡ true
      → let (code, e) = play p uid d in
        ((code ≡ error_none) ⊎ (code ≡ error_operation_failed))
        × (get_current_playing e.store ≡ uid)
        × (count_playing e.store.app_list ≡ 1)
  play_takeover uid d a v h off free ready =
      let (accepted, alone) = started-PlaysAlone uid d a v h off free in
      let kept = (play_internal-alone uid uid a.state).at (started uid d) alone in
      let timed = (schedule_next-alone uid).at _ kept in
      rw (play_lem uid d a h off ready accepted)
        (elim (Bool-cases (is_nonzero (play_internal p uid a.state (started uid d)).0)) [
          | inl failed ↦
              rw failed (inr refl, kept.holds.on_tables.current, kept.holds.on_tables.alone)
          | inr fine ↦
              rw fine (inl refl, timed.holds.on_tables.current, timed.holds.on_tables.alone)
        ])
