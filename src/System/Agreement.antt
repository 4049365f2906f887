-- ===== src/System/Agreement.antt =====
-- The states that the library and the daemon have of one client.
use framework_uifw_voice_tts.Prelude.{
  ◌≡◌, refl, ap, ◌∙◌, false, inl, inr, some, [], ℤ, pos, Bool-cases, if◌then◌else◌, ==ℤ_refl, ◌≢◌,
  arith, eq_of_==ℤ,
}
use framework_uifw_voice_tts.Types.{
  AppState, state_created, state_ready, state_playing, state_paused, AppData, state_code,
  error_none,
}
use framework_uifw_voice_tts.Action.{pure, ◌>>=◌}
use framework_uifw_voice_tts.Platform.{Platform}
use framework_uifw_voice_tts.Daemon.{Daemon, outside}
use framework_uifw_voice_tts.Data.Locate.{find}
use framework_uifw_voice_tts.Server
use framework_uifw_voice_tts.DbusServer.Reply.{respond}
use framework_uifw_voice_tts.Outcome.Stop.{is_active, stopped, stop_outcome}
use framework_uifw_voice_tts.Client.{
  client_get, TtsState, tts_created, tts_ready, tts_playing, tts_paused, TtsClient, find_handle,
}
use framework_uifw_voice_tts.Client.Link.{
  LibPlatform, Library, ask_handles, on_handles, add_timer, request_stop,
}
use framework_uifw_voice_tts.Client.Api
use framework_uifw_voice_tts.Client.Api.{is_created, has_callback, enter_state}
use framework_uifw_voice_tts.Client.Notify.{state_number, state_of}
use framework_uifw_voice_tts.Client.Machine.{States, set_state, states_of}
use framework_uifw_voice_tts.Client.Machine.Refines.{enter_state_observed}
use framework_uifw_voice_tts.System.{Application, linked}
use framework_uifw_voice_tts.System.Delivered.{answered_with, request-delivered}

-- The state of the library that stands for a state of the daemon.
abbrev pub library_state : AppState → TtsState
library_state state_created = tts_created
library_state state_ready = tts_ready
library_state state_playing = tts_playing
library_state state_paused = tts_paused

-- A state goes over the bus as a number and back. The library reads the daemon's states as its own of the
-- same names, and a number that is none of them stays that number.
pub state_of-state_number :
    (s : AppState) (n : ℤ)
    → (state_of (state_code s) ≡ library_state s) × (state_number (state_of n) ≡ n)
unfolding state_of
state_of-state_number s n = (named s, numbered n)
  where
    named : (s : AppState) → state_of (state_code s) ≡ library_state s
    named state_created = refl
    named state_ready = refl
    named state_playing = refl
    named state_paused = refl

    numbered : (n : ℤ) → state_number (state_of n) ≡ n
    numbered n = grind (arith, eq_of_==ℤ)

stopped_ready :
    (s : AppState) → s ≢ state_created → (if is_active s then state_ready else s) ≡ state_ready
stopped_ready state_created live = absurd (live refl)
stopped_ready state_ready live = refl
stopped_ready state_playing live = refl
stopped_ready state_paused live = refl

stopped_silent : (a : AppData) → (stopped a).m_speak_data ≡ []
stopped_silent a = ground arith

set_state_self : (h : ℤ) (s : States) → set_state h tts_ready s h ≡ some tts_ready
set_state_self h s = rw (==ℤ_refl h) refl

module _ (p : LibPlatform) where
  open p use {World}

  -- tts_stop where the daemon agrees.
  stop_proceeds :
      (h : ℤ) (c : TtsClient) (d : Library World)
      → find_handle h d.handles.client_list ≡ some c
      → is_created c.current_state ≡ false
      → (request_stop p c.uid d).0 ≡ error_none
      → Api.stop p (some h) d ≡ enter_state p h c tts_ready (request_stop p c.uid d).1
  unfolding Api.stop ask_handles client_get pure ◌>>=◌
  stop_proceeds h c d here prepared agreed = rw here (rw prepared (rw agreed refl))

  enter_state-world :
      (h : ℤ) (c : TtsClient) (state : TtsState) (d : Library World)
      → (enter_state p h c state d).1.world ≡ d.world
  unfolding enter_state on_handles add_timer pure ◌>>=◌
  enter_state-world h c state d = elim (Bool-cases (has_callback c.state_changed_cb)) [
    | inl callback ↦ rw callback refl
    | inr silent ↦ rw silent refl
  ]

module _ (p : Platform) (q : Application) where
  -- A request to stop, on a bus that delivers: for a handle that is prepared, whose client the daemon knows
  -- and does not hold for merely created, tts_stop succeeds, and then both sides say that it is ready, the
  -- library of the handle and the daemon of the client, which has no text left. That a handle is ready
  -- before is enough, though the header asks for one that plays or is paused.
  pub stop_agrees :
      (h : ℤ) (c : TtsClient) (a : AppData) (d : Library (Daemon p.World × q.State))
      → find_handle h d.handles.client_list ≡ some c
      → is_created c.current_state ≡ false
      → find c.uid d.world.0.store.app_list ≡ some a
      → a.state ≢ state_created
      → let (code, e) = Api.stop (linked p q) (some h) d in
        (code ≡ error_none)
        × (states_of e h ≡ some tts_ready)
        × (b : AppData) × (find c.uid e.world.0.store.app_list ≡ some b)
        × (b.state ≡ state_ready)
        × (b.m_speak_data ≡ [])
  unfolding respond outside pure ◌>>=◌
  stop_agrees h c a d here prepared known live =
      let outcome = stop_outcome p c.uid d.world.0 a known in
      let delivered = (request-delivered p q c.uid "" "" (pos 0) (pos 0) (pos 0) d).3 in
      let left = (answered_with p q (Server.stop p c.uid) d).1 in
      let whole =
        stop_proceeds (linked p q) h c d here prepared (ap (λ x. x.0) delivered ∙ outcome.0)
        ∙ ap (λ r. enter_state (linked p q) h c tts_ready r.1) delivered in
      let entered = enter_state_observed (linked p q) h c tts_ready left here in
      (
        ap (λ r. r.0) whole ∙ ap (λ o. o.0) entered,
        ap (λ r. states_of r.1 h) whole
            ∙ ap (λ o. o.1 h) entered
            ∙ set_state_self h (states_of left),
        stopped a,
        ap (λ r. find c.uid r.1.world.0.store.app_list) whole
            ∙ ap (λ w. find c.uid w.0.store.app_list)
                (enter_state-world (linked p q) h c tts_ready left)
            ∙ outcome.1,
        stopped_ready a.state live,
        stopped_silent a,
      )
