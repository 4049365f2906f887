-- ===== src/Invariant/Rules.antt =====
-- What holds of the daemon's tables and of its player between two steps of the main loop, and the rules
-- that carry it through the calls of which the daemon's functions are made.
use framework_uifw_voice_tts.Prelude.{◌<◌, ◌≡◌, false, ℤ}
use framework_uifw_voice_tts.Types.{Store}
use framework_uifw_voice_tts.Action.{Action, Leads, Keeps, keeps_rules}
use framework_uifw_voice_tts.Data.Invariant.{IsValid}
use framework_uifw_voice_tts.Player.{plays}
use framework_uifw_voice_tts.Player.Sound.{IsSound, count_item}
use framework_uifw_voice_tts.Daemon.{
  Daemon, Player, Timer, outside, on_store, ask_store, on_player, ask_player, timer_add,
}

-- A condition on the tables and the player, which the rest of the daemon's state does not bear on.
pub record Holds {World : Type 0} (P : Store → Player → Type 0) (d : Daemon World) : Type 0 where
  pub holds : P d.store d.player

module _ {World : Type 0} {P : Store → Player → Type 0} where
  pub Keeps-outside : {A : Type 0} (f : World → A × World) → Keeps (Holds P) (outside f)
  unfolding outside
  Keeps-outside f = record { at = λ d h. record { holds = h.holds } }

  pub Keeps-ask_store : {A : Type 0} (f : Store → A) → Keeps (Holds {World = World} P) (ask_store f)
  unfolding ask_store
  Keeps-ask_store f = record { at = λ d h. h }

  pub Keeps-ask_player :
      {A : Type 0} (f : Player → A) → Keeps (Holds {World = World} P) (ask_player f)
  unfolding ask_player
  Keeps-ask_player f = record { at = λ d h. h }

  pub Keeps-timer_add : (t : Timer) → Keeps (Holds {World = World} P) (timer_add t)
  unfolding timer_add
  Keeps-timer_add t = record { at = λ d h. record { holds = h.holds } }

module _ {World : Type 0} {P Q : Store → Player → Type 0} where
  pub Leads-on_store :
      {A : Type 0} (f : Store → A × Store)
      → ((s : Store) (q : Player) → P s q → Q (f s).1 q)
      → Leads (Holds {World = World} P) (Holds Q) (on_store f)
  unfolding on_store
  Leads-on_store f h = record { at = λ d v. record { holds = h d.store d.player v.holds } }

  pub Leads-on_player :
      (f : Player → Player)
      → ((s : Store) (q : Player) → P s q → Q s (f q))
      → Leads (Holds {World = World} P) (Holds Q) (on_player f)
  unfolding on_player
  Leads-on_player f h = record { at = λ d v. record { holds = h d.store d.player v.holds } }

pub ruleset state_rules =
    (keeps_rules, Keeps-outside, Keeps-ask_store, Keeps-ask_player, Keeps-timer_add)

-- The tables and the player are well formed.
pub record IsWell (s : Store) (q : Player) : Type 0 where
  pub tables : IsValid s
  pub players : IsSound q

-- While a function holds a pointer to the player of `uid`, that player is on the list.
pub record HasPlayer (uid : ℤ) (s : Store) (q : Player) : Type 0 where
  pub well : IsWell s q
  pub listed : 0 < count_item uid q.player_list

-- The player of `uid` is not the one that is playing.
pub record NotPlaying (uid : ℤ) (s : Store) (q : Player) : Type 0 where
  pub well : IsWell s q
  pub idle : plays uid q.playing_info ≡ false

-- No player of `uid` is on the list.
pub record NoPlayer (uid : ℤ) (s : Store) (q : Player) : Type 0 where
  pub well : IsWell s q
  pub absent : count_item uid q.player_list ≡ 0
