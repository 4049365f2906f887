-- ===== src/Outcome/Frame.antt =====
-- What only reads or writes the player, seen from the tables: functions of server/ttsd_player.cpp.
use framework_uifw_voice_tts.Prelude.{◌≡◌, Bool, ℤ}
use framework_uifw_voice_tts.Types.{Store}
use framework_uifw_voice_tts.Action.{Keeps, keeps_rules}
use framework_uifw_voice_tts.Platform.{Platform}
use framework_uifw_voice_tts.Daemon.{Daemon, Player, on_player, ask_player, outside}
use framework_uifw_voice_tts.Player.{unrealize_active, resume_found, stop, pause, resume}
use framework_uifw_voice_tts.Invariant.Rules.{Holds, Leads-on_player, state_rules}

-- A condition that reads the tables only.
pub record OnTables (T : Store → Type 0) (s : Store) (q : Player) : Type 0 where
  pub on_tables : T s

module _ (p : Platform) {T : Store → Type 0} where
  open p use {World}

  pub Keeps-on_player_tables :
      (f : Player → Player) → Keeps (Holds {World = World} (OnTables T)) (on_player f)
  Keeps-on_player_tables f = Leads-on_player f (λ s q h. record { on_tables = h.on_tables })

pub ruleset table_rules = (state_rules, Keeps-on_player_tables)

module _ (p : Platform) {T : Store → Type 0} where
  pub stop-tables : (uid : ℤ) → Keeps (Holds (OnTables T)) (stop p uid)
  unfolding stop unrealize_active
  stop-tables uid = search table_rules depth 20

  pub pause-tables : (uid : ℤ) → Keeps (Holds (OnTables T)) (pause p uid)
  unfolding pause
  pause-tables uid = search table_rules depth 20

  pub resume-tables : (uid : ℤ) → Keeps (Holds (OnTables T)) (resume p uid)
  unfolding resume resume_found
  resume-tables uid = search table_rules depth 20

-- Whether the daemon takes the engine for busy.
pub record BusyIs {World : Type 0} (busy : Bool) (d : Daemon World) : Type 0 where
  pub busy_is : d.is_synthesizing ≡ busy

module _ {World : Type 0} {busy : Bool} where
  Keeps-outside_busy : {A : Type 0} (f : World → A × World) → Keeps (BusyIs busy) (outside f)
  unfolding outside
  Keeps-outside_busy f = record { at = λ d h. record { busy_is = h.busy_is } }

  Keeps-ask_player_busy :
      {A : Type 0} (f : Player → A) → Keeps (BusyIs {World = World} busy) (ask_player f)
  unfolding ask_player
  Keeps-ask_player_busy f = record { at = λ d h. h }

  Keeps-on_player_busy : (f : Player → Player) → Keeps (BusyIs {World = World} busy) (on_player f)
  unfolding on_player
  Keeps-on_player_busy f = record { at = λ d h. record { busy_is = h.busy_is } }

ruleset busy_rules = (keeps_rules, Keeps-outside_busy, Keeps-ask_player_busy, Keeps-on_player_busy)

module _ (p : Platform) {busy : Bool} where
  pub stop-busy : (uid : ℤ) → Keeps (BusyIs busy) (stop p uid)
  unfolding stop unrealize_active
  stop-busy uid = search busy_rules depth 20
