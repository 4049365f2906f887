-- ===== src/Daemon.antt =====
-- The globals of the daemon in one record: the tables of server/ttsd_data.cpp, the statics of
-- server/ttsd_player.cpp and of server/ttsd_server.cpp, the timers that wait in the main loop, and the
-- state of what is outside.
use framework_uifw_voice_tts.Prelude.{ℕ, Bool, Option, List, [], ◌∷◌, ◌++◌, ℤ}
use framework_uifw_voice_tts.Types.{ResultEvent, Store}
use framework_uifw_voice_tts.Action.{Action}

-- player_s
pub record PlayerItem : Type 0 where
  pub uid : ℤ
  pub player_handle : ℕ
  pub utt_id : ℤ
  pub event : ResultEvent

-- `g_playing_info` points into the list of players and only its uid is read: it is that uid here, and
-- it dangles if no player of the list has it.
pub record Player : Type 0 where
  pub player_init : Bool
  pub player_list : List PlayerItem
  pub playing_info : Option ℤ
  pub index : ℕ

-- What a timer runs when it fires: __send_interrupt_client, __start_next_synthesis and
-- __player_next_play.
pub data Timer : Type 0 where
  interrupt_client : ℤ → Timer
  next_synthesis : Timer
  player_next : ℤ → Timer

pub record Daemon (World : Type 0) : Type 0 where
  pub store : Store
  pub player : Player
  pub is_engine : Bool
  pub is_synthesizing : Bool
  pub is_next_synthesis : Bool
  pub timer_set : Bool
  pub timers : List Timer
  pub world : World

module _ {World : Type 0} where
  -- A call of something outside.
  unfoldable pub outside : {A : Type 0} → (World → A × World) → Action (Daemon World) A
  outside f d = ((f d.world).0, record d { world = (f d.world).1 })

  -- A call of server/ttsd_data.cpp that writes, and one that only reads.
  unfoldable pub on_store : {A : Type 0} → (Store → A × Store) → Action (Daemon World) A
  on_store f d = ((f d.store).0, record d { store = (f d.store).1 })

  unfoldable pub ask_store : {A : Type 0} → (Store → A) → Action (Daemon World) A
  ask_store f d = (f d.store, d)

  unfoldable pub on_player : (Player → Player) → Action (Daemon World) (Unit {0})
  on_player f d = (tt, record d { player = f d.player })

  unfoldable pub ask_player : {A : Type 0} → (Player → A) → Action (Daemon World) A
  ask_player f d = (f d.player, d)

  -- ecore_timer_add (0, …)
  unfoldable pub timer_add : Timer → Action (Daemon World) (Unit {0})
  timer_add t d = (tt, record d { timers = d.timers ++ t ∷ [] })
