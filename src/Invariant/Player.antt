-- ===== src/Invariant/Player.antt =====
-- The well-formedness of the daemon under the functions of server/ttsd_player.cpp.
use framework_uifw_voice_tts.Prelude.{
  ℕ, refl, inl, inr, Bool, not, none, some, List, ℤ, pos, ◌||◌, ◌==◌, negsuc,
}
use framework_uifw_voice_tts.Types.{Store, no_sound, minus_one}
use framework_uifw_voice_tts.Action.{
  Action, pure, ◌>>=◌, case_option, Leads, Keeps, Leads-bind, Leads-if, Keeps-pure, Keeps-bind,
}
use framework_uifw_voice_tts.Platform.{Platform, MmState, UserData, Method}
use framework_uifw_voice_tts.Daemon.{Daemon, Player, PlayerItem, on_store, on_player, ask_player}
use framework_uifw_voice_tts.Dbus.{send_message}
use framework_uifw_voice_tts.Player.{
  get_item, set_playing_info, release_playing, on_item, forget_utterance, bump_index, init,
  new_item, append_item, resume_found, destroy_found, create_new, take_sound_data, with_item,
  player_init, create_instance, destroy_handle, destroy_instance, write_header, save_file,
  start_handle, set_and_start, play, next_play, unrealize_active, stop, pause, resume,
}
use framework_uifw_voice_tts.Player.Sound.{
  IsSound, get_item-cases, KeepsItemUid, set_none-IsSound, set_some-IsSound, release-IsSound,
  on_item-IsSound, append-IsSound, plays-release, drop-IsSound, bump-IsSound, init-IsSound,
}
use framework_uifw_voice_tts.Data.Invariant.Preserved.{get_sound_data-IsValid}
use framework_uifw_voice_tts.Invariant.Rules.{
  Holds, IsWell, HasPlayer, NotPlaying, NoPlayer, Keeps-ask_player, Keeps-outside, Leads-on_store,
  Leads-on_player, state_rules,
}

module _ (p : Platform) where
  open p use {World}

  -- A change of the player that keeps it sound.
  Keeps-on_player :
      (f : Player → Player)
      → ((q : Player) → IsSound q → IsSound (f q))
      → Keeps (Holds {World = World} IsWell) (on_player f)
  Keeps-on_player f h =
      Leads-on_player f (λ s q v. record { tables = v.tables; players = h q v.players })

  pub Keeps-set_none : Keeps (Holds {World = World} IsWell) (on_player (set_playing_info none))
  Keeps-set_none = Keeps-on_player _ set_none-IsSound

  pub Keeps-release :
      (uid : ℤ) → Keeps (Holds {World = World} IsWell) (on_player (release_playing uid))
  Keeps-release uid = Keeps-on_player _ (release-IsSound uid)

  pub Keeps-on_item :
      (uid : ℤ) (f : PlayerItem → PlayerItem)
      → KeepsItemUid f
      → Keeps (Holds {World = World} IsWell) (on_player (on_item uid f))
  Keeps-on_item uid f k = Keeps-on_player _ (λ q v. on_item-IsSound uid f q k v)

  pub Keeps-bump : Keeps (Holds {World = World} IsWell) (on_player bump_index)
  Keeps-bump = Keeps-on_player _ bump-IsSound

  pub Keeps-init : Keeps (Holds {World = World} IsWell) (on_player init)
  Keeps-init = Keeps-on_player _ init-IsSound

  pub Keeps-take_sound :
      (uid : ℤ) → Keeps (Holds {World = World} IsWell) (on_store (take_sound_data uid))
  Keeps-take_sound uid = Leads-on_store _ (λ s q v. record {
    tables = get_sound_data-IsValid uid no_sound s v.tables;
    players = v.players;
  })

  pub ruleset player_rules =
      (state_rules, Keeps-set_none, Keeps-release, Keeps-bump, Keeps-init, Keeps-take_sound)

  pub send_message-Keeps :
      {P : Store → Player → Type 0} (pid uid payload : ℤ) (method : Method)
      → Keeps (Holds P) (send_message p pid uid payload method)
  unfolding send_message
  send_message-Keeps pid uid payload method = search state_rules

  start_handle-Keeps :
      (handle : ℕ) (name : List ℕ) (u : UserData)
      → Keeps (Holds IsWell) (start_handle p handle name u)
  unfolding start_handle
  start_handle-Keeps handle name u = search state_rules depth 20

  set_and_start-Keeps : (i : PlayerItem) → Keeps (Holds IsWell) (set_and_start p i)
  unfolding set_and_start save_file write_header
  set_and_start-Keeps i = search (player_rules, start_handle-Keeps) depth 20

  unrealize_active-Keeps :
      {P : Store → Player → Type 0} (handle : ℕ) → Keeps (Holds P) (unrealize_active p handle)
  unfolding unrealize_active
  unrealize_active-Keeps handle = search state_rules depth 20

  destroy_handle-Keeps :
      {P : Store → Player → Type 0} (handle : ℕ) (state : MmState)
      → Keeps (Holds P) (destroy_handle p handle state)
  unfolding destroy_handle
  destroy_handle-Keeps handle state = search state_rules depth 20

  ruleset item_rules = (player_rules, set_and_start-Keeps, unrealize_active-Keeps)

  pub player_init-Keeps : (b : Bool) → Keeps (Holds IsWell) (player_init p b)
  unfolding player_init
  player_init-Keeps b = search item_rules depth 20

  pub play-Keeps : (uid : ℤ) → Keeps (Holds IsWell) (play p uid)
  unfolding play
  play-Keeps uid = search item_rules depth 20

  pub next_play-Keeps : (uid : ℤ) → Keeps (Holds IsWell) (next_play p uid)
  unfolding next_play
  next_play-Keeps uid = search item_rules depth 20

  forget_utterance-uid : KeepsItemUid forget_utterance
  unfolding forget_utterance
  forget_utterance-uid i = refl

  Keeps-forget :
      (uid : ℤ) → Keeps (Holds {World = World} IsWell) (on_player (on_item uid forget_utterance))
  Keeps-forget uid = Keeps-on_item uid forget_utterance forget_utterance-uid

  pub stop-Keeps : (uid : ℤ) → Keeps (Holds IsWell) (stop p uid)
  unfolding stop
  stop-Keeps uid = search (item_rules, Keeps-forget) depth 20

  pub pause-Keeps : (uid : ℤ) → Keeps (Holds IsWell) (pause p uid)
  unfolding pause
  pause-Keeps uid = search item_rules depth 20

  -- What a function does with the player that it looked up, which it knows to be on the list.
  pub with_item-Keeps :
      (uid : ℤ) (f : PlayerItem → Action (Daemon World) ℤ)
      → ((i : PlayerItem) → Leads (Holds (HasPlayer uid)) (Holds IsWell) (f i))
      → Keeps (Holds IsWell) (with_item p uid f)
  unfolding ◌>>=◌ ask_player
  with_item-Keeps uid f h = record {
    at = λ d v. elim (get_item-cases uid d.player.player_list) [
      | inl (e, c) ↦ rw e v
      | inr (i, e, c) ↦ rw e ((h i).at d (record { holds = record { well = v.holds; listed = c } }))
    ];
  }

  -- The knowledge is given up where it is of no more use.
  pub HasPlayer-weaken :
      {A : Type 0} (uid : ℤ) (m : Action (Daemon World) A)
      → Keeps (Holds IsWell) m
      → Leads (Holds (HasPlayer uid)) (Holds IsWell) m
  HasPlayer-weaken uid m k = record { at = λ d v. k.at d (record { holds = v.holds.well }) }

  pub Leads-set_some :
      (uid : ℤ)
      → Leads
          (Holds {World = World} (HasPlayer uid))
          (Holds IsWell)
          (on_player (set_playing_info (some uid)))
  Leads-set_some uid = Leads-on_player _ (λ s q v. record {
    tables = v.well.tables;
    players = set_some-IsSound uid q v.listed v.well.players;
  })

  HasPlayer-set_none :
      (uid : ℤ) → Keeps (Holds {World = World} (HasPlayer uid)) (on_player (set_playing_info none))
  HasPlayer-set_none uid = Leads-on_player _ (λ s q v. record {
    well = record { tables = v.well.tables; players = set_none-IsSound q v.well.players };
    listed = v.listed;
  })

  -- A bind whose first part keeps the knowledge.
  pub HasPlayer-bind :
      {A B : Type 0} (uid : ℤ) (m : Action (Daemon World) A) (f : A → Action (Daemon World) B)
      → Keeps (Holds (HasPlayer uid)) m
      → ((a : A) → Leads (Holds (HasPlayer uid)) (Holds IsWell) (f a))
      → Leads (Holds (HasPlayer uid)) (Holds IsWell) (m >>= f)
  HasPlayer-bind uid m f km kf = Leads-bind m f km kf

  -- Where a function that knows of the player returns.
  HasPlayer-pure :
      {A : Type 0} (uid : ℤ) (a : A)
      → Leads (Holds {World = World} (HasPlayer uid)) (Holds IsWell) (pure a)
  HasPlayer-pure uid a = HasPlayer-weaken uid _ (Keeps-pure a)

  resume_found-Leads :
      (uid : ℤ) (i : PlayerItem)
      → Leads (Holds (HasPlayer uid)) (Holds IsWell) (resume_found p uid i)
  unfolding resume_found
  resume_found-Leads uid i = HasPlayer-bind uid _ _ (HasPlayer-set_none uid) λ _.
      HasPlayer-bind uid _ _ (Keeps-outside _) λ state. Leads-if _ _ _ (HasPlayer-pure uid _) (
        HasPlayer-bind uid _ _ (Keeps-outside _) λ resumed.
          Leads-if _ _ _ (HasPlayer-pure uid _)
            (Leads-bind _ _ (Leads-set_some uid) λ _. Keeps-pure _))

  pub resume-Keeps : (uid : ℤ) → Keeps (Holds IsWell) (resume p uid)
  unfolding resume
  resume-Keeps uid = search (player_rules, with_item-Keeps, resume_found-Leads) depth 20

  destroy_found-Keeps : (uid : ℤ) (i : PlayerItem) → Keeps (Holds IsWell) (destroy_found p uid i)
  unfolding destroy_found
  destroy_found-Keeps uid i =
      Leads-bind {R = Holds (NotPlaying uid)} _ _
        (Leads-on_player _ (λ s q v. record {
          well = record { tables = v.tables; players = release-IsSound uid q v.players };
          idle = plays-release uid q;
        }))
        λ _. Leads-bind {R = Holds (NotPlaying uid)} _ _ (Keeps-outside _) λ state.
          Leads-bind {R = Holds (NotPlaying uid)} _ _ (destroy_handle-Keeps i.player_handle state)
            λ _.
              Leads-bind {R = Holds IsWell} _ _
                (Leads-on_player _ (λ s q v. record {
                  tables = v.well.tables;
                  players = drop-IsSound uid q v.idle v.well.players;
                }))
                λ _. Keeps-pure _

  pub destroy_instance-Keeps : (uid : ℤ) → Keeps (Holds IsWell) (destroy_instance p uid)
  unfolding destroy_instance
  destroy_instance-Keeps uid = search (state_rules, destroy_found-Keeps) depth 20

  NoPlayer-pure :
      {A : Type 0} (uid : ℤ) (a : A)
      → Leads (Holds {World = World} (NoPlayer uid)) (Holds IsWell) (pure a)
  unfolding pure
  NoPlayer-pure uid a = record { at = λ d v. record { holds = v.holds.well } }

  Leads-append :
      (uid : ℤ) (handle : ℕ)
      → Leads
          (Holds {World = World} (NoPlayer uid))
          (Holds IsWell)
          (on_player (append_item (new_item uid handle)))
  Leads-append uid handle = Leads-on_player _ (λ s q v. record {
    tables = v.well.tables;
    players = append-IsSound uid handle q v.absent v.well.players;
  })

  create_new-Leads : (uid : ℤ) → Leads (Holds (NoPlayer uid)) (Holds IsWell) (create_new p uid)
  unfolding create_new
  create_new-Leads uid = Leads-bind {R = Holds (NoPlayer uid)} _ _ (Keeps-outside _) λ made.
      Leads-if (not made.0 || made.1 == 0) _ _ (NoPlayer-pure uid (negsuc 1))
        (Leads-bind {R = Holds IsWell} _ _ (Leads-append uid made.1) λ _. Keeps-pure (pos 0))

  -- What a function does where the lookup found no player.
  with_new-Keeps :
      (uid : ℤ) (m : Action (Daemon World) ℤ) (f : PlayerItem → Action (Daemon World) ℤ)
      → Leads (Holds (NoPlayer uid)) (Holds IsWell) m
      → ((i : PlayerItem) → Keeps (Holds IsWell) (f i))
      → Keeps
          (Holds IsWell)
          (do found ← ask_player (λ q. get_item uid q.player_list); case_option found m f)
  unfolding ◌>>=◌ ask_player
  with_new-Keeps uid m f hm hf = record {
    at = λ d v. elim (get_item-cases uid d.player.player_list) [
      | inl (e, c) ↦ rw e (hm.at d (record { holds = record { well = v.holds; absent = c } }))
      | inr (i, e, c) ↦ rw e ((hf i).at d v)
    ];
  }

  pub create_instance-Keeps : (uid : ℤ) → Keeps (Holds IsWell) (create_instance p uid)
  unfolding create_instance
  create_instance-Keeps uid = Keeps-bind _ _ (Keeps-ask_player _) λ up.
      Leads-if (not up) _ _ (Keeps-pure minus_one)
        (with_new-Keeps uid _ _ (create_new-Leads uid) λ i. Keeps-pure minus_one)
