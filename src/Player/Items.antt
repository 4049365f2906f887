-- ===== src/Player/Items.antt =====
-- The list of players and the other globals of server/ttsd_player.cpp, without the calls of libmm-player.
use framework_uifw_voice_tts.Prelude.{
  ℕ, ◌+◌, Bool, true, false, Option, none, some, List, [], ◌∷◌, ◌++◌, ℤ, ◌==ℤ◌, leb, if◌then◌else◌,
}
use framework_uifw_voice_tts.Types.{
  event_finish, AudioType, raw, SoundData, Store, no_sound, minus_one,
}
use framework_uifw_voice_tts.Data.{get_sound_data}
use framework_uifw_voice_tts.Platform.{MmState, mm_null, mm_ready, mm_playing, mm_paused}
use framework_uifw_voice_tts.Daemon.{Player, PlayerItem}

-- __player_get_item
unfoldable pub get_item : ℤ → List PlayerItem → Option PlayerItem
get_item uid [] = none
get_item uid (i ∷ l) = if i.uid ==ℤ uid then some i else get_item uid l

-- A write through the pointer that __player_get_item returned.
unfoldable pub write_item : ℤ → (PlayerItem → PlayerItem) → List PlayerItem → List PlayerItem
write_item uid f [] = []
write_item uid f (i ∷ l) = if i.uid ==ℤ uid then f i ∷ l else i ∷ write_item uid f l

-- The loop of ttsd_player_destroy_instance that takes the player off the list.
unfoldable pub remove_item : ℤ → List PlayerItem → List PlayerItem
remove_item uid [] = []
remove_item uid (i ∷ l) = if i.uid ==ℤ uid then l else i ∷ remove_item uid l

-- `NULL != g_playing_info && uid == g_playing_info->uid`
abbrev pub plays : ℤ → Option ℤ → Bool
plays uid none = false
plays uid (some u) = uid ==ℤ u

abbrev pub is_active : MmState → Bool
is_active mm_ready = true
is_active mm_playing = true
is_active mm_paused = true
is_active _ = false

abbrev pub is_null : MmState → Bool
is_null mm_null = true
is_null _ = false

abbrev pub is_mm_playing : MmState → Bool
is_mm_playing mm_playing = true
is_mm_playing _ = false

abbrev pub is_mm_paused : MmState → Bool
is_mm_paused mm_paused = true
is_mm_paused _ = false

abbrev pub set_playing_info : Option ℤ → Player → Player
set_playing_info o p = record p { playing_info = o }

abbrev pub release_playing : ℤ → Player → Player
release_playing uid p = if plays uid p.playing_info then record p { playing_info = none } else p

abbrev pub on_item : ℤ → (PlayerItem → PlayerItem) → Player → Player
on_item uid f p = record p { player_list = write_item uid f p.player_list }

-- `current->utt_id = -1`
unfoldable pub forget_utterance : PlayerItem → PlayerItem
forget_utterance i = record i { utt_id = minus_one }

-- g_index++, back to 1 at 65534.
abbrev pub bump_index : Player → Player
bump_index p = let next = (p.index + 1) in record p { index = if leb 65534 next then 1 else next }

abbrev pub init : Player → Player
init p = record p { playing_info = none; index = 1; player_init = true }

abbrev pub new_item : ℤ → ℕ → PlayerItem
new_item uid handle = record {
  uid = uid;
  player_handle = handle;
  utt_id = minus_one;
  event = event_finish;
}

abbrev pub append_item : PlayerItem → Player → Player
append_item i p = record p { player_list = p.player_list ++ i ∷ [] }

abbrev pub drop_item : ℤ → Player → Player
drop_item uid p = record p { player_list = remove_item uid p.player_list }

abbrev pub is_raw : AudioType → Bool
is_raw raw = true
is_raw _ = false

-- ttsd_data_get_sound_data into the local of __set_and_start.
abbrev pub take_sound_data : ℤ → Store → (ℤ × SoundData) × Store
take_sound_data uid s = let (code, sound, t) = get_sound_data uid no_sound s in ((code, sound), t)
