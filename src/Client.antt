-- ===== src/Client.antt =====
-- client/tts_client.c, client/tts_client.h: the handles of a process that uses the library. The statics
-- `g_allocated_handle` and `g_client_list` are the record that every function takes and returns, and a
-- `tts_h` is the handle number that it points to, or `none` for NULL. A callback is a number that stands
-- for the function and its user data, or `none` for NULL.
pub mod Uid
pub mod Registry
pub mod Find
pub mod Link
pub mod Api
pub mod Notify
pub mod Listener
pub mod Settled
pub mod Steps
pub mod Machine
pub mod Utterance
mod Examples
use framework_uifw_voice_tts.Prelude.{
  ℕ, zero, suc, ◌+◌, ◌-◌, ◌*◌, ◌%◌, ◌^◌, Bool, true, false, Option, none, some, List, [], ◌∷◌, ◌++◌,
  ℤ, pos, negsuc, ◌==ℤ◌, is_negative, ltb, leb, ◌==◌, length, if◌then◌else◌,
}
use framework_uifw_voice_tts.Types.{minus_one}

-- tts_state_e; `tts_other` is any other value that is cast to it.
pub data TtsState : Type 0 where
  tts_created tts_ready tts_playing tts_paused : TtsState
  tts_other : ℤ → TtsState

-- tts_client_s, with the handle that its `tts` points to.
pub record TtsClient : Type 0 where
  pub handle : ℤ
  pub pid : ℕ
  pub uid : ℤ
  pub current_utt_id : ℤ
  pub before_state : TtsState
  pub current_state : TtsState
  pub cb_ref_count : ℤ
  pub state_changed_cb : Option ℕ
  pub utt_started_cb : Option ℕ
  pub utt_completed_cb : Option ℕ
  pub error_cb : Option ℕ
  pub utt_id : ℤ
  pub reason : ℤ

pub record Handles : Type 0 where
  pub allocated_handle : ℕ
  pub client_list : List TtsClient

abbrev pub max_handle : ℕ
max_handle = 999

-- The 32-bit `int` with the value of a number modulo 2 ^ 32.
abbrev pub to_int : ℕ → ℤ
to_int n = if ltb (n % 2 ^ 32) (2 ^ 31) then pos (n % 2 ^ 32) else negsuc (2 ^ 32 - 1 - n % 2 ^ 32)

-- The number after `g_allocated_handle`, back to 1 behind the last one.
abbrev pub next_handle : ℕ → ℕ
next_handle h = if ltb max_handle (h + 1) then 1 else h + 1

-- __client_generate_uid
unfoldable pub generate_uid : ℕ → Handles → ℤ × Handles
generate_uid pid s =
    let h = next_handle s.allocated_handle in
    (to_int (pid * 1000 + h), record s { allocated_handle = h })

abbrev pub created_client : ℕ → ℤ → TtsClient
created_client pid uid = record {
  handle = uid;
  pid = pid;
  uid = uid;
  current_utt_id = pos 0;
  before_state = tts_created;
  current_state = tts_created;
  cb_ref_count = pos 0;
  state_changed_cb = none;
  utt_started_cb = none;
  utt_completed_cb = none;
  error_cb = none;
  utt_id = pos 0;
  reason = pos 0;
}

-- tts_client_new, in the process `pid`; the handle is the result.
unfoldable pub client_new : ℕ → Handles → ℤ × Handles
client_new pid s =
    let (uid, t) = generate_uid pid s in
    (uid, record t { client_list = t.client_list ++ created_client pid uid ∷ [] })

-- The loops of tts_client_get and tts_client_get_by_uid over the list of clients.
unfoldable pub find_handle : ℤ → List TtsClient → Option TtsClient
find_handle handle [] = none
find_handle handle (c ∷ l) = if handle ==ℤ c.handle then some c else find_handle handle l

unfoldable pub find_uid : ℤ → List TtsClient → Option TtsClient
find_uid uid [] = none
find_uid uid (c ∷ l) = if uid ==ℤ c.uid then some c else find_uid uid l

-- The loop of tts_client_destroy: it waits until no callback uses the client, and no one but a callback
-- ends the wait, so that `none` is a call that does not return.
unfoldable pub destroy_from : ℤ → List TtsClient → Option (ℤ × List TtsClient)
destroy_from handle [] = some (minus_one, [])
destroy_from handle (c ∷ l) =
    let rest = destroy_from handle l in
    if handle ==ℤ c.handle
    then (if c.cb_ref_count ==ℤ pos 0 then some (pos 0, l) else none)
    else elim rest [ none ↦ none | some (code, m) ↦ some (code, c ∷ m) ]

unfoldable pub client_destroy : Option ℤ → Handles → Option (ℤ × Handles)
client_destroy none s = some (pos 0, s)
client_destroy (some handle) s = elim (destroy_from handle s.client_list) [
  | none ↦ none
  | some (code, l) ↦ some (code, record s { client_list = l })
]

unfoldable pub client_get : Option ℤ → Handles → Option TtsClient
client_get none s = none
client_get (some handle) s = find_handle handle s.client_list

unfoldable pub client_get_by_uid : ℤ → Handles → Option TtsClient
client_get_by_uid uid s = if is_negative uid then none else find_uid uid s.client_list

unfoldable pub client_get_size : Handles → ℕ
client_get_size s = length s.client_list

abbrev pub int_suc : ℤ → ℤ
int_suc (pos n) = pos (suc n)
int_suc (negsuc zero) = pos 0
int_suc (negsuc (suc n)) = negsuc n

abbrev pub int_pred : ℤ → ℤ
int_pred (pos zero) = negsuc 0
int_pred (pos (suc n)) = pos n
int_pred (negsuc n) = negsuc (suc n)

-- A write through the pointer that tts_client_get returned for a handle.
abbrev pub change_client : ℤ → (TtsClient → TtsClient) → List TtsClient → List TtsClient
change_client handle f [] = []
change_client handle f (c ∷ l) =
    if handle ==ℤ c.handle then f c ∷ l else c ∷ change_client handle f l

abbrev pub use_once : TtsClient → TtsClient
use_once c = record c { cb_ref_count = int_suc c.cb_ref_count }

abbrev pub release_once : TtsClient → TtsClient
release_once c = record c { cb_ref_count = int_pred c.cb_ref_count }

unfoldable pub client_use_callback : ℤ → Handles → Handles
client_use_callback handle s = record s {
  client_list = change_client handle use_once s.client_list;
}

unfoldable pub client_not_use_callback : ℤ → Handles → Handles
client_not_use_callback handle s = record s {
  client_list = change_client handle release_once s.client_list;
}
