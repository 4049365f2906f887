-- ===== src/Data/Examples.antt =====
-- The tables of server/ttsd_data.cpp at concrete inputs: a client that plays and has two texts waiting,
-- and a second one that is ready.
use framework_uifw_voice_tts.Prelude.{
  suc, ◌≤◌, ◌≡◌, refl, Bool, true, not, none, some, List, [], ◌∷◌, arith, ℤ, pos, ltb_ℤ, length,
}
use framework_uifw_voice_tts.Types.{
  AppState, state_playing, SpeakData, AppData, Store, no_speak, error_none, minus_one,
}
use framework_uifw_voice_tts.Data.{
  is_client, new_client, delete_client, get_client_count, get_speak_data, get_speak_data_size,
  get_sound_data_size, clear_data, set_client_state, get_current_playing, is_current_playing,
  is_uttid_valid, new_app,
}
use framework_uifw_voice_tts.Data.Locate.{find}
use framework_uifw_voice_tts.Data.Invariant.{IsValid, count_playing}
use framework_uifw_voice_tts.Data.Playing.{
  set_playing_accepted, set_playing_refused, get_current_playing_exact,
}
use framework_uifw_voice_tts.Data.Queues.{
  SameOthers, add_each, take_each, take_each-add_each, clear_data_empties, clear_data_stops,
}
use framework_uifw_voice_tts.Data.Clients.{new_client_registers, delete_client_unregisters}
use framework_uifw_voice_tts.Data.Foreach.{foreach_clients}
use framework_uifw_voice_tts.Data.Foreach.Bounds.{foreach_clients_returns, foreach_clients_faults}
use framework_uifw_voice_tts.Sample.{say, reader, waiter, two_clients, two_clients-IsValid}
use framework_uifw_voice_tts.Data.Calls.{
  Call, calls_new_client, calls_set_client_state, calls_setting_add, run, empty_store,
  run_empty-IsValid,
}

abbrev one_waiter : Store
one_waiter = record { app_list = waiter ∷ []; setting_list = [] }

abbrev history : List Call
history =
    calls_new_client (pos 41) (pos 7)
    ∷ calls_new_client (pos 42) (pos 7)
    ∷ calls_setting_add (pos 50)
    ∷ calls_set_client_state (pos 7) state_playing
    ∷ []

run_empty-IsValid_example : IsValid (run history empty_store)
run_empty-IsValid_example = run_empty-IsValid history

set_playing_accepted_example :
    let (code, s') = set_client_state (pos 8) state_playing one_waiter in
    (code ≡ error_none)
    × (get_current_playing s' ≡ pos 8)
    × (is_current_playing s' ≡ pos 8)
    × (count_playing s'.app_list ≡ 1)
set_playing_accepted_example = set_playing_accepted (pos 8) one_waiter waiter refl refl

set_playing_refused_example :
    set_client_state (pos 8) state_playing two_clients ≡ (minus_one, two_clients)
set_playing_refused_example = set_playing_refused (pos 8) two_clients waiter refl (omega arith)

get_current_playing_exact_example :
    ((u : ℤ) (a : AppData)
      → find u two_clients.app_list ≡ some a
      → a.state ≡ state_playing
      → get_current_playing two_clients ≡ u)
    × (count_playing two_clients.app_list ≡ 0 → get_current_playing two_clients ≡ minus_one)
get_current_playing_exact_example = get_current_playing_exact two_clients two_clients-IsValid

abbrev queued : List SpeakData
queued = say (pos 1) ∷ say (pos 2) ∷ say (pos 3) ∷ []

take_each-add_each_example :
    let (taken, t) = take_each 3 (pos 7) (add_each (pos 7) (say (pos 3) ∷ []) two_clients) in
    (taken ≡ queued) × (get_speak_data (pos 7) no_speak t ≡ (minus_one, no_speak, t))
take_each-add_each_example =
    take_each-add_each (pos 7) (say (pos 3) ∷ []) two_clients reader no_speak refl

clear_data_empties_example :
    let (code, s') = clear_data (pos 7) two_clients in
    (code ≡ error_none)
    × (get_speak_data_size (pos 7) s' ≡ pos 0)
    × (get_sound_data_size (pos 7) s' ≡ pos 0)
    × SameOthers (pos 7) two_clients s'
    × (s'.setting_list ≡ two_clients.setting_list)
clear_data_empties_example = clear_data_empties (pos 7) two_clients reader refl

clear_data_stops_example :
    is_uttid_valid (pos 7) (pos 1) (clear_data (pos 7) two_clients).1 ≡ not (ltb_ℤ (pos 1) (pos 2))
clear_data_stops_example =
    clear_data_stops (pos 7) (pos 1) two_clients reader (say (pos 1) ∷ []) (say (pos 2)) refl refl
      refl

new_client_registers_example :
    let (code, s') = new_client (pos 43) (pos 9) two_clients in
    (code ≡ error_none)
    × (find (pos 9) s'.app_list ≡ some (new_app (pos 43) (pos 9)))
    × SameOthers (pos 9) two_clients s'
    × (get_client_count s' ≡ suc (get_client_count two_clients))
new_client_registers_example = new_client_registers (pos 43) (pos 9) two_clients refl

delete_client_unregisters_example :
    let (code, s') = delete_client (pos 7) two_clients in
    (code ≡ error_none)
    × (is_client (pos 7) s' ≡ minus_one)
    × SameOthers (pos 7) two_clients s'
    × (suc (get_client_count s') ≡ get_client_count two_clients)
delete_client_unregisters_example =
    delete_client_unregisters (pos 7) two_clients reader two_clients-IsValid refl

-- A callback that only looks, and one that deletes each client it is shown.
abbrev look : ℤ → ℤ → AppState → Store → Bool × Store
look pid uid state s = (true, s)

foreach_clients_returns_example :
    (t : Store) × (foreach_clients Store (λ s. s.app_list) (some look) two_clients
      ≡ some (error_none, t))
foreach_clients_returns_example =
    foreach_clients_returns Store (λ s. s.app_list) look (λ pid uid state s. omega arith)
      two_clients

abbrev drop_first : ℤ → ℤ → AppState → List AppData → Bool × List AppData
drop_first pid uid state [] = (true, [])
drop_first pid uid state (a ∷ l) = (true, l)

drop_first_goes_on :
    (pid uid : ℤ) (state : AppState) (l : List AppData) → (drop_first pid uid state l).0 ≡ true
drop_first_goes_on pid uid state [] = refl
drop_first_goes_on pid uid state (a ∷ l) = refl

drop_first_never_grows :
    (pid uid : ℤ) (state : AppState) (l : List AppData)
    → length (drop_first pid uid state l).1 ≤ length l
drop_first_never_grows pid uid state [] = omega arith
drop_first_never_grows pid uid state (a ∷ l) = omega arith

foreach_clients_faults_example :
    foreach_clients (List AppData) (λ l. l) (some drop_first) (reader ∷ waiter ∷ []) ≡ none
foreach_clients_faults_example =
    foreach_clients_faults (List AppData) (λ l. l) drop_first drop_first_never_grows
      drop_first_goes_on (reader ∷ waiter ∷ []) reader waiter [] refl (omega arith)
