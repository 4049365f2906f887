-- ===== src/Client/Examples.antt =====
-- Handles of a process at concrete inputs.
use framework_uifw_voice_tts.Prelude.{ℕ, suc, ◌+◌, ◌*◌, ◌≤◌, ◌≡◌, refl, some, [], ◌∷◌, pos, arith}
use framework_uifw_voice_tts.Client.{
  TtsClient, Handles, generate_uid, created_client, client_new, find_handle, client_destroy,
  client_get, client_get_size,
}
use framework_uifw_voice_tts.Client.Uid.{generate_uid_digits, generate_uid-injective}
use framework_uifw_voice_tts.Client.Registry.{client_destroy-new, client_new_collides}

abbrev process : ℕ
process = 41

abbrev first : TtsClient
first = created_client 41 (pos 41001)

abbrev one_handle : Handles
one_handle = record { allocated_handle = 1; client_list = first ∷ [] }

-- All handle numbers have been given out once, and the first is still in use.
abbrev wrapped : Handles
wrapped = record { allocated_handle = 999; client_list = first ∷ [] }

generate_uid_digits_example :
    let (uid, t) = generate_uid 41 wrapped in
    (uid ≡ pos (41 * 1000 + t.allocated_handle))
    × (1 ≤ t.allocated_handle)
    × (t.allocated_handle ≤ 999)
generate_uid_digits_example = generate_uid_digits 41 wrapped (omega arith)

generate_uid-injective_example :
    (process ≡ process)
    × ((generate_uid process one_handle).1.allocated_handle
        ≡ (generate_uid process one_handle).1.allocated_handle)
generate_uid-injective_example =
    generate_uid-injective process process one_handle one_handle (omega arith) (omega arith) refl

client_destroy-new_example :
    let (h, t) = client_new 41 one_handle in
    (client_get (some h) t ≡ some (created_client 41 h))
    × (client_get_size t ≡ suc (client_get_size one_handle))
    × (client_destroy (some h) t ≡ some (pos 0, (generate_uid 41 one_handle).1))
client_destroy-new_example =
    client_destroy-new 41 one_handle (unfold find_handle generate_uid in refl)

client_new_collides_example :
    let (h, t) = client_new 41 wrapped in
    (h ≡ (generate_uid 41 wrapped).0) × (client_get (some h) t ≡ some first)
client_new_collides_example =
    client_new_collides 41 wrapped first (unfold find_handle generate_uid in refl)
