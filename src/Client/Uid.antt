-- ===== src/Client/Uid.antt =====
-- The uids of client/tts_client.c as a pair of a process and a handle number.
use framework_uifw_voice_tts.Prelude.{ℕ, ◌+◌, ◌*◌, ◌≤◌, ◌<◌, ◌≡◌, ap, ◌∙◌, sym, ℤ, pos, arith}
use framework_uifw_voice_tts.Client.{Handles, to_int, next_handle, generate_uid}

abbrev pub pos_of : ℤ → ℕ
pos_of (pos n) = n
pos_of _ = 0

to_int_small : (n : ℕ) → n < 2147483648 → to_int n ≡ pos n
to_int_small n h = ground (arith, h)

next_handle-range : (h : ℕ) → (1 ≤ next_handle h) × (next_handle h ≤ 999)
next_handle-range h = ground arith

-- For a pid below 2147483 the uid is the pid and, in its last three digits, a handle number from 1 to
-- 999, which is the one that was allocated.
pub generate_uid_digits :
    (pid : ℕ) (s : Handles)
    → pid < 2147483
    → let (uid, t) = generate_uid pid s in
      (uid ≡ pos (pid * 1000 + t.allocated_handle))
      × (1 ≤ t.allocated_handle)
      × (t.allocated_handle ≤ 999)
unfolding generate_uid
generate_uid_digits pid s small =
    let (low, high) = next_handle-range s.allocated_handle in
    (
      to_int_small (pid * 1000 + next_handle s.allocated_handle) (omega (arith, low, high, small)),
      low,
      high,
    )

-- Two processes with pids below 2147483 never make the same uid, whatever handles they have allocated;
-- and within one process two equal uids come from the same handle number.
pub generate_uid-injective :
    (p q : ℕ) (s t : Handles)
    → p < 2147483
    → q < 2147483
    → (generate_uid p s).0 ≡ (generate_uid q t).0
    → (p ≡ q) × ((generate_uid p s).1.allocated_handle ≡ (generate_uid q t).1.allocated_handle)
generate_uid-injective p q s t small_p small_q same =
    let (a, a_low, a_high) = generate_uid_digits p s small_p in
    let (b, b_low, b_high) = generate_uid_digits q t small_q in
    let e = ap pos_of (sym a ∙ same ∙ b) in
    (omega (arith, e, a_low, a_high, b_low, b_high), omega (arith, e, a_low, a_high, b_low, b_high))
