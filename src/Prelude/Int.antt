-- ===== src/Prelude/Int.antt =====
-- C's `int`: values that the program stores, compares and passes on, with -1 and the negative error
-- codes among them. Sums that could wrap are written out where the program makes them.
use Prim.Native.Nat.{ℕ}
use mathlib.Core.Path.{◌≡◌}
use mathlib.Core.Bool.{Bool, true, false, not}
use native.Mathlib.Omega.{arith}
use framework_uifw_voice_tts.Prelude.Tests.{ltb, ◌==◌}

-- `negsuc n` is -(n + 1).
pub data ℤ : Type 0 where
  pos : ℕ → ℤ
  negsuc : ℕ → ℤ

infix 50 ◌==ℤ◌ ◌<ℤ◌
abbrev pub ◌==ℤ◌ : ℤ → ℤ → Bool
pos a ==ℤ pos b = a == b
negsuc a ==ℤ negsuc b = a == b
_ ==ℤ _ = false

abbrev pub ltb_ℤ : ℤ → ℤ → Bool
ltb_ℤ (pos a) (pos b) = ltb a b
ltb_ℤ (pos a) (negsuc b) = false
ltb_ℤ (negsuc a) (pos b) = true
ltb_ℤ (negsuc a) (negsuc b) = ltb b a

abbrev pub ◌<ℤ◌ : ℤ → ℤ → Type 0
a <ℤ b = ltb_ℤ a b ≡ true

-- `0 != r` and `r < 0`, the tests on a result code.
abbrev pub is_nonzero : ℤ → Bool
is_nonzero r = not (r ==ℤ pos 0)

abbrev pub is_negative : ℤ → Bool
is_negative (pos n) = false
is_negative (negsuc n) = true

pub ==ℤ_refl : (a : ℤ) → (a ==ℤ a) ≡ true
==ℤ_refl (pos n) = ground arith
==ℤ_refl (negsuc n) = ground arith

pub eq_of_==ℤ : (a b : ℤ) → (a ==ℤ b) ≡ true → a ≡ b
eq_of_==ℤ (pos a) (pos b) h = ground arith
eq_of_==ℤ (negsuc a) (negsuc b) h = ground arith
eq_of_==ℤ (pos a) (negsuc b) h = ground arith
eq_of_==ℤ (negsuc a) (pos b) h = ground arith

pub ==ℤ_of_eq : (a b : ℤ) → a ≡ b → (a ==ℤ b) ≡ true
==ℤ_of_eq a b h = rw h (==ℤ_refl b)
