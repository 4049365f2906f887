-- ===== src/Player/File/Bounds.antt =====
-- The length of the names of sound files, against the buffers that server/ttsd_player.cpp copies them to.
use framework_uifw_voice_tts.Prelude.{
  ℕ, zero, suc, ◌+◌, ◌*◌, ◌/◌, ◌%◌, ◌≤◌, ◌<◌, ◌≡◌, refl, ap, ◌∙◌, inl, inr, List, [], ◌∷◌, ◌++◌,
  arith, ℤ, pos, negsuc, ltb, length, length-append, Bool-cases,
}
use framework_uifw_voice_tts.Player.File.{
  print_digits, print_int, temp_file_max, temp_prefix, take, file_name,
}

abbrev ten_to : ℕ → ℕ
ten_to zero = 1
ten_to (suc k) = 10 * ten_to k

-- A number below 10 ^ k has k digits at most.
length-print_digits : (fuel k n : ℕ) → n < ten_to (suc k) → length (print_digits fuel n) ≤ suc k
unfolding print_digits
length-print_digits zero k n h = omega arith
length-print_digits (suc fuel) zero n h = elim (Bool-cases (ltb n 10)) [
  | inl small ↦ rw small (omega arith)
  | inr large ↦ absurd (ground (arith, h, large))
]
length-print_digits (suc fuel) (suc k) n h = elim (Bool-cases (ltb n 10)) [
  | inl small ↦ rw small (omega arith)
  | inr large ↦ rw large (
      omega (
        arith,
        length-append (print_digits fuel (n / 10)) ((b'0' + n % 10) ∷ []),
        length-print_digits fuel k (n / 10) (omega (arith, h)),
      ))
]

-- The range of a 32-bit `int`.
abbrev pub IsInt : ℤ → Type 0
IsInt (pos n) = n < 2147483648
IsInt (negsuc n) = n < 2147483648

length-print_int : (i : ℤ) → IsInt i → length (print_int i) ≤ 11
unfolding print_int
length-print_int (pos n) h = omega (arith, length-print_digits (suc n) 9 n (omega (arith, h)))
length-print_int (negsuc n) h =
    omega (arith, length-print_digits (suc (suc n)) 9 (suc n) (omega (arith, h)))

length-print_index : (n : ℕ) → n < 65534 → length (print_int (pos n)) ≤ 5
unfolding print_int
length-print_index n h = length-print_digits (suc n) 4 n (omega (arith, h))

take_all : (n : ℕ) (xs : List ℕ) → length xs ≤ n → take n xs ≡ xs
take_all zero [] h = refl
take_all zero (x ∷ xs) h = absurd (omega (arith, h))
take_all (suc n) [] h = refl
take_all (suc n) (x ∷ xs) h = ap (λ l. x ∷ l) (take_all n xs (omega (arith, h)))

-- The text that the format stands for.
abbrev pub whole_name : ℤ → ℕ → List ℕ → List ℕ
whole_name uid index ext =
    temp_prefix ++ (print_int uid ++ (b'_' ∷ (print_int (pos index) ++ (b'.' ∷ ext))))

file_name_lem :
    (uid : ℤ) (index : ℕ) (ext : List ℕ)
    → file_name uid index ext ≡ take 255 (whole_name uid index ext)
unfolding file_name
file_name_lem uid index ext = refl

length-whole_name :
    (uid : ℤ) (index : ℕ) (ext : List ℕ)
    → IsInt uid
    → index < 65534
    → length ext ≡ 3
    → length (whole_name uid index ext) ≤ 33
length-whole_name uid index ext int small three = omega (
  arith,
  length-append (print_int uid) (b'_' ∷ (print_int (pos index) ++ (b'.' ∷ ext))),
  length-append (print_int (pos index)) (b'.' ∷ ext),
  length-print_int uid int,
  length-print_index index small,
  three,
)

-- For a uid in the range of `int`, an index below 65534 and a postfix of three characters, the name of a
-- sound file is not cut by snprintf, and with its terminating zero it fits in the TEMP_FILE_MAX bytes of
-- the user data.
pub file_name_fits :
    (uid : ℤ) (index : ℕ) (ext : List ℕ)
    → IsInt uid
    → index < 65534
    → length ext ≡ 3
    → (file_name uid index ext ≡ whole_name uid index ext)
      × (suc (length (file_name uid index ext)) ≤ temp_file_max)
file_name_fits uid index ext int small three =
    let short = length-whole_name uid index ext int small three in
    let uncut =
      file_name_lem uid index ext
      ∙ take_all 255 (whole_name uid index ext) (omega (arith, short)) in
    (uncut, omega (arith, short, ap length uncut))
