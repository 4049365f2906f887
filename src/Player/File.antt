-- ===== src/Player/File.antt =====
-- The sound files of server/ttsd_player.cpp: their names and, for raw sound, their header.
pub mod Bounds
pub mod Header
use framework_uifw_voice_tts.Prelude.{
  ℕ, zero, suc, ◌+◌, ◌-◌, ◌*◌, ◌/◌, ◌%◌, ◌^◌, ◌≤◌, ◌<◌, ◌≡◌, refl, ◌⊎◌, inl, inr, Bool, true, false,
  ◌||◌, Option, none, some, List, [], ◌∷◌, ◌++◌, arith, ℤ, pos, negsuc, ◌==◌, ltb, length,
  length-append, if◌then◌else◌, Bool-cases, is_negative, not, ◌==ℤ◌,
}
use framework_uifw_voice_tts.Types.{
  AudioType, raw, wav, mp3, amr, unknown, error_none, error_invalid_parameter, minus_one,
}
use framework_uifw_voice_tts.Platform.{WavHeader}

-- `%d` of a number that is not negative. Each round takes a digit off, so `suc n` rounds are enough.
unfoldable pub print_digits : ℕ → ℕ → List ℕ
print_digits zero n = []
print_digits (suc fuel) n =
    let rest = print_digits fuel (n / 10) in
    if ltb n 10 then (b'0' + n) ∷ [] else rest ++ (b'0' + n % 10) ∷ []

unfoldable pub print_int : ℤ → List ℕ
unfolding print_digits
print_int (pos n) = print_digits (suc n) n
print_int (negsuc n) = b'-' ∷ print_digits (suc (suc n)) (suc n)

abbrev pub file_path_size : ℕ
file_path_size = 256

abbrev pub temp_file_max : ℕ
temp_file_max = 36

-- "/tmp/ttstemp"
abbrev pub temp_prefix : List ℕ
temp_prefix = b'/' ∷ b't' ∷ b'm' ∷ b'p' ∷ b'/' ∷ b't' ∷ b't' ∷ b's' ∷ b't' ∷ b'e' ∷ b'm' ∷ b'p' ∷ []

-- The switch on the audio type; `none` is the default, an unknown type.
abbrev pub postfix : AudioType → Option (List ℕ)
postfix raw = some (b'w' ∷ b'a' ∷ b'v' ∷ [])
postfix wav = some (b'w' ∷ b'a' ∷ b'v' ∷ [])
postfix mp3 = some (b'm' ∷ b'p' ∷ b'3' ∷ [])
postfix amr = some (b'a' ∷ b'm' ∷ b'r' ∷ [])
postfix (unknown _) = none

abbrev pub take : ℕ → List ℕ → List ℕ
take zero xs = []
take (suc n) [] = []
take (suc n) (x ∷ xs) = x ∷ take n xs

-- snprintf (temp, FILE_PATH_SIZE, "%s/ttstemp%d_%d.%s", …), which cuts what does not fit.
unfoldable pub file_name : ℤ → ℕ → List ℕ → List ℕ
unfolding print_int
file_name uid index ext =
    take (file_path_size - 1)
      (temp_prefix ++ (print_int uid ++ (b'_' ∷ (print_int (pos index) ++ (b'.' ∷ ext)))))

-- The 32 bits of an `int`, as the number that they are.
abbrev pub bits32 : ℤ → ℕ
bits32 (pos n) = n % 2 ^ 32
bits32 (negsuc n) = 2 ^ 32 - 1 - n % 2 ^ 32

-- The fields that __init_wave_header fills.
abbrev pub wave_header : ℕ → ℤ → ℤ → WavHeader
wave_header nsamples sampling_rate channel = record {
  riff = b'R' ∷ b'I' ∷ b'F' ∷ b'F' ∷ [];
  file_size = (nsamples + 36) % 2 ^ 32;
  wave = b'W' ∷ b'A' ∷ b'V' ∷ b'E' ∷ [];
  fmt = b'f' ∷ b'm' ∷ b't' ∷ b' ' ∷ [];
  header_size = 16;
  sample_format = 1;
  n_channels = bits32 channel % 2 ^ 16;
  sample_rate = bits32 sampling_rate;
  bytes_per_second = bits32 sampling_rate * 2 % 2 ^ 32;
  block_align = 2;
  bits_per_sample = 16;
  data_tag = b'd' ∷ b'a' ∷ b't' ∷ b'a' ∷ [];
  data_size = nsamples % 2 ^ 32;
}

-- __init_wave_header: `none` is the refusal of a size, a rate or a channel count that is not positive.
-- The size and the rate come as `size_t`, which has no negative values.
unfoldable pub init_wave_header : ℕ → ℤ → ℤ → Option WavHeader
init_wave_header nsamples sampling_rate channel =
    if nsamples == 0 || (sampling_rate ==ℤ pos 0) || is_negative channel || (channel ==ℤ pos 0)
    then none
    else some (wave_header nsamples sampling_rate channel)
