-- ===== src/Player/File/Header.antt =====
-- The wave header of __init_wave_header (server/ttsd_player.cpp) against what the fields of one mean.
use framework_uifw_voice_tts.Prelude.{ℕ, ◌+◌, ◌*◌, ◌/◌, ◌<◌, ◌≡◌, some, pos, arith}
use framework_uifw_voice_tts.Platform.{WavHeader}
use framework_uifw_voice_tts.Player.File.{wave_header, init_wave_header}

-- For a size, a rate and a channel count that are positive and in the range of their fields, there is a
-- header; its file size is the data size and 36 more, and its bytes per second are its sample rate times
-- its block size. Its block size is that of its number of channels at 16 bits exactly if there is one
-- channel.
pub init_wave_header_mono :
    (size rate channels : ℕ)
    → 0 < size
    → size < 4294967260
    → 0 < rate
    → rate < 2147483648
    → 0 < channels
    → channels < 65536
    → (h : WavHeader) × (init_wave_header size (pos rate) (pos channels) ≡ some h)
      × (h.file_size ≡ h.data_size + 36)
      × (h.bytes_per_second ≡ h.sample_rate * h.block_align)
      × (h.block_align ≡ h.n_channels * (h.bits_per_sample / 8) → channels ≡ 1)
      × (channels ≡ 1 → h.block_align ≡ h.n_channels * (h.bits_per_sample / 8))
unfolding init_wave_header
init_wave_header_mono size rate channels s s' r r' c c' = (
  wave_header size (pos rate) (pos channels),
  ground (arith, s, r, c),
  omega arith,
  omega arith,
  λ e. omega (arith, e),
  λ e. omega (arith, e),
)
