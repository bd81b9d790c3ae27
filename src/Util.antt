-- ===== src/Util.antt =====
-- Utilities of the host, esp-hosted/host/utils: addresses in text form and the comparison of
-- buffers of util.c, and the byte order of common.c on a little-endian processor.
pub mod Ipv4
pub mod Compare
use rt_thread_esp_hosted.Common.{ℕ, ◌+◌, ◌*◌, ◌/◌, ◌%◌, ◌^◌}

-- `hton_long`; `ntoh_long` is a macro for it.
unfoldable pub hton_long : ℕ → ℕ
hton_long x =
    x / 2 ^ 24 % 256 + x / 2 ^ 16 % 256 * 2 ^ 8 + x / 2 ^ 8 % 256 * 2 ^ 16 + x % 256 * 2 ^ 24
