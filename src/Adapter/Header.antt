-- ===== src/Adapter/Header.antt =====
-- `struct esp_payload_header` of esp-hosted/common/include/adapter.h in memory: 12 packed bytes, little
-- endian, the first of two bit fields in the low bits as the compilers for these chips lay them out;
-- and `compute_checksum` of the same file.
--   0: if_type, if_num   1: flags   2: len   4: offset   6: checksum   8: seq_num
--   10: throttle_cmd, reserved2   11: hci_pkt_type, priv_pkt_type
use rt_thread_esp_hosted.Common.{
  ℕ, zero, suc, ◌+◌, ◌*◌, ◌/◌, ◌%◌, ◌^◌, Option, none, some, List, [], ◌∷◌, load, store, ◌>>=◌,
}

-- `sizeof(struct esp_payload_header)`
abbrev pub header_size : ℕ
header_size = 12

-- `le16toh` of the field at `off`, and its assignment
unfoldable pub load16 : List ℕ → ℕ → Option ℕ
load16 buf off = do lo ← load buf off; hi ← load buf (off + 1); some (lo + hi * 2 ^ 8)

unfoldable pub store16 : List ℕ → ℕ → ℕ → Option (List ℕ)
store16 buf off v = store buf off (v % 256) >>= λ b. store b (off + 1) (v / 256 % 256)

unfoldable pub load_if_type : List ℕ → Option ℕ
load_if_type buf = load buf 0 >>= λ b. some (b % 16)

unfoldable pub load_if_num : List ℕ → Option ℕ
load_if_num buf = load buf 0 >>= λ b. some (b / 16 % 16)

unfoldable pub load_throttle_cmd : List ℕ → Option ℕ
load_throttle_cmd buf = load buf 10 >>= λ b. some (b % 4)

unfoldable pub store_if_type : List ℕ → ℕ → Option (List ℕ)
store_if_type buf v = load buf 0 >>= λ b. store buf 0 (b / 16 % 16 * 16 + v % 16)

unfoldable pub store_if_num : List ℕ → ℕ → Option (List ℕ)
store_if_num buf v = load buf 0 >>= λ b. store buf 0 (v % 16 * 16 + b % 16)

-- The loop over the rounds that are left, on the bytes that are left.
unfoldable pub checksum_loop : List ℕ → ℕ → ℕ → Option ℕ
checksum_loop buf zero checksum = some checksum
checksum_loop [] (suc n) checksum = none
checksum_loop (x ∷ buf) (suc n) checksum = checksum_loop buf n ((checksum + x) % 2 ^ 16)

unfoldable pub compute_checksum : List ℕ → ℕ → Option ℕ
compute_checksum buf len = checksum_loop buf len 0
