-- ===== src/Slave/Spi/Frame.antt =====
-- The frame that `esp_spi_write` of the slave builds.
use rt_thread_esp_hosted.Common.{
  ℕ, ◌+◌, ◌-◌, ◌*◌, ◌/◌, ◌%◌, ◌^◌, ◌≤◌, ◌<◌, ◌≡◌, ap, ◌∙◌, some, List, [], ◌∷◌, ◌++◌, arith, length,
  take, drop, slice, slice_lem, copy_to, copy_to_lem, replicate, length-take, length-drop,
  length-append,
}
use rt_thread_esp_hosted.Adapter.Header.{compute_checksum, store16, store_if_type, store_if_num}
use rt_thread_esp_hosted.Spi.Frame.{body, compute_checksum-some}
use rt_thread_esp_hosted.Slave.Spi.{SlaveHandle, write_frame, store_throttle_cmd}

-- The header, with its flow control bits and its checksum.
abbrev pub slave_header : SlaveHandle → ℕ → ℕ → List ℕ
slave_header h throttling checksum =
    (h.if_num % 16 * 16 + h.if_type % 16)
    ∷ h.flag
    ∷ h.payload_len % 256
    ∷ (h.payload_len / 256 % 256)
    ∷ 12
    ∷ 0
    ∷ checksum % 256
    ∷ (checksum / 256 % 256)
    ∷ h.seq_num % 256
    ∷ (h.seq_num / 256 % 256)
    ∷ throttling % 4
    ∷ 0
    ∷ []

clear_header :
    (b : List ℕ)
    → 12 ≤ length b
    → copy_to b 0 (replicate 12 0)
      ≡ some (0 ∷ 0 ∷ 0 ∷ 0 ∷ 0 ∷ 0 ∷ 0 ∷ 0 ∷ 0 ∷ 0 ∷ 0 ∷ 0 ∷ drop 12 b)
clear_header b h = copy_to_lem b 0 (replicate 12 0) (omega arith)

pub write_frame_lem :
    (h : SlaveHandle) (throttling : ℕ) (src b : List ℕ)
    → h.payload_len ≤ 1588
    → h.payload_len ≤ length src
    → 1600 ≤ length b
    → (c : ℕ) × (write_frame h throttling src b
        ≡ some (slave_header h throttling c ++ body src h.payload_len (drop 12 b)))
      × (compute_checksum
            (slave_header h throttling 0 ++ body src h.payload_len (drop 12 b))
            (12 + h.payload_len)
          ≡ some c)
      × (c < 2 ^ 16)
unfolding write_frame store16 store_if_type store_if_num store_throttle_cmd
write_frame_lem h throttling src b small long room =
    let n = h.payload_len in
    let rest = drop 12 b in
    let first : 0 / 16 % 16 * 16 + h.if_type % 16 ≡ h.if_type % 16 = omega arith in
    let low : h.if_type % 16 % 16 ≡ h.if_type % 16 = omega arith in
    let bits : 0 / 4 * 4 + throttling % 4 ≡ throttling % 4 = omega arith in
    let clear = clear_header b (omega arith) in
    let space : length rest ≡ length b - 12 = length-drop 12 b in
    let copied : slice src 0 n ≡ some (take n src) = slice_lem src 0 n (omega arith) in
    let l : length (take n src) ≡ n = length-take n src long in
    let dst : copy_to rest 0 (take n src) ≡ some (body src n rest) =
      copy_to_lem rest 0 (take n src) (omega arith)
      ∙ ap (λ k. some (take n src ++ drop k rest)) (omega arith) in
    let (c, e, lt) =
      compute_checksum-some (slave_header h throttling 0 ++ body src n rest) (12 + n)
        (omega (arith, length-append (take n src) (drop n rest))) in
    let whole : (12 + n) % 2 ^ 16 ≡ 12 + n = omega arith in
    (c, rw (clear, first, low, bits, copied, dst, whole, e), e, lt)
