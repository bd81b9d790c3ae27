-- ===== src/Transport/Channel/Overrun.antt =====
-- A packet that is too long, in `transport_drv_sta_tx` of
-- esp-hosted/host/drivers/transport/transport_drv.c.
use rt_thread_esp_hosted.Common.{
  ℕ, ◌+◌, ◌≤◌, ◌<◌, ◌≡◌, refl, ◌∙◌, Bool, none, some, List, ◌++◌, arith, length, take, drop,
  replicate, length-replicate, length-append, length-take, length-drop, slice, slice_lem,
  copy_to_past, ◌==◌, not, ne→==, if_false, Buffer,
}
use rt_thread_esp_hosted.Adapter.{esp_sta_if}
use rt_thread_esp_hosted.Port.{Allocator, IsAllocator}
use rt_thread_esp_hosted.Transport.Channel.{
  Net, check_channel, copy_packet, network_tx, transport_drv_sta_tx,
}
use rt_thread_esp_hosted.Transport.Channel.Network.{alloc_packet}

past_block :
    (bytes src : List ℕ)
    → length bytes ≡ 1664
    → 1652 < length src
    → length {A = ℕ} (replicate 1600 0 ++ drop (0 + length {A = ℕ} (replicate 1600 0)) bytes)
      < 12 + length src
past_block bytes src h long =
    let r : length {A = ℕ} (replicate 1600 0) ≡ 1600 = length-replicate {A = ℕ} 1600 0 in
    omega (
      arith,
      r,
      length-append (replicate {A = ℕ} 1600 0) (drop (0 + length {A = ℕ} (replicate 1600 0)) bytes),
      length-drop (0 + length {A = ℕ} (replicate 1600 0)) bytes,
    )

-- The packet is copied before anything looks at its length: one of more than 1652 bytes, with the
-- header more than the 1664 bytes that are allocated, is written past the block's end, where the
-- channel is open and nothing is throttled.
pub sta_tx_overrun :
    (queue_ok : Bool) (malloc : Allocator) (b : Buffer) (h len : ℕ) (buffer : List ℕ) (net : Net)
    → IsAllocator malloc
    → malloc 1664 ≡ some b
    → check_channel esp_sta_if h net ≡ some tt
    → net.spi.wifi_tx_throttling ≡ 0
    → 1652 < len
    → len ≤ length buffer
    → transport_drv_sta_tx queue_ok malloc h (some buffer) len net ≡ none
unfolding transport_drv_sta_tx network_tx copy_packet
sta_tx_overrun queue_ok malloc b h len buffer net a e op free long there =
    let size : length b.bytes ≡ 1664 = a.sized 1664 b e in
    let l : length (take len buffer) ≡ len = length-take len buffer there in
    let src : slice buffer 0 len ≡ some (take len buffer) = slice_lem buffer 0 len (omega arith) in
    if_false _ _ (ne→== len 0 (λ (q : len ≡ 0). absurd (omega arith)))
    ∙ if_false {b = not (net.spi.wifi_tx_throttling == 0)} _ _ (rw free refl)
    ∙ rw
        (
          op,
          alloc_packet malloc b e (omega arith),
          src,
          copy_to_past _ 12 (take len buffer)
              (past_block b.bytes (take len buffer) size (omega arith)),
        )
        refl
