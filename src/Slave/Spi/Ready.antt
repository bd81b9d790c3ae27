-- ===== src/Slave/Spi/Ready.antt =====
-- The line of data ready of the slave when a write comes between the two halves of
-- `get_next_tx_buffer`, which the tasks of the kernel allow.
use rt_thread_esp_hosted.Common.{
  ℕ, suc, ◌+◌, ◌*◌, ◌/◌, ◌%◌, ◌≤◌, ◌≡◌, refl, ◌∙◌, ap, true, false, none, some, List, ◌∷◌, arith,
  length, replicate, Buffer, Ensures, eq→==, if_true, if-holds, ◌==◌, ◌++◌, drop,
}
use rt_thread_esp_hosted.Adapter.Header.{store16, store_if_type, store_if_num}
use rt_thread_esp_hosted.Spi.Frame.{body}
use rt_thread_esp_hosted.Slave.Spi.{
  SlaveSpi, SlaveHandle, Throttle, esp_spi_write, queue_tx, find_wifi_tx_throttling, take_tx_buffer,
  dummy_tx_buffer, dummy_frame, store_throttle_cmd,
}
use rt_thread_esp_hosted.Slave.Spi.Frame.{slave_header, write_frame_lem}
use rt_thread_esp_hosted.Slave.Spi.Exchange.{IsSlavePacket, write_lem}

zeros :
    (n : ℕ)
    → replicate {A = ℕ} (suc (suc (suc (suc (suc (suc (suc (suc (suc (suc (suc (suc n)))))))))))) 0
      ≡ 0 ∷ 0 ∷ 0 ∷ 0 ∷ 0 ∷ 0 ∷ 0 ∷ 0 ∷ 0 ∷ 0 ∷ 0 ∷ 0 ∷ replicate n 0
zeros n = refl

-- In a zeroed buffer the header is a byte of the type and the number, and one of the flow control.
abbrev pub dummy_bytes : ℕ → List ℕ
dummy_bytes t = 248 ∷ 0 ∷ 0 ∷ 0 ∷ 0 ∷ 0 ∷ 0 ∷ 0 ∷ 0 ∷ 0 ∷ (0 / 4 * 4 + t % 4) ∷ 0 ∷ replicate 1588 0

dummy_frame_lem : (t : ℕ) → dummy_frame t (replicate 1600 0) ≡ some (dummy_bytes t)
unfolding dummy_frame store16 store_if_type store_if_num store_throttle_cmd
dummy_frame_lem t = ap (dummy_frame t) (zeros 1588)

pub dummy_tx_buffer_lem :
    (config : Throttle) (block : ℕ) (s : SlaveSpi)
    → let t = find_wifi_tx_throttling config (record s { data_ready = false }) in
      dummy_tx_buffer config (some (record { ident = block; bytes = replicate 1600 0 })) s
      ≡ some (some (record { ident = block; bytes = dummy_bytes t.0 }), t.1)
unfolding dummy_tx_buffer
dummy_tx_buffer_lem config block s =
    rw (dummy_frame_lem (find_wifi_tx_throttling config (record s { data_ready = false })).0) refl

-- All but the state of the flow control is as in `s`.
abbrev pub Alike : SlaveSpi → ℕ × SlaveSpi → Type 0
Alike s r =
    (r.1.spi_tx_sem ≡ s.spi_tx_sem)
    × (r.1.spi_tx_queue ≡ s.spi_tx_queue)
    × (r.1.data_ready ≡ s.data_ready)
    × (r.1.queued ≡ s.queued)
    × (r.1.heap ≡ s.heap)
    × (r.1.spi_rx_sem ≡ s.spi_rx_sem)

pub find_throttling-Alike :
    (config : Throttle) (s : SlaveSpi) → Alike s (find_wifi_tx_throttling config s)
unfolding find_wifi_tx_throttling
find_throttling-Alike config s =
    if-holds (Alike s) (config.throttle_high_threshold == 0) _ _
      (refl, refl, refl, refl, refl, refl) (refl, refl, refl, refl, refl, refl)

-- No packet waits to be sent, and a write of the packet `h` of at most 1588 bytes comes when
-- `get_next_tx_buffer` has found the queues empty and has not yet lowered the line of data ready:
-- the write queues the packet and raises the line, and in the end the packet is still queued, its
-- semaphore is 1 and the line is down.
pub lost_ready :
    (config : Throttle) (h : SlaveHandle) (src buf : Buffer) (block : ℕ) (s : SlaveSpi)
    → IsSlavePacket h src
    → 1600 ≤ length buf.bytes
    → s.spi_tx_sem ≡ 0
    → (take_tx_buffer s ≡ (none, s))
      × Ensures
          (λ w.
            (w.0 ≡ some h.payload_len)
            × (w.1.data_ready ≡ true)
            × Ensures
                (λ d.
                  (d.1.spi_tx_queue ≡ w.1.spi_tx_queue)
                  × (d.1.spi_tx_sem ≡ 1)
                  × (d.1.data_ready ≡ false))
                (dummy_tx_buffer config
                  (some (record { ident = block; bytes = replicate 1600 0 }))
                  w.1))
          (esp_spi_write config (some buf) h s)
unfolding take_tx_buffer queue_tx
lost_ready config h src buf block s p room z =
    let t = (find_wifi_tx_throttling config s).0 in
    let (c, built, sum, lt) = write_frame_lem h t src.bytes buf.bytes p.5 p.6 room in
    let w =
      queue_tx h
        (record {
          ident = buf.ident;
          bytes = slave_header h t c ++ body src.bytes h.payload_len (drop 12 buf.bytes);
        })
        (find_wifi_tx_throttling config s).1 in
    let low : SlaveSpi = record w { data_ready = false } in
    let a = find_throttling-Alike config s in
    let b = find_throttling-Alike config low in
    (
      if_true _ _ (eq→== s.spi_tx_sem 0 z),
      (
        (some h.payload_len, w),
        write_lem config h src buf s _ p.0 p.4 p.5 built,
        (
          refl,
          refl,
          (_, dummy_tx_buffer_lem config block w, (b.1, b.0 ∙ omega (arith, a.0, z), b.2)),
        ),
      ),
    )
