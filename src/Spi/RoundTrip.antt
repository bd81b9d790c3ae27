-- ===== src/Spi/RoundTrip.antt =====
-- A packet that `get_next_tx_buffer` frames is what `process_spi_rx_buf` takes out of the frame.
use rt_thread_esp_hosted.Common.{
  ℕ, suc, ◌+◌, ◌-◌, ◌*◌, ◌/◌, ◌%◌, ◌^◌, ◌≤◌, ◌<◌, ◌≡◌, refl, ◌∙◌, ◌≢◌, true, false, some, List, ◌∷◌,
  ◌++◌, arith, length, take, drop, replicate, length-replicate, ◌==◌, ◌||◌, ne→==, le→ltb, ==_refl,
  if_false,
}
use rt_thread_esp_hosted.Adapter.{BufHandle, esp_hci_if, esp_serial_if, esp_sta_if, esp_ap_if}
use rt_thread_esp_hosted.Adapter.Header.{
  compute_checksum, store16, load16, load_if_type, load_if_num, load_throttle_cmd,
}
use rt_thread_esp_hosted.Spi.{
  Spi, Queues, free_spi, get_next_tx_buffer, send_handle, send_copied, form_frame, dequeue, enqueue,
  free_handle, max_payload_size,
}
use rt_thread_esp_hosted.Spi.Frame.{header, body, form_frame_lem}
use rt_thread_esp_hosted.Spi.Rx.{rx_ok, process_spi_rx_buf}

-- The handle that a received frame of `h` is queued under, in the receive buffer `block`.
abbrev pub received : BufHandle → ℕ → List ℕ → BufHandle
received h block payload = record {
  priv_buffer_handle = some block;
  if_type = h.if_type;
  if_num = h.if_num;
  payload = payload;
  flag = 0;
  payload_len = h.payload_len;
  seq_num = 0;
  payload_zcopy = false;
  free_buf_handle = true;
}

abbrev pub after_rx : Spi → BufHandle → Spi
after_rx r h = record r {
  wifi_tx_throttling = 0;
  schedule_dummy_rx =
      h.if_type == esp_serial_if
      || h.if_type == esp_sta_if
      || h.if_type == esp_ap_if
      || r.schedule_dummy_rx;
  from_slave_queue = enqueue h r.from_slave_queue;
  sem_from_slave_queue = r.sem_from_slave_queue + 1;
}

abbrev pub IsPacket : BufHandle → Type 0
IsPacket h =
    (h.payload_zcopy ≡ false)
    × (h.if_type < 8)
    × (h.if_type ≢ esp_hci_if)
    × (h.if_num < 16)
    × (h.payload_len ≢ 0)
    × (h.payload_len ≤ max_payload_size)
    × (h.payload_len ≤ length h.payload)

pub rx-header :
    (h : BufHandle) (c block : ℕ) (payload : List ℕ) (r : Spi)
    → IsPacket h
    → compute_checksum (header h h.payload_len 0 ++ payload) (12 + h.payload_len) ≡ some c
    → c < 2 ^ 16
    → process_spi_rx_buf true
        (some (record { ident = block; bytes = header h h.payload_len c ++ payload }))
        r
      ≡ some (rx_ok, after_rx r (received h block payload))
unfolding process_spi_rx_buf load16 store16 load_if_type load_if_num load_throttle_cmd
rx-header h c block payload r p e lt =
    let len : h.payload_len % 256 + h.payload_len / 256 % 256 * 2 ^ 8 ≡ h.payload_len =
      omega arith in
    let ck : c % 256 + c / 256 % 256 * 2 ^ 8 ≡ c = omega arith in
    let ty : (h.if_num % 16 * 16 + h.if_type % 16) % 16 ≡ h.if_type = omega arith in
    let num : (h.if_num % 16 * 16 + h.if_type % 16) / 16 % 16 ≡ h.if_num = omega arith in
    let whole : (h.payload_len + 12) % 2 ^ 16 ≡ 12 + h.payload_len = omega arith in
    rw (
      len,
      ne→== h.payload_len 0 p.4,
      le→ltb 1588 h.payload_len p.5,
      ty,
      ne→== h.if_type 8 (λ (q : h.if_type ≡ 8). absurd (omega arith)),
      whole,
      e,
      ck,
      ==_refl c,
      num,
    )

zeros :
    (n : ℕ)
    → replicate {A = ℕ} (suc (suc (suc (suc (suc (suc (suc (suc (suc (suc (suc (suc n)))))))))))) 0
      ≡ 0 ∷ 0 ∷ 0 ∷ 0 ∷ 0 ∷ 0 ∷ 0 ∷ 0 ∷ 0 ∷ 0 ∷ 0 ∷ 0 ∷ replicate n 0
zeros n = refl

send_copied_lem :
    (h : BufHandle) (s : Spi) (block : ℕ) (frame : List ℕ)
    → form_frame h h.payload_len (0 ∷ 0 ∷ 0 ∷ 0 ∷ 0 ∷ 0 ∷ 0 ∷ 0 ∷ 0 ∷ 0 ∷ 0 ∷ 0 ∷ replicate 1588 0)
      ≡ some (frame, h.payload_len)
    → h.payload_len ≢ 0
    → send_copied (some block) h s
      ≡ some (
        some (record { ident = block; bytes = frame }),
        true,
        free_spi,
        record s { heap = (free_handle h s.heap).1 },
      )
unfolding send_copied
send_copied_lem h s block frame e nz = rw (zeros 1588, e, ne→== h.payload_len 0 nz)

-- What follows the header in the frame of a packet.
abbrev pub padded : BufHandle → List ℕ
padded h = body h.payload h.payload_len (replicate {A = ℕ} 1588 0)

-- The frame of the next packet has the checksum of header and payload, which has 16 bits.
pub send_lem :
    (h : BufHandle) (q : Queues) (s : Spi) (block : ℕ)
    → s.sem_to_slave_queue ≢ 0
    → dequeue s.to_slave_queue ≡ some (h, q)
    → IsPacket h
    → (c : ℕ) × (get_next_tx_buffer (some block) s
        ≡ some (
          some (record { ident = block; bytes = header h h.payload_len c ++ padded h }),
          true,
          free_spi,
          record s {
            sem_to_slave_queue = s.sem_to_slave_queue - 1;
            to_slave_queue = q;
            heap = (free_handle h s.heap).1;
          },
        ))
      × (compute_checksum (header h h.payload_len 0 ++ padded h) (12 + h.payload_len) ≡ some c)
      × (c < 2 ^ 16)
unfolding get_next_tx_buffer send_handle
send_lem h q s block sem deq p =
    let n = h.payload_len in
    let pad = replicate {A = ℕ} 1588 0 in
    let s' : Spi = record s { sem_to_slave_queue = s.sem_to_slave_queue - 1; to_slave_queue = q } in
    let (c, built, sum, lt) =
      form_frame_lem h n pad p.0 (λ (e : h.if_type % 16 ≡ 4). p.2 (omega (arith, p.1))) p.5 p.6
        (omega (arith, length-replicate {A = ℕ} 1588 0, p.5)) in
    (
      c,
      rw (ne→== s.sem_to_slave_queue 0 sem, deq, get_next_tx_buffer, ne→== n 0 p.4)
          (if_false _ _ p.0 ∙ send_copied_lem h s' block _ built p.4),
      sum,
      lt,
    )

-- The next packet of the send queues, which their semaphore counts, if it is one that is copied
-- and not an HCI packet, with a payload that fits, is framed into the buffer `block`, its own
-- buffer is freed, and the frame in any receive buffer `rxb` is accepted: a handle with the
-- packet's type, number and length is queued for the receiving task, and its payload begins with
-- the packet's. The header's flow control bits and flags are zero.
pub spi_roundtrip :
    (h : BufHandle) (q : Queues) (s r : Spi) (block rxb : ℕ)
    → s.sem_to_slave_queue ≢ 0
    → dequeue s.to_slave_queue ≡ some (h, q)
    → IsPacket h
    → (frame : List ℕ) × (padding : List ℕ) × (get_next_tx_buffer (some block) s
        ≡ some (
          some (record { ident = block; bytes = frame }),
          true,
          free_spi,
          record s {
            sem_to_slave_queue = s.sem_to_slave_queue - 1;
            to_slave_queue = q;
            heap = (free_handle h s.heap).1;
          },
        ))
      × (process_spi_rx_buf true (some (record { ident = rxb; bytes = frame })) r
          ≡ some (rx_ok, after_rx r (received h rxb (take h.payload_len h.payload ++ padding))))
spi_roundtrip h q s r block rxb sem deq p =
    let (c, sent, sum, lt) = send_lem h q s block sem deq p in
    (
      header h h.payload_len c ++ padded h,
      drop h.payload_len (replicate {A = ℕ} 1588 0),
      sent,
      rx-header h c rxb (padded h) r p sum lt,
    )
