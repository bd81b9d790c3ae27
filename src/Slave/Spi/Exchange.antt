-- ===== src/Slave/Spi/Exchange.antt =====
-- Host and slave at the two ends of the bus: what `esp_spi_write` of the slave sends is accepted
-- by `process_spi_rx_buf` of the host, and what `get_next_tx_buffer` of the host sends by
-- `process_spi_rx` of the slave.
use rt_thread_esp_hosted.Common.{
  ℕ, ◌+◌, ◌-◌, ◌*◌, ◌/◌, ◌%◌, ◌^◌, ◌≤◌, ◌<◌, ◌≡◌, ◌≢◌, true, false, some, List, ◌++◌, arith, length,
  take, drop, replicate, sym, ◌==◌, ◌||◌, ne→==, le→ltb, ==_refl, Buffer,
}
use rt_thread_esp_hosted.Adapter.{BufHandle, esp_serial_if, esp_sta_if, esp_ap_if}
use rt_thread_esp_hosted.Adapter.Header.{
  compute_checksum, store16, load16, load_if_type, load_if_num, load_throttle_cmd,
}
use rt_thread_esp_hosted.Spi.{
  Spi, Queues, free_spi, get_next_tx_buffer, dequeue, enqueue, free_handle,
}
use rt_thread_esp_hosted.Spi.Frame.{header, body}
use rt_thread_esp_hosted.Spi.RoundTrip.{IsPacket, padded, send_lem}
use rt_thread_esp_hosted.Spi.Rx.{rx_ok, process_spi_rx_buf}
use rt_thread_esp_hosted.Slave.Startup.{dma_aligned}
use rt_thread_esp_hosted.Slave.Spi.{
  SlaveSpi, SlaveHandle, Throttle, esp_spi_write, write_payload, write_frame, queue_tx,
  find_wifi_tx_throttling, send_by_type,
}
use rt_thread_esp_hosted.Slave.Spi.Task.{process_spi_rx, queue_rx, slave_rx_handle}
use rt_thread_esp_hosted.Slave.Spi.Frame.{slave_header, write_frame_lem}

-- A packet of the slave: its numbers fit into their fields, and its payload into a frame.
abbrev pub IsSlavePacket : SlaveHandle → Buffer → Type 0
IsSlavePacket h src =
    (h.payload ≡ some src)
    × (h.if_type < 8)
    × (h.if_num < 16)
    × (h.seq_num < 2 ^ 16)
    × (h.payload_len ≢ 0)
    × (h.payload_len ≤ 1588)
    × (h.payload_len ≤ length src.bytes)

-- The handle that the host queues for it, in the receive buffer `block`.
abbrev pub from_slave : SlaveHandle → ℕ → List ℕ → BufHandle
from_slave h block payload = record {
  priv_buffer_handle = some block;
  if_type = h.if_type;
  if_num = h.if_num;
  payload = payload;
  flag = h.flag;
  payload_len = h.payload_len;
  seq_num = h.seq_num;
  payload_zcopy = false;
  free_buf_handle = true;
}

-- The host after it has been accepted, with the slave's flow control bits.
abbrev pub host_after : Spi → BufHandle → ℕ → Spi
host_after r h throttling = record r {
  wifi_tx_throttling = throttling;
  schedule_dummy_rx =
      h.if_type == esp_serial_if
      || h.if_type == esp_sta_if
      || h.if_type == esp_ap_if
      || r.schedule_dummy_rx;
  from_slave_queue = enqueue h r.from_slave_queue;
  sem_from_slave_queue = r.sem_from_slave_queue + 1;
}

host_rx :
    (h : SlaveHandle) (src : Buffer) (t c block : ℕ) (payload : List ℕ) (r : Spi)
    → IsSlavePacket h src
    → compute_checksum (slave_header h t 0 ++ payload) (12 + h.payload_len) ≡ some c
    → c < 2 ^ 16
    → process_spi_rx_buf true
        (some (record { ident = block; bytes = slave_header h t c ++ payload }))
        r
      ≡ some (rx_ok, host_after r (from_slave h block payload) (t % 4))
unfolding process_spi_rx_buf load16 store16 load_if_type load_if_num load_throttle_cmd
host_rx h src t c block payload r p e lt =
    let len : h.payload_len % 256 + h.payload_len / 256 % 256 * 2 ^ 8 ≡ h.payload_len =
      omega (arith, p.5) in
    let ck : c % 256 + c / 256 % 256 * 2 ^ 8 ≡ c = omega arith in
    let seq : h.seq_num % 256 + h.seq_num / 256 % 256 * 2 ^ 8 ≡ h.seq_num = omega (arith, p.3) in
    let ty : (h.if_num % 16 * 16 + h.if_type % 16) % 16 ≡ h.if_type = omega (arith, p.1) in
    let num : (h.if_num % 16 * 16 + h.if_type % 16) / 16 % 16 ≡ h.if_num = omega (arith, p.2) in
    let whole : (h.payload_len + 12) % 2 ^ 16 ≡ 12 + h.payload_len = omega (arith, p.5) in
    let bits : t % 4 % 4 ≡ t % 4 = omega arith in
    rw (
      len,
      ne→== h.payload_len 0 p.4,
      le→ltb 1588 h.payload_len p.5,
      ty,
      ne→== h.if_type 8 (λ (q : h.if_type ≡ 8). absurd (omega (arith, p.1))),
      whole,
      e,
      ck,
      ==_refl c,
      num,
      seq,
      bits,
    )

fits_aligned : (n : ℕ) → n ≤ 1588 → dma_aligned (n + 12) ≤ 1600
unfolding dma_aligned
fits_aligned n h = ground arith

pub write_lem :
    (config : Throttle) (h : SlaveHandle) (src buf : Buffer) (s : SlaveSpi) (frame : List ℕ)
    → h.payload ≡ some src
    → h.payload_len ≢ 0
    → h.payload_len ≤ 1588
    → write_frame h (find_wifi_tx_throttling config s).0 src.bytes buf.bytes ≡ some frame
    → esp_spi_write config (some buf) h s
      ≡ some (
        some h.payload_len,
        queue_tx h
            (record { ident = buf.ident; bytes = frame })
            (find_wifi_tx_throttling config s).1,
      )
unfolding esp_spi_write write_payload
write_lem config h src buf s frame e nz small built = simp (
  e,
  ne→== h.payload_len 0 nz,
  le→ltb 1600 (dma_aligned (h.payload_len + 12)) (fits_aligned h.payload_len small),
  built,
)

-- A packet of the slave with a payload of at most 1588 bytes, and a buffer from the pool of 1600
-- bytes of any content: `esp_spi_write` returns the length, and queues the buffer with a frame
-- that the host accepts in any receive buffer `rxb`. The host queues a handle with the packet's
-- type, number, flags, sequence number and length, whose payload begins with the packet's, and
-- takes over the flow control bits that the slave had found.
pub slave_to_host :
    (config : Throttle) (h : SlaveHandle) (src buf : Buffer) (s : SlaveSpi) (r : Spi) (rxb : ℕ)
    → IsSlavePacket h src
    → 1600 ≤ length buf.bytes
    → (frame : List ℕ) × (padding : List ℕ) × (esp_spi_write config (some buf) h s
        ≡ some (
          some h.payload_len,
          queue_tx h
              (record { ident = buf.ident; bytes = frame })
              (find_wifi_tx_throttling config s).1,
        ))
      × (process_spi_rx_buf true (some (record { ident = rxb; bytes = frame })) r
          ≡ some (
            rx_ok,
            host_after r
                (from_slave h rxb (take h.payload_len src.bytes ++ padding))
                ((find_wifi_tx_throttling config s).0 % 4),
          ))
slave_to_host config h src buf s r rxb p room =
    let t = (find_wifi_tx_throttling config s).0 in
    let n = h.payload_len in
    let (c, built, sum, lt) = write_frame_lem h t src.bytes buf.bytes p.5 p.6 room in
    (
      slave_header h t c ++ body src.bytes n (drop 12 buf.bytes),
      drop n (drop 12 buf.bytes),
      write_lem config h src buf s _ p.0 p.4 p.5 built,
      host_rx h src t c rxb (body src.bytes n (drop 12 buf.bytes)) r p sum lt,
    )

-- The handle that the slave queues for a packet of the host. It keeps the header, with a zero
-- in place of the checksum, and the length counts it.
abbrev pub from_host : BufHandle → ℕ → List ℕ → SlaveHandle
from_host h block payload = record {
  priv_buffer_handle = some block;
  if_type = h.if_type;
  if_num = h.if_num;
  payload = some (record { ident = block; bytes = header h h.payload_len 0 ++ payload });
  flag = 0;
  payload_len = h.payload_len + 12;
  seq_num = 0;
  free_buf_handle = true;
}

abbrev pub slave_after : SlaveSpi → SlaveHandle → SlaveSpi
slave_after s h = record s {
  spi_rx_queue = send_by_type h.if_type h s.spi_rx_queue;
  spi_rx_sem = s.spi_rx_sem + 1;
}

slave_rx :
    (h : BufHandle) (c block : ℕ) (payload : List ℕ) (s : SlaveSpi)
    → IsPacket h
    → compute_checksum (header h h.payload_len 0 ++ payload) (12 + h.payload_len) ≡ some c
    → c < 2 ^ 16
    → process_spi_rx (record { ident = block; bytes = header h h.payload_len c ++ payload }) s
      ≡ some (true, slave_after s (from_host h block payload))
unfolding process_spi_rx queue_rx slave_rx_handle load16 store16 load_if_type load_if_num
slave_rx h c block payload s p e lt =
    let len : h.payload_len % 256 + h.payload_len / 256 % 256 * 2 ^ 8 ≡ h.payload_len =
      omega (arith, p.5) in
    let ck : c % 256 + c / 256 % 256 * 2 ^ 8 ≡ c = omega arith in
    let ty : (h.if_num % 16 * 16 + h.if_type % 16) % 16 ≡ h.if_type = omega (arith, p.1) in
    let num : (h.if_num % 16 * 16 + h.if_type % 16) / 16 % 16 ≡ h.if_num = omega (arith, p.3) in
    let whole : (h.payload_len + 12) % 2 ^ 16 ≡ h.payload_len + 12 = omega (arith, p.5) in
    let swap : 12 + h.payload_len ≡ h.payload_len + 12 = omega arith in
    rw (
      len,
      ne→== h.payload_len 0 p.4,
      le→ltb 1600 (h.payload_len + 12) (omega (arith, p.5)),
      whole,
      sym swap,
      e,
      ck,
      ==_refl c,
      ty,
      num,
      swap,
    )

-- The next packet of the host's send queues, which their semaphore counts, if it is one that is
-- copied and not an HCI packet, with a payload that fits: `get_next_tx_buffer` of the host frames
-- it into the buffer `block`, and the slave accepts the frame in any receive buffer `rxb`. The
-- slave queues the frame by the packet's type, under a handle with its type and number and the
-- length of payload and header; behind the header the frame begins with the packet's payload.
pub host_to_slave :
    (h : BufHandle) (q : Queues) (r : Spi) (s : SlaveSpi) (block rxb : ℕ)
    → r.sem_to_slave_queue ≢ 0
    → dequeue r.to_slave_queue ≡ some (h, q)
    → IsPacket h
    → (frame : List ℕ) × (padding : List ℕ) × (get_next_tx_buffer (some block) r
        ≡ some (
          some (record { ident = block; bytes = frame }),
          true,
          free_spi,
          record r {
            sem_to_slave_queue = r.sem_to_slave_queue - 1;
            to_slave_queue = q;
            heap = (free_handle h r.heap).1;
          },
        ))
      × (process_spi_rx (record { ident = rxb; bytes = frame }) s
          ≡ some (true, slave_after s (from_host h rxb (take h.payload_len h.payload ++ padding))))
host_to_slave h q r s block rxb sem deq p =
    let (c, sent, sum, lt) = send_lem h q r block sem deq p in
    (
      header h h.payload_len c ++ padded h,
      drop h.payload_len (replicate {A = ℕ} 1588 0),
      sent,
      slave_rx h c rxb (padded h) s p sum lt,
    )
