-- ===== src/Slave/Spi.antt =====
-- The slave's SPI interface, esp-hosted/slave/main/spi_slave_api.c, with checksums and without
-- DUMMY_TRANS_DESIGN: its queues, transactions and the task that serves them. What the pools
-- answer, and what the bus has put into a receive buffer, are arguments; a NULL that fails an
-- assertion is `none`. A queue takes what is sent to it, since the sender waits for room. The
-- statistics and the line of the handshake are left out.
pub mod Task
pub mod Frame
pub mod Exchange
pub mod Stall
pub mod Ready
use rt_thread_esp_hosted.Common.{
  ℕ, ◌+◌, ◌-◌, ◌*◌, ◌/◌, ◌%◌, ◌^◌, Bool, true, false, Option, none, some, List, [], ◌∷◌, ◌++◌,
  if◌then◌else◌, ◌==◌, ltb, ◌>>=◌, load, store, slice, copy_to, replicate, length, Buffer, Heap,
}
use rt_thread_esp_hosted.Adapter.{esp_serial_if, esp_hci_if, esp_max_if}
use rt_thread_esp_hosted.Adapter.Header.{
  header_size, load16, load_if_type, load_if_num, store16, store_if_type, store_if_num,
  compute_checksum,
}
use rt_thread_esp_hosted.Slave.Startup.{dma_aligned}

abbrev pub spi_buffer_size : ℕ
spi_buffer_size = 1600

-- `interface_buffer_handle_t` of esp-hosted/slave/main/interface.h; NULL is `none`.
pub record SlaveHandle : Type 0 where
  pub priv_buffer_handle : Option ℕ
  pub if_type : ℕ
  pub if_num : ℕ
  pub payload : Option Buffer
  pub flag : ℕ
  pub payload_len : ℕ
  pub seq_num : ℕ
  pub free_buf_handle : Bool

-- The queues of the three priorities, PRIO_Q_SERIAL, PRIO_Q_BT and PRIO_Q_OTHERS.
pub record SlaveQueues : Type 0 where
  pub serial : List SlaveHandle
  pub bt : List SlaveHandle
  pub others : List SlaveHandle

-- `spi_slave_transaction_t`: its block, and the two buffers.
pub record SlaveTrans : Type 0 where
  pub ident : ℕ
  pub tx_buffer : Buffer
  pub rx_buffer : Buffer

-- The static variables, `slv_state_g.current_throttling`, the line of data ready, and the
-- transactions that the driver of the bus has, the oldest first.
pub record SlaveSpi : Type 0 where
  pub spi_tx_sem : ℕ
  pub spi_rx_sem : ℕ
  pub spi_rx_queue : SlaveQueues
  pub spi_tx_queue : SlaveQueues
  pub current_throttling : ℕ
  pub data_ready : Bool
  pub queued : List SlaveTrans
  pub heap : Heap

-- `slv_cfg_g`, and SPI_RX_QUEUE_SIZE
pub record Throttle : Type 0 where
  pub throttle_high_threshold : ℕ
  pub throttle_low_threshold : ℕ
  pub spi_rx_queue_size : ℕ

-- The three branches of `xQueueSend`.
unfoldable pub send_by_type : ℕ → SlaveHandle → SlaveQueues → SlaveQueues
send_by_type if_type h q =
    if if_type == esp_serial_if
    then record q { serial = q.serial ++ h ∷ [] }
    else if if_type == esp_hci_if
    then record q { bt = q.bt ++ h ∷ [] }
    else record q { others = q.others ++ h ∷ [] }

-- The three nested calls of `xQueueReceive`, the innermost first.
unfoldable pub receive_others : List SlaveHandle → SlaveQueues → Option (SlaveHandle × SlaveQueues)
receive_others [] q = none
receive_others (h ∷ r) q = some (h, record q { others = r })

unfoldable pub receive_bt : List SlaveHandle → SlaveQueues → Option (SlaveHandle × SlaveQueues)
unfolding receive_others
receive_bt [] q = receive_others q.others q
receive_bt (h ∷ r) q = some (h, record q { bt = r })

unfoldable pub receive_serial : List SlaveHandle → SlaveQueues → Option (SlaveHandle × SlaveQueues)
unfolding receive_bt
receive_serial [] q = receive_bt q.bt q
receive_serial (h ∷ r) q = some (h, record q { serial = r })

unfoldable pub receive_first : SlaveQueues → Option (SlaveHandle × SlaveQueues)
unfolding receive_serial
receive_first q = receive_serial q.serial q

-- The value of `slv_state_g.current_throttling` after the two tests of the load.
unfoldable pub throttle_by_load : Throttle → ℕ → ℕ → ℕ
throttle_by_load config load_percent current =
    if ltb load_percent config.throttle_low_threshold
    then 0
    else if ltb config.throttle_high_threshold load_percent
    then 1
    else current

-- `find_wifi_tx_throttling_to_be_set`: its result, and the state.
unfoldable pub find_wifi_tx_throttling : Throttle → SlaveSpi → ℕ × SlaveSpi
find_wifi_tx_throttling config s =
    let queue_load = length s.spi_rx_queue.others % 2 ^ 16 in
    let load_percent = queue_load * 100 / config.spi_rx_queue_size % 2 ^ 8 in
    let v = throttle_by_load config load_percent s.current_throttling in
    if config.throttle_high_threshold == 0 then (0, s) else (v, record s { current_throttling = v })

-- `header->throttle_cmd = v`, two bits
unfoldable pub store_throttle_cmd : List ℕ → ℕ → Option (List ℕ)
store_throttle_cmd buf v = load buf 10 >>= λ b. store buf 10 (b / 4 * 4 + v % 4)

-- The frame of `esp_spi_write` in the buffer, with the payload's bytes `src`.
unfoldable pub write_frame : SlaveHandle → ℕ → List ℕ → List ℕ → Option (List ℕ)
unfolding store_throttle_cmd
write_frame h throttling src b = do
  b ← copy_to b 0 (replicate header_size 0)
  b ← store_if_type b h.if_type
  b ← store_if_num b h.if_num
  b ← store16 b 2 h.payload_len
  b ← store16 b 4 header_size
  b ← store16 b 8 h.seq_num
  b ← store b 1 h.flag
  b ← store_throttle_cmd b throttling
  body ← slice src 0 h.payload_len
  b ← copy_to b header_size body
  checksum ← compute_checksum b ((header_size + h.payload_len) % 2 ^ 16)
  store16 b 6 checksum

-- The handle for the transmit queue, on the buffer with the frame.
abbrev pub slave_tx_handle : SlaveHandle → Buffer → SlaveHandle
slave_tx_handle h buf = record {
  priv_buffer_handle = none;
  if_type = h.if_type;
  if_num = h.if_num;
  payload = some buf;
  flag = 0;
  payload_len = dma_aligned (h.payload_len + header_size);
  seq_num = 0;
  free_buf_handle = false;
}

-- The end of `esp_spi_write`. The queue is chosen by the header's field, which has four bits.
unfoldable pub queue_tx : SlaveHandle → Buffer → SlaveSpi → SlaveSpi
queue_tx h buf s = record s {
  spi_tx_queue = send_by_type (h.if_type % 16) (slave_tx_handle h buf) s.spi_tx_queue;
  spi_tx_sem = s.spi_tx_sem + 1;
  data_ready = true;
}

-- A payload `src` that passes the first tests.
unfoldable pub write_payload :
    Throttle → Option Buffer → SlaveHandle → Buffer → SlaveSpi → Option (Option ℕ × SlaveSpi)
unfolding write_frame queue_tx find_wifi_tx_throttling
write_payload config block h src s =
    if ltb spi_buffer_size (dma_aligned (h.payload_len + header_size))
    then some (none, s)
    else block >>= λ buf.
        (let t = find_wifi_tx_throttling config s in
          write_frame h t.0 src.bytes buf.bytes >>= λ b.
          some (some h.payload_len, queue_tx h (record { ident = buf.ident; bytes = b }) t.1))

-- `esp_spi_write` with the buffer that the pool gives: the length, or `none` for ESP_FAIL.
unfoldable pub esp_spi_write :
    Throttle → Option Buffer → SlaveHandle → SlaveSpi → Option (Option ℕ × SlaveSpi)
unfolding write_payload
esp_spi_write config block h s =
    if h.payload_len == 0
    then some (none, s)
    else elim h.payload [ none ↦ some (none, s) | some src ↦ write_payload config block h src s ]

-- The first half of `get_next_tx_buffer`: the buffer at the head of the queues, if there is one.
unfoldable pub take_tx_buffer : SlaveSpi → Option (Buffer × ℕ) × SlaveSpi
unfolding receive_first
take_tx_buffer s = if s.spi_tx_sem == 0 then (none, s) else elim (receive_first s.spi_tx_queue) [
  | none ↦ (none, record s { spi_tx_sem = s.spi_tx_sem - 1 })
  | some (h, q) ↦ (
    h.payload >>= λ buf. some (buf, h.payload_len),
    record s { spi_tx_sem = s.spi_tx_sem - 1; spi_tx_queue = q },
  )
]

-- The header of a buffer without data.
unfoldable pub dummy_frame : ℕ → List ℕ → Option (List ℕ)
unfolding store_throttle_cmd
dummy_frame throttling b = do
  b ← store_if_type b esp_max_if
  b ← store_if_num b 15
  b ← store16 b 2 0
  store_throttle_cmd b throttling

-- Its second half, without data: the line goes down and a dummy is made in the buffer that the
-- pool gives.
unfoldable pub dummy_tx_buffer :
    Throttle → Option Buffer → SlaveSpi → Option (Option Buffer × SlaveSpi)
unfolding dummy_frame find_wifi_tx_throttling
dummy_tx_buffer config none s = some (none, record s { data_ready = false })
dummy_tx_buffer config (some sendbuf) s =
    let t = find_wifi_tx_throttling config (record s { data_ready = false }) in
    dummy_frame t.0 sendbuf.bytes >>= λ b.
    some (some (record { ident = sendbuf.ident; bytes = b }), t.1)

-- What its first half found, or a dummy.
unfoldable pub tx_or_dummy :
    Throttle
    → Option Buffer
    → Option (Buffer × ℕ) × SlaveSpi
    → Option (Option Buffer × ℕ × SlaveSpi)
unfolding dummy_tx_buffer
tx_or_dummy config block (none, s) = dummy_tx_buffer config block s >>= λ r. some (r.0, 0, r.1)
tx_or_dummy config block (some (buf, len), s) = some (some buf, len, s)

-- `get_next_tx_buffer` and `*len`
unfoldable pub get_next_tx_buffer :
    Throttle → Option Buffer → SlaveSpi → Option (Option Buffer × ℕ × SlaveSpi)
unfolding take_tx_buffer tx_or_dummy
get_next_tx_buffer config block s = tx_or_dummy config block (take_tx_buffer s)
