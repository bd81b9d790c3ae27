-- ===== src/Slave/Spi/Task.antt =====
-- The task of the slave's SPI interface, esp-hosted/slave/main/spi_slave_api.c: transactions, what
-- they bring, and `esp_spi_read`.
use rt_thread_esp_hosted.Common.{
  ℕ, ◌+◌, ◌-◌, ◌%◌, ◌^◌, Bool, true, false, Option, none, some, List, [], ◌∷◌, ◌++◌, if◌then◌else◌,
  ◌==◌, ltb, ◌>>=◌, Buffer,
}
use rt_thread_esp_hosted.Adapter.Header.{
  load16, load_if_type, load_if_num, store16, compute_checksum,
}
use rt_thread_esp_hosted.Slave.Spi.{
  SlaveSpi, SlaveHandle, SlaveTrans, Throttle, spi_buffer_size, send_by_type, receive_first,
  get_next_tx_buffer,
}

-- What the pools answer to the three calls of one round.
pub record Pools : Type 0 where
  pub tx : Option Buffer
  pub trans : Option ℕ
  pub rx : Option Buffer

-- A transaction for the buffer goes to the driver of the bus.
unfoldable pub queue_trans : Pools → Option Buffer → SlaveSpi → Option SlaveSpi
queue_trans pools none s = some s
queue_trans pools (some tx_buffer) s = do
  ident ← pools.trans
  rx_buffer ← pools.rx
  some (record s {
    queued =
        s.queued ++ record { ident = ident; tx_buffer = tx_buffer; rx_buffer = rx_buffer } ∷ [];
  })

unfoldable pub queue_next_transaction : Throttle → Pools → SlaveSpi → Option SlaveSpi
unfolding get_next_tx_buffer queue_trans
queue_next_transaction config pools s =
    get_next_tx_buffer config pools.tx s >>= λ r. queue_trans pools r.0 r.2

-- The handle of a buffer that has passed the tests.
unfoldable pub slave_rx_handle : ℕ → List ℕ → ℕ → Option SlaveHandle
slave_rx_handle block b payload_len = do
  if_type ← load_if_type b
  if_num ← load_if_num b
  some (record {
    priv_buffer_handle = some block;
    if_type = if_type;
    if_num = if_num;
    payload = some (record { ident = block; bytes = b });
    flag = 0;
    payload_len = payload_len;
    seq_num = 0;
    free_buf_handle = true;
  })

unfoldable pub queue_rx : ℕ → List ℕ → ℕ → SlaveSpi → Option (Bool × SlaveSpi)
unfolding slave_rx_handle
queue_rx block b payload_len s = slave_rx_handle block b payload_len >>= λ h. some (
  true,
  record s {
    spi_rx_queue = send_by_type h.if_type h s.spi_rx_queue;
    spi_rx_sem = s.spi_rx_sem + 1;
  },
)

-- `process_spi_rx` on a buffer: true is 0, false -1.
unfoldable pub process_spi_rx : Buffer → SlaveSpi → Option (Bool × SlaveSpi)
unfolding queue_rx
process_spi_rx buf s = do
  len ← load16 buf.bytes 2
  offset ← load16 buf.bytes 4
  if len == 0
      then some (false, s)
      else if ltb spi_buffer_size (len + offset)
      then some (false, s)
      else (do
        rx_checksum ← load16 buf.bytes 6
        b ← store16 buf.bytes 6 0
        checksum ← compute_checksum b ((len + offset) % 2 ^ 16)
        if checksum == rx_checksum
            then queue_rx buf.ident b ((len + offset) % 2 ^ 16) s
            else some (false, s))

-- A round of `spi_transaction_post_process_task` for the transaction `t` that is done, whose
-- receive buffer the bus has filled. A NULL in place of `t` or of its buffers does not occur.
unfoldable pub post_process : Throttle → Pools → SlaveTrans → SlaveSpi → Option SlaveSpi
unfolding queue_next_transaction process_spi_rx
post_process config pools t s = do
  s ← queue_next_transaction config pools s
  r ← process_spi_rx t.rx_buffer (record s { heap = t.tx_buffer.ident ∷ s.heap })
  some (record r.1 { heap = t.ident ∷ (if r.0 then r.1.heap else t.rx_buffer.ident ∷ r.1.heap) })

-- `spi_slave_get_trans_result` waits, `none`, while the driver has no transaction; the bytes
-- `received` are what the host has sent.
unfoldable pub post_process_round : Throttle → Pools → List ℕ → SlaveSpi → Option (Option SlaveSpi)
unfolding post_process
post_process_round config pools received s = elim s.queued [
  | [] ↦ some none
  | t ∷ queued ↦
      post_process config pools
        (record t { rx_buffer = record { ident = t.rx_buffer.ident; bytes = received } })
        (record s { queued = queued })
      >>= λ s'. some (some s')
]

-- `esp_spi_read` waits while its semaphore is 0.
pub data ReadResult : Type 0 where
  read_waits read_fail : ReadResult
  read_handle : SlaveHandle → ReadResult

unfoldable pub esp_spi_read : SlaveSpi → ReadResult × SlaveSpi
unfolding receive_first
esp_spi_read s =
    if s.spi_rx_sem == 0 then (read_waits, s) else elim (receive_first s.spi_rx_queue) [
      | none ↦ (read_fail, record s { spi_rx_sem = s.spi_rx_sem - 1 })
      | some (h, q) ↦ (read_handle h, record s { spi_rx_sem = s.spi_rx_sem - 1; spi_rx_queue = q })
    ]
