-- ===== src/Spi/Rx.antt =====
-- The receiving side of the SPI driver, esp-hosted/host/drivers/transport/spi/spi_drv.c: the
-- check of a received buffer, and its hand-over to the queues.
use rt_thread_esp_hosted.Common.{
  ℕ, ◌+◌, ◌%◌, ◌^◌, Bool, true, false, Option, none, some, List, ◌∷◌, if◌then◌else◌, ◌==◌, ◌||◌,
  ◌&&◌, ltb, not, ◌>>=◌, load, drop, Buffer,
}
use rt_thread_esp_hosted.Adapter.{BufHandle, esp_sta_if, esp_ap_if, esp_serial_if, esp_max_if}
use rt_thread_esp_hosted.Adapter.Header.{
  header_size, load16, load_if_type, load_if_num, load_throttle_cmd, store16, compute_checksum,
}
use rt_thread_esp_hosted.Spi.{Spi, enqueue, max_payload_size}

-- The results 0, -1, -2, -3, -4 and -5.
pub data RxResult : Type 0 where
  rx_ok rx_no_buffer rx_ignored rx_not_queued rx_bad_checksum rx_empty : RxResult

abbrev pub rx_failed : RxResult → Bool
rx_failed rx_ok = false
rx_failed _ = true

-- The label `done`: the buffer goes back to the pool.
abbrev pub drop_rx : RxResult → Buffer → Spi → Option (RxResult × Spi)
drop_rx r rxbuff s = some (r, record s { heap = rxbuff.ident ∷ s.heap })

-- `buf_handle`, from the header of the buffer `bytes`
unfoldable pub rx_handle : ℕ → List ℕ → ℕ → ℕ → Option BufHandle
rx_handle block bytes len offset = do
  if_type ← load_if_type bytes
  if_num ← load_if_num bytes
  seq_num ← load16 bytes 8
  flags ← load bytes 1
  some (record {
    priv_buffer_handle = some block;
    if_type = if_type;
    if_num = if_num;
    payload = drop offset bytes;
    flag = flags;
    payload_len = len;
    seq_num = seq_num;
    payload_zcopy = false;
    free_buf_handle = true;
  })

-- A frame whose checksum is right: queue it.
unfoldable pub accept_frame : Bool → ℕ → List ℕ → ℕ → ℕ → Buffer → Spi → Option (RxResult × Spi)
unfolding rx_handle
accept_frame queue_ok block bytes len offset rxbuff s = do
  h ← rx_handle block bytes len offset
  throttle_cmd ← load_throttle_cmd bytes
  let s' = record s {
    wifi_tx_throttling = throttle_cmd;
    schedule_dummy_rx =
        h.if_type == esp_serial_if
        || h.if_type == esp_sta_if
        || h.if_type == esp_ap_if
        || s.schedule_dummy_rx;
  }
  if queue_ok
      then some (
        rx_ok,
        record s' {
          from_slave_queue = enqueue h s'.from_slave_queue;
          sem_from_slave_queue = s'.sem_from_slave_queue + 1;
        },
      )
      else drop_rx rx_not_queued rxbuff s'

-- The checksum is computed over the buffer with a zero in its place.
unfoldable pub check_frame : Bool → Buffer → ℕ → ℕ → Spi → Option (RxResult × Spi)
unfolding accept_frame
check_frame queue_ok rxbuff len offset s = do
  rx_checksum ← load16 rxbuff.bytes 6
  bytes ← store16 rxbuff.bytes 6 0
  checksum ← compute_checksum bytes ((len + offset) % 2 ^ 16)
  if checksum == rx_checksum
      then accept_frame queue_ok rxbuff.ident bytes len offset rxbuff s
      else drop_rx rx_bad_checksum rxbuff s

unfoldable pub process_spi_rx_buf : Bool → Option Buffer → Spi → Option (RxResult × Spi)
unfolding check_frame
process_spi_rx_buf queue_ok none s = some (rx_no_buffer, s)
process_spi_rx_buf queue_ok (some rxbuff) s = do
  len ← load16 rxbuff.bytes 2
  offset ← load16 rxbuff.bytes 4
  if_type ← load_if_type rxbuff.bytes
  throttle_cmd ← load_throttle_cmd rxbuff.bytes
  let s' = record s { schedule_dummy_rx = not (if_type == esp_max_if) && s.schedule_dummy_rx }
  if len == 0
      then drop_rx rx_empty rxbuff (record s' { wifi_tx_throttling = throttle_cmd })
      else if ltb max_payload_size len || not (offset == header_size)
      then drop_rx rx_ignored rxbuff s'
      else check_frame queue_ok rxbuff len offset s'
