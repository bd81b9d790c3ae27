-- ===== src/Slave/Startup.antt =====
-- The init event that the slave sends, `generate_startup_event` of
-- esp-hosted/slave/main/spi_slave_api.c, with checksums and without DUMMY_TRANS_DESIGN. What the
-- pool of transmit buffers, the configuration and `find_wifi_tx_throttling_to_be_set` answer are
-- arguments; the calls that raise the signal for the host are left out.
use rt_thread_esp_hosted.Common.{
  ℕ, ◌+◌, ◌-◌, ◌%◌, ◌*◌, ◌/◌, Option, none, some, List, ◌∷◌, [], ◌++◌, ◌>>=◌, load, store,
  if◌then◌else◌, ◌==◌, Buffer,
}
use rt_thread_esp_hosted.Adapter.{esp_priv_if}
use rt_thread_esp_hosted.Adapter.Header.{
  header_size, store16, store_if_type, store_if_num, compute_checksum,
}
use rt_thread_esp_hosted.Transport.{esp_priv_event_init}
use rt_thread_esp_hosted.Transport.Init.{
  esp_priv_capability, esp_priv_firmware_chip_id, esp_priv_test_raw_tp, esp_priv_rx_q_size,
  esp_priv_tx_q_size,
}

abbrev pub esp_packet_type_event : ℕ
esp_packet_type_event = 0x33

-- CONFIG_IDF_FIRMWARE_CHIP_ID, the lengths of the queues, and `raw_tp_cap`
pub record SlaveConfig : Type 0 where
  pub chip_id : ℕ
  pub rx_queue_size : ℕ
  pub tx_queue_size : ℕ
  pub raw_tp_cap : ℕ

unfoldable pub dma_aligned : ℕ → ℕ
dma_aligned n = if n % 4 == 0 then n else n + 4 - n % 4

-- The handle in the transmit queue: `payload` and `payload_len`.
pub record TxHandle : Type 0 where
  pub payload : List ℕ
  pub payload_len : ℕ

-- One field at `event_data + len`: its number, the length 1 and a byte.
unfoldable pub put_tag : ℕ → ℕ → List ℕ × ℕ → Option (List ℕ × ℕ)
put_tag tag v (buf, len) = do
  b ← store buf (14 + len) tag
  b ← store b (14 + len + 1) 1
  b ← store b (14 + len + 2) (v % 256)
  some (b, len + 3)

-- The header, up to the length and the checksum.
unfoldable pub startup_header : ℕ → List ℕ → Option (List ℕ)
startup_header throttling b = do
  b ← store_if_type b esp_priv_if
  b ← store_if_num b 0
  b ← store16 b 4 header_size
  b ← store b 11 esp_packet_type_event
  t ← load b 10
  store b 10 (t / 4 * 4 + throttling % 4)

-- The event, and its length in front of it.
unfoldable pub startup_event : SlaveConfig → ℕ → List ℕ → Option (List ℕ × ℕ)
startup_event config cap b = do
  b ← store b 12 esp_priv_event_init
  e ← put_tag esp_priv_firmware_chip_id config.chip_id (b, 0)
  e ← put_tag esp_priv_capability cap e
  e ← put_tag esp_priv_test_raw_tp config.raw_tp_cap e
  e ← put_tag esp_priv_rx_q_size config.rx_queue_size e
  e ← put_tag esp_priv_tx_q_size config.tx_queue_size e
  b ← store e.0 13 (e.1 % 256)
  some (b, e.1 + 2)

-- `generate_startup_event` on the transmit queue for others; NULL fails an assertion.
unfoldable pub generate_startup_event :
    SlaveConfig → ℕ → Option Buffer → ℕ → List TxHandle → Option (List TxHandle)
generate_startup_event config throttling none cap queue = none
generate_startup_event config throttling (some buf) cap queue = do
  b ← startup_header throttling buf.bytes
  e ← startup_event config cap b
  b ← store16 e.0 2 e.1
  checksum ← compute_checksum b (e.1 + header_size)
  b ← store16 b 6 checksum
  some (queue ++ record { payload = b; payload_len = dma_aligned (e.1 + header_size) } ∷ [])
