-- ===== src/Transport.antt =====
-- The configuration that the host sends to the slave, `send_slave_config` of
-- esp-hosted/host/drivers/transport/transport_drv.c.
pub mod Init
pub mod Channel
pub mod Reconfigure
pub mod RxTask
use rt_thread_esp_hosted.Common.{
  ℕ, ◌+◌, ◌%◌, Bool, true, false, Option, none, some, List, ◌>>=◌, store, Buffer,
}
use rt_thread_esp_hosted.Adapter.{esp_priv_if}
use rt_thread_esp_hosted.Spi.{Spi, esp_hosted_tx}

abbrev pub esp_priv_event_init : ℕ
esp_priv_event_init = 34

abbrev pub host_capabilities : ℕ
host_capabilities = 68

abbrev pub rcvd_esp_firmware_chip_id : ℕ
rcvd_esp_firmware_chip_id = 69

abbrev pub slv_config_test_raw_tp : ℕ
slv_config_test_raw_tp = 70

abbrev pub slv_config_throttle_high_threshold : ℕ
slv_config_throttle_high_threshold = 71

abbrev pub slv_config_throttle_low_threshold : ℕ
slv_config_throttle_low_threshold = 72

-- A buffer with the `len` that has been written after the two bytes of `struct esp_priv_event`.
abbrev pub Event : Type 0
Event = List ℕ × ℕ

-- One field: its number, the length 1 and a byte.
unfoldable pub put_field : ℕ → ℕ → Event → Option Event
put_field tag v (buf, len) = do
  b ← store buf (2 + len) tag
  b ← store b (2 + len + 1) 1
  b ← store b (2 + len + 2) (v % 256)
  some (b, len + 3)

-- The event in the buffer, with its length.
unfoldable pub form_slave_config : ℕ → ℕ → ℕ → ℕ → ℕ → List ℕ → Option Event
form_slave_config host_cap firmware_chip_id raw_tp_direction low_thr_thesh high_thr_thesh buf = do
  b ← store buf 0 esp_priv_event_init
  e ← put_field host_capabilities host_cap (b, 0)
  e ← put_field rcvd_esp_firmware_chip_id firmware_chip_id e
  e ← put_field slv_config_test_raw_tp raw_tp_direction e
  e ← put_field slv_config_throttle_high_threshold high_thr_thesh e
  e ← put_field slv_config_throttle_low_threshold low_thr_thesh e
  b ← store e.0 1 (e.1 % 256)
  some (b, e.1)

-- `send_slave_config`; true is STM_OK. `sendbuf` is the block that the allocation of 512 bytes
-- gives; NULL fails an assertion.
unfoldable pub send_slave_config :
    Bool → Option Buffer → ℕ → ℕ → ℕ → ℕ → ℕ → Spi → Option (Bool × Spi)
send_slave_config queue_ok none host_cap firmware_chip_id raw_tp_direction low_thr_thesh
      high_thr_thesh s =
    none
send_slave_config queue_ok (some sendbuf) host_cap firmware_chip_id raw_tp_direction low_thr_thesh
      high_thr_thesh s =
    form_slave_config host_cap firmware_chip_id raw_tp_direction low_thr_thesh high_thr_thesh
      sendbuf.bytes
    >>= λ e. some (
        esp_hosted_tx queue_ok esp_priv_if 0 (some (record sendbuf { bytes = e.0 })) (e.1 + 2) false
          true s)
