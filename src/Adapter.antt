-- ===== src/Adapter.antt =====
-- What host and slave share: the constants and the payload header of
-- esp-hosted/common/include/adapter.h, and the handle by which a packet is passed between tasks,
-- `interface_buffer_handle_t` of esp-hosted/host/utils/esp_hosted_common.h.
pub mod Header
use rt_thread_esp_hosted.Common.{ℕ, Bool, Option, List}

-- `esp_hosted_if_type_t`
abbrev pub esp_sta_if : ℕ
esp_sta_if = 1

abbrev pub esp_ap_if : ℕ
esp_ap_if = 2

abbrev pub esp_serial_if : ℕ
esp_serial_if = 3

abbrev pub esp_hci_if : ℕ
esp_hci_if = 4

abbrev pub esp_priv_if : ℕ
esp_priv_if = 5

abbrev pub esp_test_if : ℕ
esp_test_if = 6

abbrev pub esp_max_if : ℕ
esp_max_if = 8

-- `payload` is what the pointer reaches, `priv_buffer_handle` the block to free by its number
-- (`none` for NULL), and `free_buf_handle` tells whether a function to free it is given.
pub record BufHandle : Type 0 where
  pub priv_buffer_handle : Option ℕ
  pub if_type : ℕ
  pub if_num : ℕ
  pub payload : List ℕ
  pub flag : ℕ
  pub payload_len : ℕ
  pub seq_num : ℕ
  pub payload_zcopy : Bool
  pub free_buf_handle : Bool
