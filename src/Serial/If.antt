-- ===== src/Serial/If.antt =====
-- Sending and receiving RPC messages in esp-hosted/host/drivers/virtual_serial_if/serial_if.c:
-- `transport_pserial_send` and `transport_pserial_read`. The handle is up or not; `block` answers
-- the allocation of the buffer that is written.
pub mod Outbound
pub mod Failure
use rt_thread_esp_hosted.Common.{
  ℕ, ◌+◌, ◌-◌, ◌%◌, ◌^◌, Bool, true, false, Option, none, some, List, [], ◌∷◌, if◌then◌else◌, not,
  ◌==◌, ◌>>=◌, replicate, Buffer,
}
use rt_thread_esp_hosted.Serial.Tlv.{compose_tlv}
use rt_thread_esp_hosted.Serial.Drv.{
  SerialDrv, is_ok, serial_drv_write, serial_drv_read, init_read_len, h_free,
}

-- `buf_len`, which has 16 bits
abbrev pub pserial_buf_len : ℕ → ℕ
pserial_buf_len data_length = (init_read_len + data_length) % 2 ^ 16

module _ {S : Type 0} where
  -- The composed message is written; a buffer that the driver did not take is freed.
  unfoldable pub pserial_write : ℕ → List ℕ → ℕ → SerialDrv S → Option (Bool × SerialDrv S)
  pserial_write block bytes count d =
      if count == 0
      then some (false, h_free block d)
      else (serial_drv_write true (some (record { ident = block; bytes = bytes })) count count d
          >>= λ r. some (if is_ok r.0 then (true, r.2) else (false, h_free block r.2)))

  -- `transport_pserial_send`; true is SUCCESS.
  unfoldable pub transport_pserial_send :
      Bool → Option ℕ → List ℕ → ℕ → SerialDrv S → Option (Bool × SerialDrv S)
  transport_pserial_send handle none bytes data_length d = some (false, d)
  transport_pserial_send handle (some block) bytes data_length d =
      if not handle
      then some (false, h_free block d)
      else (compose_tlv (replicate (pserial_buf_len data_length) 0) bytes data_length >>= λ c.
          pserial_write block c.0 c.1 d)

  -- `transport_pserial_read`
  unfoldable pub transport_pserial_read :
      Bool → ℕ → Option ℕ → Option ℕ → SerialDrv S → Option (Option Buffer × ℕ × SerialDrv S)
  transport_pserial_read handle out first second d = serial_drv_read handle out first second d
