-- ===== src/Serial/If/Failure.antt =====
-- A message that the transport refuses, in `transport_pserial_send` of
-- esp-hosted/host/drivers/virtual_serial_if/serial_if.c.
use rt_thread_esp_hosted.Common.{
  ℕ, ◌+◌, ◌%◌, ◌^◌, ◌<◌, ◌≡◌, refl, ◌∙◌, ap, Bool, true, false, some, List, ◌∷◌, arith, ◌==◌, leb,
  ltb, not, ◌||◌, length, Heap, Ensures, ne→==, if_true,
}
use rt_thread_esp_hosted.Spi.{Spi, esp_hosted_tx, tx_handle, free_handle, max_payload_size}
use rt_thread_esp_hosted.Serial.Tlv.{rpc_ep_name_rsp}
use rt_thread_esp_hosted.Serial.Tlv.RoundTrip.{compose_tlv_lem, tlv_frame}
use rt_thread_esp_hosted.Serial.Drv.{SerialDrv, ret_fail, serial_drv_write}
use rt_thread_esp_hosted.Serial.Ll.{SerialLl, SerialLlHandle, active}
use rt_thread_esp_hosted.Serial.Ll.Lifecycle.{serial_ll_write}
use rt_thread_esp_hosted.Serial.If.{transport_pserial_send, pserial_write}
use rt_thread_esp_hosted.Serial.If.Outbound.{spi_fops}

tx_refused :
    (t : Spi) (ty num block : ℕ) (bytes : List ℕ) (len : ℕ) (heap : Heap)
    → leb 2 t.transport_state ≡ false
    → esp_hosted_tx true ty num
        (some (record { ident = block; bytes = bytes }))
        len
        false
        true
        (record t { heap = heap })
      ≡ (false, record t { heap = block ∷ heap })
unfolding esp_hosted_tx free_handle tx_handle
tx_refused t ty num block bytes len heap down = if_true _ _ (
    ap (λ b. len == 0 || ltb max_payload_size len || not b || false) down
    ∙ or_true (len == 0) (ltb max_payload_size len))
  where
    or_true : (a b : Bool) → (a || b || not false || false) ≡ true
    or_true true b = refl
    or_true false true = refl
    or_true false false = refl

refused_lem :
    (hdl : SerialLlHandle) (s : SerialLl) (t : Spi) (block : ℕ) (bytes : List ℕ) (heap : Heap)
    → s.interface0 ≡ some hdl
    → hdl.state ≡ active
    → leb 2 t.transport_state ≡ false
    → (spi_fops true).write
        (record { ident = block; bytes = tlv_frame rpc_ep_name_rsp bytes })
        (12 + length bytes)
        (s, t)
        heap
      ≡ some (ret_fail, (s, record t { heap = block ∷ heap }), block ∷ heap)
unfolding serial_ll_write
refused_lem hdl s t block bytes heap place up down = simp (
  place,
  up,
  tx_refused t hdl.if_type hdl.if_num block (tlv_frame rpc_ep_name_rsp bytes) (12 + length bytes)
      heap down,
)

-- While the transport may not send, a message with its envelope of a length of 16 bits, for which
-- a buffer is allocated, is refused, and its buffer is freed twice: by `esp_hosted_tx`, and by
-- its caller's caller.
pub double_free :
    (d : SerialDrv (SerialLl × Spi)) (hdl : SerialLlHandle) (s : SerialLl) (t : Spi) (block : ℕ)
    (bytes : List ℕ)
    → d.serial_ll_if ≡ some (spi_fops true)
    → d.low ≡ (s, t)
    → s.interface0 ≡ some hdl
    → hdl.state ≡ active
    → leb 2 t.transport_state ≡ false
    → 12 + length bytes < 2 ^ 16
    → Ensures
        (λ p. (p.0 ≡ false) × (p.1.heap ≡ block ∷ block ∷ d.heap))
        (transport_pserial_send true (some block) bytes (length bytes) d)
unfolding transport_pserial_send pserial_write serial_drv_write
double_free d hdl s t block bytes ops low place up down fits =
    let size : (12 + length bytes) % 2 ^ 16 ≡ 12 + length bytes = omega arith in
    rw
      (
        size,
        compose_tlv_lem bytes fits,
        ne→== (12 + length bytes) 0 (λ (e : 12 + length bytes ≡ 0). absurd (omega arith)),
        ops,
        low,
        refused_lem hdl s t block bytes d.heap place up down,
      )
      (_, refl, (refl, refl))
