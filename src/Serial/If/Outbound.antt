-- ===== src/Serial/If/Outbound.antt =====
-- The sending path as a whole, from `transport_pserial_send` of
-- esp-hosted/host/drivers/virtual_serial_if/serial_if.c to the SPI frame that the other side
-- takes.
use rt_thread_esp_hosted.Common.{
  ℕ, ◌+◌, ◌%◌, ◌^◌, ◌≤◌, ◌≡◌, refl, sym, ◌∙◌, ap, Bool, true, false, Option, some, List, [], ◌∷◌,
  ◌++◌, arith, if◌then◌else◌, leb, length, Buffer, Heap, ne→==, le→ltb, length-append, take_all,
}
use rt_thread_esp_hosted.Adapter.{BufHandle, esp_serial_if}
use rt_thread_esp_hosted.Spi.{
  Spi, Queues, free_spi, esp_hosted_tx, tx_handle, enqueue, get_next_tx_buffer, dequeue,
  dequeue_serial, free_handle,
}
use rt_thread_esp_hosted.Spi.Rx.{process_spi_rx_buf, rx_ok}
use rt_thread_esp_hosted.Spi.RoundTrip.{spi_roundtrip, received, after_rx}
use rt_thread_esp_hosted.Serial.Tlv.{rpc_ep_name_rsp}
use rt_thread_esp_hosted.Serial.Tlv.RoundTrip.{compose_tlv_lem, tlv_frame, tlv_prefix}
use rt_thread_esp_hosted.Serial.Drv.{SerialDrv, LlOps, Ret, ret_ok, ret_fail, serial_drv_write}
use rt_thread_esp_hosted.Serial.Ll.{SerialLl, SerialLlHandle, active}
use rt_thread_esp_hosted.Serial.Ll.Lifecycle.{serial_ll_fops, serial_ll_write}
use rt_thread_esp_hosted.Serial.If.{transport_pserial_send, pserial_write}

-- `esp_hosted_tx` of the SPI driver, as the serial interface calls it: with the free function of
-- the port, and the heap of its caller.
abbrev pub spi_tx : Bool → ℕ → ℕ → Buffer → ℕ → Bool → Spi → Heap → Option (Ret × Spi × Heap)
spi_tx queue_ok ty num b wlen zcopy t heap =
    let r = esp_hosted_tx queue_ok ty num (some b) wlen zcopy true (record t { heap = heap }) in
    some (if r.0 then ret_ok else ret_fail, r.1, r.1.heap)

abbrev pub spi_fops : Bool → LlOps (SerialLl × Spi)
spi_fops queue_ok = serial_ll_fops (spi_tx queue_ok) 0

-- The packet that carries a message, in the block `block`.
abbrev pub packet_of : ℕ → List ℕ → BufHandle
packet_of block bytes =
    tx_handle esp_serial_if 0 (record { ident = block; bytes = tlv_frame rpc_ep_name_rsp bytes })
      (12 + length bytes) false true

-- The transport's state with the message queued.
abbrev pub queued : ℕ → List ℕ → Spi → Heap → Spi
queued block bytes t heap = record t {
  to_slave_queue = enqueue (packet_of block bytes) t.to_slave_queue;
  sem_to_slave_queue = t.sem_to_slave_queue + 1;
  spi_trans_ready_sem = t.spi_trans_ready_sem + 1;
  heap = heap;
}

spi_tx_lem :
    (t : Spi) (block : ℕ) (bytes : List ℕ) (heap : Heap)
    → leb 2 t.transport_state ≡ true
    → 12 + length bytes ≤ 1588
    → esp_hosted_tx true esp_serial_if 0
        (some (record { ident = block; bytes = tlv_frame rpc_ep_name_rsp bytes }))
        (12 + length bytes)
        false
        true
        (record t { heap = heap })
      ≡ (true, queued block bytes t heap)
unfolding esp_hosted_tx
spi_tx_lem t block bytes heap ready fits = rw (
  ne→== (12 + length bytes) 0 (λ (e : 12 + length bytes ≡ 0). absurd (omega arith)),
  le→ltb 1588 (12 + length bytes) fits,
  ready,
)

write_lem :
    (hdl : SerialLlHandle) (s : SerialLl) (t : Spi) (block : ℕ) (bytes : List ℕ) (heap : Heap)
    → s.interface0 ≡ some hdl
    → hdl.state ≡ active
    → hdl.if_type ≡ esp_serial_if
    → hdl.if_num ≡ 0
    → leb 2 t.transport_state ≡ true
    → 12 + length bytes ≤ 1588
    → (spi_fops true).write
        (record { ident = block; bytes = tlv_frame rpc_ep_name_rsp bytes })
        (12 + length bytes)
        (s, t)
        heap
      ≡ some (ret_ok, (s, queued block bytes t heap), heap)
unfolding serial_ll_write
write_lem hdl s t block bytes heap place up ty num ready fits =
    simp (place, up, ty, num, spi_tx_lem t block bytes heap ready fits)

-- The state of the driver after the message has been queued.
abbrev pub out_state :
    SerialDrv (SerialLl × Spi) → SerialLl → Spi → ℕ → List ℕ → SerialDrv (SerialLl × Spi)
out_state d s t block bytes = record d { low = (s, queued block bytes t d.heap) }

-- A message that fits into one packet, for which a buffer is allocated, sent through the
-- interface 0 of the serial type, which is up, while the transport may send: it is put last into
-- the queue of the serial interface in its envelope, and the SPI task is called.
transport_pserial_send_lem :
    (d : SerialDrv (SerialLl × Spi)) (hdl : SerialLlHandle) (s : SerialLl) (t : Spi) (block : ℕ)
    (bytes : List ℕ)
    → d.serial_ll_if ≡ some (spi_fops true)
    → d.low ≡ (s, t)
    → s.interface0 ≡ some hdl
    → hdl.state ≡ active
    → hdl.if_type ≡ esp_serial_if
    → hdl.if_num ≡ 0
    → leb 2 t.transport_state ≡ true
    → 12 + length bytes ≤ 1588
    → transport_pserial_send true (some block) bytes (length bytes) d
      ≡ some (true, out_state d s t block bytes)
unfolding transport_pserial_send pserial_write serial_drv_write
transport_pserial_send_lem d hdl s t block bytes ops low place up ty num ready fits =
    let size : (12 + length bytes) % 2 ^ 16 ≡ 12 + length bytes = omega arith in
    rw (
      size,
      compose_tlv_lem bytes (omega arith),
      ne→== (12 + length bytes) 0 (λ (e : 12 + length bytes ≡ 0). absurd (omega arith)),
      ops,
      low,
      write_lem hdl s t block bytes d.heap place up ty num ready fits,
      ops,
    )

next_lem :
    (block : ℕ) (bytes : List ℕ) (q : Queues)
    → q.serial ≡ []
    → dequeue (enqueue (packet_of block bytes) q)
      ≡ some (packet_of block bytes, record q { serial = [] })
unfolding dequeue dequeue_serial enqueue tx_handle
next_lem block bytes q e = rw e

-- A message with its envelope fits into one packet, a buffer is allocated for it, the interface 0
-- is a serial one and up, the transport may send, and its queue of serial packets is empty. Then
-- `transport_pserial_send` succeeds, the next buffer of the SPI task is a frame, the message's
-- own buffer is freed once, and the frame in any receive buffer is accepted by a receiver: the
-- handle that it queues holds the message in its envelope, followed by padding.
pub outbound :
    (d : SerialDrv (SerialLl × Spi)) (hdl : SerialLlHandle) (s : SerialLl) (t r : Spi)
    (block sendbuf rxb : ℕ) (bytes : List ℕ)
    → d.serial_ll_if ≡ some (spi_fops true)
    → d.low ≡ (s, t)
    → s.interface0 ≡ some hdl
    → hdl.state ≡ active
    → hdl.if_type ≡ esp_serial_if
    → hdl.if_num ≡ 0
    → leb 2 t.transport_state ≡ true
    → 12 + length bytes ≤ 1588
    → t.to_slave_queue.serial ≡ []
    → (frame : List ℕ) × (padding : List ℕ) × (t' : Spi) × (transport_pserial_send true
          (some block)
          bytes
          (length bytes)
          d
        ≡ some (true, out_state d s t block bytes))
      × (get_next_tx_buffer (some sendbuf) (queued block bytes t d.heap)
          ≡ some (some (record { ident = sendbuf; bytes = frame }), true, free_spi, t'))
      × (t'.heap ≡ block ∷ d.heap)
      × (process_spi_rx_buf true (some (record { ident = rxb; bytes = frame })) r
          ≡ some (
            rx_ok,
            after_rx r
                (received (packet_of block bytes) rxb (tlv_frame rpc_ep_name_rsp bytes ++ padding)),
          ))
unfolding free_handle tx_handle
outbound d hdl s t r block sendbuf rxb bytes ops low place up ty num ready fits empty =
    let n = length bytes in
    let framed : length (tlv_frame rpc_ep_name_rsp bytes) ≡ 12 + n =
      length-append (tlv_prefix rpc_ep_name_rsp n) bytes in
    let (frame, padding, built, taken) =
      spi_roundtrip (packet_of block bytes) (record t.to_slave_queue { serial = [] })
        (queued block bytes t d.heap) r sendbuf rxb
        (λ (e : t.sem_to_slave_queue + 1 ≡ 0). absurd (omega arith))
        (next_lem block bytes t.to_slave_queue empty)
        (
          refl,
          omega arith,
          omega arith,
          omega arith,
          (λ (e : 12 + n ≡ 0). absurd (omega arith)),
          fits,
          omega (arith, framed),
        ) in
    (
      frame,
      padding,
      _,
      transport_pserial_send_lem d hdl s t block bytes ops low place up ty num ready fits,
      built,
      refl,
      taken
          ∙ ap (λ p. some (rx_ok, after_rx r (received (packet_of block bytes) rxb (p ++ padding))))
              (take_all (tlv_frame rpc_ep_name_rsp bytes) (12 + n) (sym framed)),
    )
