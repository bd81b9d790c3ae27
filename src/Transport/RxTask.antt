-- ===== src/Transport/RxTask.antt =====
-- The receiving task of the host, `spi_process_rx_task` of
-- esp-hosted/host/drivers/transport/spi/spi_drv.c, with the handlers it calls. Bluetooth is the
-- stub of bt/hci_stub_drv.c, whose `hci_rx_handler` does nothing.
pub mod Ownership
pub mod Connect
use rt_thread_esp_hosted.Common.{
  ℕ, ◌-◌, Bool, true, false, Option, none, some, List, [], ◌∷◌, ◌++◌, if◌then◌else◌, ◌==◌, ◌||◌,
  ◌>>=◌, load, slice, copy_to, Buffer, Heap,
}
use rt_thread_esp_hosted.Adapter.{BufHandle, esp_sta_if, esp_ap_if, esp_serial_if, esp_priv_if}
use rt_thread_esp_hosted.Port.{Allocator}
use rt_thread_esp_hosted.Spi.{Spi, Queues, dequeue, free_handle}
use rt_thread_esp_hosted.Serial.Ll.{SerialLl, serial_ll_rx_handler}
use rt_thread_esp_hosted.Transport.Init.{HostConfig, Transport, process_priv_communication}

-- A call of a channel's `rx`: the interface, the copied block and the length.
pub record RxCall : Type 0 where
  pub if_type : ℕ
  pub copy_payload : Buffer
  pub len : ℕ

-- The transport with the SPI driver, whose heap is the heap of all; the serial interfaces; and
-- the calls of the channels' `rx`, newest first.
pub record Host : Type 0 where
  pub transport : Transport
  pub serial : SerialLl
  pub calls : List RxCall

abbrev pub with_spi : Spi → Host → Host
with_spi s host = record host { transport = record host.transport { spi = s } }

abbrev pub with_heap : Heap → Host → Host
with_heap heap host = with_spi (record host.transport.spi { heap = heap }) host

-- What the round meets: what malloc answers to the serial interface, what lies behind a block it
-- grows, and whether its queue takes the message; the block for a copy; which interfaces have a
-- channel with an `rx`, and whether that returns 0; and for the answer to the init event the
-- constants, the block and whether its queue takes it.
pub record RxEnv : Type 0 where
  pub malloc : Allocator
  pub beyond : List ℕ
  pub serial_ok : Bool
  pub copy : Option Buffer
  pub has_rx : ℕ → Bool
  pub rx_returns_0 : RxCall → Bool
  pub config : HostConfig
  pub sendbuf : Option Buffer
  pub tx_ok : Bool

-- `serial_rx_handler`
unfoldable pub rx_serial : RxEnv → BufHandle → Host → Option (BufHandle × Host)
rx_serial env h host =
    serial_ll_rx_handler env.malloc env.beyond env.serial_ok (some h)
      (record host.serial { heap = host.transport.spi.heap })
    >>= λ r. some (r.1, with_heap r.2.heap (record host { serial = r.2 }))

-- The call of `rx` with the copy, which is freed here if `rx` fails.
unfoldable pub rx_call : RxEnv → BufHandle → Buffer → Host → Host
rx_call env h copy_payload host =
    let call : RxCall = record {
      if_type = h.if_type;
      copy_payload = copy_payload;
      len = h.payload_len;
    } in
    let called = record host { calls = call ∷ host.calls } in
    if env.rx_returns_0 call
    then called
    else with_heap (copy_payload.ident ∷ host.transport.spi.heap) called

-- A packet for the network: it is copied, and its buffer freed before the call.
unfoldable pub rx_copied : RxEnv → BufHandle → Option Buffer → Host → Option (BufHandle × Host)
rx_copied env h none host = none
rx_copied env h (some copy) host = do
  src ← slice h.payload 0 h.payload_len
  bytes ← copy_to copy.bytes 0 src
  let freed = free_handle h host.transport.spi.heap
  some (freed.0, rx_call env h (record copy { bytes = bytes }) (with_heap freed.1 host))

unfoldable pub rx_network : RxEnv → BufHandle → Host → Option (BufHandle × Host)
rx_network env h host =
    if env.has_rx h.if_type then rx_copied env h env.copy host else some (h, host)

-- A private packet; its first byte is looked at again behind the call.
unfoldable pub rx_priv : RxEnv → BufHandle → Host → Option (BufHandle × Host)
rx_priv env h host = do
  t ← process_priv_communication env.config env.tx_ok env.sendbuf h host.transport
  event_type ← load h.payload 0
  some (h, record host { transport = t })

-- The tests of the interface.
unfoldable pub rx_dispatch : RxEnv → BufHandle → Host → Option (BufHandle × Host)
rx_dispatch env h host =
    if h.if_type == esp_serial_if
    then rx_serial env h host
    else if (h.if_type == esp_sta_if) || (h.if_type == esp_ap_if)
    then rx_network env h host
    else if h.if_type == esp_priv_if
    then rx_priv env h host
    else some (h, host)

-- The end of the round: the buffer is freed unless it is to be kept.
unfoldable pub rx_end : BufHandle → Host → Host
rx_end h host =
    if h.payload_zcopy then host else with_heap (free_handle h host.transport.spi.heap).1 host

unfoldable pub rx_taken : RxEnv → Option (BufHandle × Queues) → Host → Option Host
rx_taken env none host = some host
rx_taken env (some (h, q)) host =
    rx_dispatch env h (with_spi (record host.transport.spi { from_slave_queue = q }) host) >>= λ r.
    some (rx_end r.0 r.1)

-- A round of the task. It waits while the semaphore is zero.
unfoldable pub rx_round : RxEnv → Host → Option Host
rx_round env host =
    let s = host.transport.spi in
    let s' : Spi = record s { sem_from_slave_queue = s.sem_from_slave_queue - 1 } in
    if s.sem_from_slave_queue == 0
    then some host
    else rx_taken env (dequeue s.from_slave_queue) (with_spi s' host)
