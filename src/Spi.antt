-- ===== src/Spi.antt =====
-- The host's SPI driver, esp-hosted/host/drivers/transport/spi/spi_drv.c: its state and the
-- sending side. Queues are lists, oldest first; whether a queue takes an element, and the block
-- that an allocation gives, are arguments. The statistics and debug pins are left out.
pub mod Rx
pub mod Transaction
pub mod Frame
pub mod RoundTrip
use rt_thread_esp_hosted.Common.{
  ℕ, ◌+◌, ◌-◌, ◌%◌, ◌^◌, Bool, true, false, Option, none, some, List, [], ◌∷◌, ◌++◌, if◌then◌else◌,
  ◌==◌, ◌||◌, ltb, leb, not, ◌>>=◌, load, slice, copy_to, store, replicate, Buffer, Heap,
}
use rt_thread_esp_hosted.Adapter.{BufHandle, esp_serial_if, esp_hci_if}
use rt_thread_esp_hosted.Adapter.Header.{
  header_size, store16, store_if_type, store_if_num, compute_checksum,
}

abbrev pub max_spi_buffer_size : ℕ
max_spi_buffer_size = 1600

abbrev pub max_payload_size : ℕ
max_payload_size = 1588

-- The queues of the three priorities, PRIO_Q_SERIAL, PRIO_Q_BT and PRIO_Q_OTHERS.
pub record Queues : Type 0 where
  pub serial : List BufHandle
  pub bt : List BufHandle
  pub others : List BufHandle

-- The static variables. A semaphore is its value; `transport_state` is that of transport_drv.c.
pub record Spi : Type 0 where
  pub transport_state : ℕ
  pub to_slave_queue : Queues
  pub from_slave_queue : Queues
  pub sem_to_slave_queue : ℕ
  pub sem_from_slave_queue : ℕ
  pub spi_trans_ready_sem : ℕ
  pub schedule_dummy_tx : Bool
  pub schedule_dummy_rx : Bool
  pub data_ready_pending : Bool
  pub wifi_tx_throttling : ℕ
  pub heap : Heap

abbrev pub is_transport_tx_ready : Spi → Bool
is_transport_tx_ready s = leb 2 s.transport_state

-- Put at the end of the queue of the interface's priority.
unfoldable pub enqueue : BufHandle → Queues → Queues
enqueue h q =
    if h.if_type == esp_serial_if
    then record q { serial = q.serial ++ h ∷ [] }
    else if h.if_type == esp_hci_if
    then record q { bt = q.bt ++ h ∷ [] }
    else record q { others = q.others ++ h ∷ [] }

-- The three nested calls of `_h_dequeue_item` without a wait.
unfoldable pub dequeue_others : List BufHandle → Queues → Option (BufHandle × Queues)
dequeue_others [] q = none
dequeue_others (h ∷ r) q = some (h, record q { others = r })

unfoldable pub dequeue_bt : List BufHandle → Queues → Option (BufHandle × Queues)
unfolding dequeue_others
dequeue_bt [] q = dequeue_others q.others q
dequeue_bt (h ∷ r) q = some (h, record q { bt = r })

unfoldable pub dequeue_serial : List BufHandle → Queues → Option (BufHandle × Queues)
unfolding dequeue_bt
dequeue_serial [] q = dequeue_bt q.bt q
dequeue_serial (h ∷ r) q = some (h, record q { serial = r })

unfoldable pub dequeue : Queues → Option (BufHandle × Queues)
unfolding dequeue_serial
dequeue q = dequeue_serial q.serial q

-- `H_FREE_PTR_WITH_FUNC` on a handle: the handle after it, and the heap.
unfoldable pub free_handle : BufHandle → Heap → BufHandle × Heap
free_handle h heap =
    if h.free_buf_handle
    then elim h.priv_buffer_handle [
      | none ↦ (h, heap)
      | some block ↦ (record h { priv_buffer_handle = none }, block ∷ heap)
    ]
    else (h, heap)

-- `interface_buffer_handle_t` as `esp_hosted_tx` fills it; what it leaves is zero.
unfoldable pub tx_handle : ℕ → ℕ → Buffer → ℕ → Bool → Bool → BufHandle
tx_handle iface_type iface_num wbuffer wlen zcopy free_fun = record {
  priv_buffer_handle = some wbuffer.ident;
  if_type = iface_type;
  if_num = iface_num;
  payload = wbuffer.bytes;
  flag = 0;
  payload_len = wlen;
  seq_num = 0;
  payload_zcopy = zcopy;
  free_buf_handle = free_fun;
}

-- `esp_hosted_tx`: true is STM_OK. A NULL `wbuffer` is `none`.
unfoldable pub esp_hosted_tx : Bool → ℕ → ℕ → Option Buffer → ℕ → Bool → Bool → Spi → Bool × Spi
unfolding tx_handle enqueue free_handle
esp_hosted_tx queue_ok iface_type iface_num none wlen zcopy free_fun s = (false, s)
esp_hosted_tx queue_ok iface_type iface_num (some wbuffer) wlen zcopy free_fun s =
    let h = tx_handle iface_type iface_num wbuffer wlen zcopy free_fun in
    if wlen == 0 || ltb max_payload_size wlen || not (is_transport_tx_ready s) || not queue_ok
    then (false, record s { heap = (free_handle h s.heap).1 })
    else (
      true,
      record s {
        to_slave_queue = enqueue h s.to_slave_queue;
        sem_to_slave_queue = s.sem_to_slave_queue + 1;
        spi_trans_ready_sem = s.spi_trans_ready_sem + 1;
      },
    )

-- `*free_func` of `get_next_tx_buffer`
pub data FreeFunc : Type 0 where
  free_null free_spi free_handle_func : FreeFunc

-- A buffer with its `sendbuf`, and the length that the checksum covers.
abbrev pub Frame : Type 0
Frame = List ℕ × ℕ

-- The four header fields that every frame gets.
unfoldable pub form_header : BufHandle → ℕ → List ℕ → Option (List ℕ)
form_header h len b = do
  b ← store16 b 2 len
  b ← store16 b 4 header_size
  b ← store_if_type b h.if_type
  store_if_num b h.if_num

-- The payload behind the header. An HCI packet's first byte goes into the header.
unfoldable pub form_payload : BufHandle → ℕ → List ℕ → Option Frame
form_payload h len b =
    if h.payload_zcopy
    then some (b, len)
    else if h.if_type % 16 == esp_hci_if
    then (do
      t ← load h.payload 0
      b ← store b 11 t
      b ← store16 b 2 (len - 1)
      src ← slice h.payload 1 (len - 1)
      b ← copy_to b header_size src
      some (b, len - 1))
    else (do
      src ← slice h.payload 0 (if ltb max_payload_size len then max_payload_size else len)
      b ← copy_to b header_size src
      some (b, len))

-- Header, payload and checksum.
unfoldable pub form_frame : BufHandle → ℕ → List ℕ → Option Frame
unfolding form_header form_payload
form_frame h len b = do
  b ← form_header h len b
  f ← form_payload h len b
  checksum ← compute_checksum f.0 ((header_size + f.1) % 2 ^ 16)
  b ← store16 f.0 6 checksum
  some (b, f.1)

-- The handle's payload is copied into a buffer of the pool, and freed, if a payload is left to
-- send. `block` answers `spi_buffer_alloc`, which zeroes the buffer; NULL fails an assertion.
unfoldable pub send_copied :
    Option ℕ → BufHandle → Spi → Option (Option Buffer × Bool × FreeFunc × Spi)
send_copied none h s = none
send_copied (some sendbuf) h s =
    form_frame h h.payload_len (replicate max_spi_buffer_size 0) >>= λ f. some (
      some (record { ident = sendbuf; bytes = f.0 }),
      true,
      free_spi,
      record s { heap = if f.1 == 0 then s.heap else (free_handle h s.heap).1 },
    )

-- The handle's payload has room for the header in front, and is sent itself.
unfoldable pub send_zcopy : BufHandle → Spi → Option (Option Buffer × Bool × FreeFunc × Spi)
send_zcopy h s = elim h.priv_buffer_handle [
  | none ↦ some (none, false, free_null, s)
  | some payload ↦ form_frame h h.payload_len h.payload >>= λ f. some (
    some (record { ident = payload; bytes = f.0 }),
    true,
    if h.free_buf_handle then free_handle_func else free_null,
    s,
  )
]

-- The buffer to send with its free function, once the handle `h` with a payload has been taken.
unfoldable pub send_handle :
    Option ℕ → BufHandle → Spi → Option (Option Buffer × Bool × FreeFunc × Spi)
unfolding send_copied send_zcopy
send_handle block h s = if h.payload_zcopy then send_zcopy h s else send_copied block h s

-- The buffer, `*is_valid_tx_buf`, `*free_func` and the state.
unfoldable pub get_next_tx_buffer : Option ℕ → Spi → Option (Option Buffer × Bool × FreeFunc × Spi)
get_next_tx_buffer block s =
    if s.sem_to_slave_queue == 0
    then some (none, false, free_null, s)
    else elim (dequeue s.to_slave_queue) [
      | none ↦
          some (none, false, free_null, record s { sem_to_slave_queue = s.sem_to_slave_queue - 1 })
      | some (h, q) ↦
          let s' = record s { sem_to_slave_queue = s.sem_to_slave_queue - 1; to_slave_queue = q } in
          if h.payload_len == 0 then some (none, false, free_null, s') else send_handle block h s'
    ]
