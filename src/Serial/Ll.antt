-- ===== src/Serial/Ll.antt =====
-- The serial low-level interface, esp-hosted/host/drivers/serial/serial_ll_if.c. Queues are
-- lists, oldest first. The answers of the allocator, of the queue and the bytes behind a block
-- that grows are arguments.
pub mod Fragment
pub mod Reassembly
pub mod Failure
pub mod Lifecycle
pub mod Delivery
use rt_thread_esp_hosted.Common.{
  ℕ, ◌+◌, ◌-◌, ◌%◌, ◌^◌, Bool, true, false, Option, none, some, List, [], ◌∷◌, ◌++◌, if◌then◌else◌,
  ◌==◌, ◌&&◌, ltb, not, ◌>>=◌, Buffer, Heap, slice, copy_to, get_elem?,
}
use rt_thread_esp_hosted.Adapter.{BufHandle, esp_serial_if}
use rt_thread_esp_hosted.Port.{Allocator, hosted_realloc}

pub data SerialLlState : Type 0 where
  init active destroy : SerialLlState

abbrev pub is_active : SerialLlState → Bool
is_active active = true
is_active _ = false

-- `serial_ll_handle_t`, in the block with the number `block`: the queue is `none` for NULL.
pub record SerialLlHandle : Type 0 where
  pub block : ℕ
  pub queue : Option (List BufHandle)
  pub if_type : ℕ
  pub if_num : ℕ
  pub state : SerialLlState
  pub serial_rx_callback : Bool

-- A pointer to a block: a freed block that is still pointed to is `dangling`.
pub data Ptr : Type 0 where
  null : Ptr
  live : Buffer → Ptr
  dangling : ℕ → Ptr

abbrev pub of_option : Option Buffer → Ptr
of_option none = null
of_option (some b) = live b

-- The static variables: the two places of `interface_handle_g`, `conn_num` and `r`; `callbacks`
-- counts the calls of `serial_rx_callback`.
pub record SerialLl : Type 0 where
  pub interface0 : Option SerialLlHandle
  pub interface1 : Option SerialLlHandle
  pub conn_num : ℕ
  pub r_len : ℕ
  pub r_data : Ptr
  pub heap : Heap
  pub callbacks : ℕ

abbrev pub max_serial_intf : ℕ
max_serial_intf = 2

-- `interface_handle_g[i]`, and an assignment to it
abbrev pub interface_handle : SerialLl → ℕ → Option SerialLlHandle
interface_handle s i = if i == 0 then s.interface0 else if i == 1 then s.interface1 else none

abbrev pub set_interface_handle : ℕ → Option SerialLlHandle → SerialLl → SerialLl
set_interface_handle i h s =
    if i == 0
    then record s { interface0 = h }
    else if i == 1
    then record s { interface1 = h }
    else s

-- `MORE_FRAGMENT` is the lowest bit of the flags.
abbrev pub more_fragment : BufHandle → Bool
more_fragment b = b.flag % 2 == 1

abbrev pub if_active : SerialLlHandle → Option SerialLlHandle
if_active h = if is_active h.state then some h else none

unfoldable pub get_serial_ll_handle : SerialLl → ℕ → Option SerialLlHandle
get_serial_ll_handle s iface_num =
    if ltb iface_num max_serial_intf then (interface_handle s iface_num >>= if_active) else none

-- `H_FREE_PTR_WITH_FUNC(free_buf_handle, priv_buffer_handle)`
abbrev pub free_with_func : BufHandle → Heap → BufHandle × Heap
free_with_func b heap =
    if b.free_buf_handle
    then elim b.priv_buffer_handle [
      | none ↦ (b, heap)
      | some block ↦ (record b { priv_buffer_handle = none }, block ∷ heap)
    ]
    else (b, heap)

-- `_h_free(r.data)`, which leaves the pointer as it is: a second free of a block is a fault.
unfoldable pub free_r_data : SerialLl → Option SerialLl
free_r_data s = elim s.r_data [
  | null ↦ some s
  | live b ↦ some (record s { r_data = dangling b.ident; heap = b.ident ∷ s.heap })
  | dangling b ↦ none
]

-- The label `serial_buff_cleanup`. The second handle is `new_buf_handle`, `none` while it is
-- zero.
unfoldable pub serial_buff_cleanup :
    BufHandle → Option BufHandle → SerialLl → Option (Bool × BufHandle × SerialLl)
unfolding free_r_data
serial_buff_cleanup b none s =
    let (b', heap) = free_with_func b s.heap in
    free_r_data (record s { heap = heap; r_len = 0 }) >>= λ s'. some (false, b', s')
serial_buff_cleanup b (some new) s =
    let (b', heap) = free_with_func b s.heap in
    let (new', heap') = free_with_func new heap in
    free_r_data (record s { heap = heap'; r_len = 0 }) >>= λ s'. some (false, b', s')

-- The macro `SERIAL_ALLOC_REALLOC_RDATA`, without its jump: `r.data` is NULL after a failure.
unfoldable pub serial_alloc_realloc_rdata : Allocator → List ℕ → ℕ → SerialLl → Option SerialLl
serial_alloc_realloc_rdata malloc beyond payload_len s = elim s.r_data [
  | null ↦ some (record s { r_data = of_option (malloc payload_len) })
  | live b ↦ hosted_realloc malloc beyond b (s.r_len + payload_len) s.heap >>= λ r.
      some (record s { r_data = of_option r.0; heap = r.1 })
  | dangling b ↦ none
]

-- `memcpy(r.data + r.len, payload, payload_len); r.len += payload_len;` with `r.data` at `b`
unfoldable pub store_fragment : BufHandle → Buffer → SerialLl → Option (Buffer × SerialLl)
store_fragment h b s = do
  src ← slice h.payload 0 h.payload_len
  bytes ← copy_to b.bytes s.r_len src
  let b' = record b { bytes = bytes }
  some (b', record s { r_data = live b'; r_len = s.r_len + h.payload_len })

-- `new_buf_handle`; its `payload_len` is a `uint16_t`.
unfoldable pub serial_msg_handle : BufHandle → Buffer → ℕ → BufHandle
serial_msg_handle h serial_buf len = record {
  priv_buffer_handle = some serial_buf.ident;
  if_type = esp_serial_if;
  if_num = h.if_num;
  payload = serial_buf.bytes;
  flag = 0;
  payload_len = len % 2 ^ 16;
  seq_num = 0;
  payload_zcopy = false;
  free_buf_handle = true;
}

-- From the queueing of the new handle on.
unfoldable pub deliver :
    Bool → BufHandle → BufHandle → SerialLlHandle → SerialLl → Option (Bool × BufHandle × SerialLl)
unfolding serial_buff_cleanup
deliver queue_ok h new hdl s = elim hdl.queue [
  | none ↦ none
  | some q ↦
      let sent =
        set_interface_handle h.if_num (some (record hdl { queue = some (q ++ new ∷ []) })) s in
      if not queue_ok
      then serial_buff_cleanup h (some new) s
      else if hdl.serial_rx_callback
      then some (true, h, record sent { callbacks = sent.callbacks + 1 })
      else serial_buff_cleanup h (some new) sent
]

-- The last fragment: the message is copied into a block of its own and `r` is cleared.
unfoldable pub last_fragment :
    Allocator
    → Bool
    → BufHandle
    → SerialLlHandle
    → Buffer
    → SerialLl
    → Option (Bool × BufHandle × SerialLl)
unfolding serial_buff_cleanup serial_msg_handle deliver
last_fragment malloc queue_ok h hdl b s = elim (malloc s.r_len) [
  | none ↦ serial_buff_cleanup h none s
  | some block ↦ do
    src ← slice b.bytes 0 s.r_len
    bytes ← copy_to block.bytes 0 src
    let new = serial_msg_handle h (record block { bytes = bytes }) s.r_len
    deliver queue_ok h new hdl (record s { r_len = 0; r_data = null; heap = b.ident ∷ s.heap })
]

-- Once the handle is known: accumulate the fragment, and deliver after the last one.
unfoldable pub rx_fragment :
    Allocator
    → List ℕ
    → Bool
    → BufHandle
    → SerialLlHandle
    → SerialLl
    → Option (Bool × BufHandle × SerialLl)
unfolding serial_alloc_realloc_rdata store_fragment serial_buff_cleanup last_fragment
rx_fragment malloc beyond queue_ok h hdl s = do
  s ← serial_alloc_realloc_rdata malloc beyond h.payload_len s
  elim s.r_data [
    | live b ↦ do
      r ← store_fragment h b s
      if more_fragment h then some (true, h, r.1) else last_fragment malloc queue_ok h hdl r.0 r.1
    | _ ↦ serial_buff_cleanup h none s
  ]

-- The status, the caller's handle after the call and the state. NULL is dereferenced at the
-- cleanup.
unfoldable pub serial_ll_rx_handler :
    Allocator → List ℕ → Bool → Option BufHandle → SerialLl → Option (Bool × BufHandle × SerialLl)
unfolding get_serial_ll_handle rx_fragment serial_buff_cleanup
serial_ll_rx_handler malloc beyond queue_ok none s = none
serial_ll_rx_handler malloc beyond queue_ok (some h) s =
    if h.payload_len == 0
    then serial_buff_cleanup h none s
    else elim (get_serial_ll_handle s h.if_num) [
      | none ↦ serial_buff_cleanup h none s
      | some hdl ↦ rx_fragment malloc beyond queue_ok h hdl s
    ]
