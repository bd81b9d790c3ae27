-- ===== src/Serial/Ll/Lifecycle.antt =====
-- Opening, closing, reading and writing a serial interface, and the table of functions that the
-- serial driver uses. A handle is named by its place in `interface_handle_g`. `esp_hosted_tx` of
-- the transport in use is a parameter.
use rt_thread_esp_hosted.Common.{
  ℕ, ◌+◌, ◌-◌, Bool, false, Option, none, some, [], ◌∷◌, if◌then◌else◌, ◌==◌, ltb, not, ◌>>=◌,
  Buffer, Heap,
}
use rt_thread_esp_hosted.Adapter.{BufHandle, esp_serial_if}
use rt_thread_esp_hosted.Serial.Drv.{LlOps, Ret, ret_ok, ret_fail}
use rt_thread_esp_hosted.Serial.Ll.{
  SerialLl, SerialLlHandle, init, active, destroy, is_active, interface_handle,
  set_interface_handle, max_serial_intf,
}

-- `serial_ll_init`: the place of the new handle, or `none` for NULL. `block` answers the
-- allocation.
unfoldable pub serial_ll_init : Bool → Option ℕ → SerialLl → Option ℕ × SerialLl
serial_ll_init callback block s =
    if ltb (s.conn_num + 1) max_serial_intf
    then elim block [
      | none ↦ (none, s)
      | some b ↦
          let hdl : SerialLlHandle = record {
            block = b;
            queue = none;
            if_type = esp_serial_if;
            if_num = s.conn_num;
            state = init;
            serial_rx_callback = callback;
          } in
          (
            some s.conn_num,
            record (set_interface_handle s.conn_num (some hdl) s) { conn_num = s.conn_num + 1 },
          )
    ]
    else (none, s)

-- `serial_ll_close`. The place that is reset is the last one in use; the handle's block is freed.
unfoldable pub serial_ll_close : ℕ → SerialLl → Option (Ret × SerialLl)
serial_ll_close i s = elim (interface_handle s i) [
  | none ↦ none
  | some hdl ↦
      let s' = set_interface_handle i (some (record hdl { state = destroy; queue = none })) s in
      let s'' =
        if ltb 0 s'.conn_num
        then (record (set_interface_handle (s'.conn_num - 1) none s') {
          conn_num = s'.conn_num - 1;
        })
        else s' in
      some (ret_ok, record s'' { heap = hdl.block ∷ s''.heap })
]

-- `serial_ll_open`: `created` is the answer of the queue's creation; an earlier queue is
-- destroyed with what it holds.
unfoldable pub serial_ll_open : Bool → ℕ → SerialLl → Option (Ret × SerialLl)
unfolding serial_ll_close
serial_ll_open created i s = elim (interface_handle s i) [
  | none ↦ some (ret_fail, s)
  | some hdl ↦
      if created
      then some
          (ret_ok, set_interface_handle i (some (record hdl { state = active; queue = some [] })) s)
      else (serial_ll_close i (set_interface_handle i (some (record hdl { queue = none })) s)
          >>= λ r. some (ret_fail, r.1))
]

-- What a message in the queue gives to the reader: its block, unless it is NULL or empty.
unfoldable pub payload_of : BufHandle → Option Buffer × ℕ
payload_of h = elim h.priv_buffer_handle [
  | none ↦ (none, 0)
  | some block ↦
      if h.payload_len == 0
      then (none, 0)
      else (some (record { ident = block; bytes = h.payload }), h.payload_len)
]

-- `serial_ll_read`: the buffer and `*rlen`. On an empty queue the call waits without end, `none`.
unfoldable pub serial_ll_read : ℕ → SerialLl → Option (Option Buffer × ℕ × SerialLl)
unfolding payload_of
serial_ll_read i s = elim (interface_handle s i) [
  | none ↦ some (none, 0, s)
  | some hdl ↦ if not (is_active hdl.state) then some (none, 0, s) else elim hdl.queue [
    | none ↦ none
    | some [] ↦ none
    | some (h ∷ q) ↦
        let (b, n) = payload_of h in
        some (b, n, set_interface_handle i (some (record hdl { queue = some q })) s)
  ]
]

module _ {T : Type 0}
    (esp_hosted_tx : ℕ → ℕ → Buffer → ℕ → Bool → T → Heap → Option (Ret × T × Heap)) where
  unfoldable pub serial_ll_write :
      ℕ → Buffer → ℕ → SerialLl × T → Heap → Option (Ret × (SerialLl × T) × Heap)
  serial_ll_write i wbuffer wlen (s, t) heap = elim (interface_handle s i) [
    | none ↦ some (ret_fail, (s, t), heap)
    | some hdl ↦
        if not (is_active hdl.state)
        then some (ret_fail, (s, t), heap)
        else (esp_hosted_tx hdl.if_type hdl.if_num wbuffer wlen false t heap >>= λ r.
            some (r.0, (s, r.1), r.2))
  ]

  -- `serial_ll_fops`, for the handle at place `i`.
  abbrev pub serial_ll_fops : ℕ → LlOps (SerialLl × T)
  serial_ll_fops i = record {
    write = serial_ll_write i;
    read = λ st heap. serial_ll_read i st.0 >>= λ r. some (r.0, r.1, (r.2, st.1), heap);
  }
