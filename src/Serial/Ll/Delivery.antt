-- ===== src/Serial/Ll/Delivery.antt =====
-- The receive path as a whole: from the packets that the bus delivers to the RPC message that
-- `serial_drv_read` returns.
use rt_thread_esp_hosted.Common.{
  ℕ, ◌+◌, ◌%◌, ◌^◌, ◌<◌, ◌≤◌, ◌≡◌, refl, ◌∙◌, ap, ◌⊎◌, ◌≢◌, Bool, true, false, Option, some, List,
  [], ◌∷◌, ◌++◌, arith, length, Buffer, Heap, length-append, ne→==,
}
use rt_thread_esp_hosted.Adapter.{BufHandle}
use rt_thread_esp_hosted.Port.{Allocator, IsAllocator}
use rt_thread_esp_hosted.Serial.Tlv.{rpc_ep_name_rsp, rpc_ep_name_evt}
use rt_thread_esp_hosted.Serial.Tlv.RoundTrip.{tlv_prefix, tlv_frame}
use rt_thread_esp_hosted.Serial.Drv.{SerialDrv, LlOps, Ret, serial_drv_read}
use rt_thread_esp_hosted.Serial.Drv.Read.{serial_drv_read-frame, length-tlv_prefix}
use rt_thread_esp_hosted.Serial.Ll.{
  SerialLl, SerialLlHandle, null, more_fragment, active, serial_msg_handle,
}
use rt_thread_esp_hosted.Serial.Ll.Reassembly.{receive_lem}
use rt_thread_esp_hosted.Serial.Ll.Fragment.{
  AreFragments, IsFragment, IsUp, message, receive, delivered,
}
use rt_thread_esp_hosted.Serial.Ll.Lifecycle.{serial_ll_fops, serial_ll_read, payload_of}

module _ {T : Type 0}
    (esp_hosted_tx : ℕ → ℕ → Buffer → ℕ → Bool → T → Heap → Option (Ret × T × Heap)) where
  abbrev fops : LlOps (SerialLl × T)
  fops = serial_ll_fops esp_hosted_tx 0

  -- The state behind the driver when the queue of interface 0 is empty again.
  abbrev pub drained : SerialLl → SerialLlHandle → Heap → SerialLl
  drained s hdl heap = record s {
    interface0 = some (record hdl { queue = some [] });
    r_len = 0;
    r_data = null;
    heap = heap;
    callbacks = s.callbacks + 1;
  }

  read_message :
      (h : BufHandle) (hdl : SerialLlHandle) (s : SerialLl) (t : T) (block : ℕ) (msg : List ℕ)
      (log heap : Heap)
      → hdl.state ≡ active
      → length msg < 2 ^ 16
      → length msg ≢ 0
      → fops.read
          (
            delivered s hdl []
                (serial_msg_handle h (record { ident = block; bytes = msg }) (length msg))
                log,
            t,
          )
          heap
        ≡ some
            (some (record { ident = block; bytes = msg }), length msg, (drained s hdl log, t), heap)
  unfolding serial_ll_read payload_of serial_msg_handle
  read_message h hdl s t block msg log heap up lt nz =
      let whole : length msg % 2 ^ 16 ≡ length msg = omega arith in
      rw (up, whole, ne→== (length msg) 0 nz)

  -- A message in the envelope of either endpoint, with data, and short enough for 16 bits,
  -- arrives in any number of packets on interface 0, which is up with nothing pending, a callback
  -- and an empty queue, while every allocation succeeds and 2 ^ 16 bytes behind a block can be
  -- read. Then the handler takes all packets with one callback, and the next `serial_drv_read`
  -- returns the data of the envelope in a block of its own with their number in `*out_nbyte`.
  pub delivery :
      (malloc : Allocator) (beyond : List ℕ) (hs : List BufHandle) (h : BufHandle)
      (hdl : SerialLlHandle) (s : SerialLl) (t : T) (d : SerialDrv (SerialLl × T))
      (name bytes : List ℕ) (units out b1 b2 : ℕ)
      → IsAllocator malloc
      → ((n : ℕ) → (b : Buffer) × (malloc n ≡ some b))
      → 2 ^ 16 ≤ length beyond
      → AreFragments hs
      → IsFragment h
      → more_fragment h ≡ false
      → h.if_num ≡ 0
      → IsUp s hdl []
      → s.r_data ≡ null
      → s.r_len ≡ 0
      → (name ≡ rpc_ep_name_rsp) ⊎ (name ≡ rpc_ep_name_evt)
      → message (hs ++ h ∷ []) ≡ tlv_frame name bytes
      → length bytes ≢ 0
      → 12 + length bytes < 2 ^ 16
      → d.serial_ll_if ≡ some fops
      → d.read_semaphore ≡ some units
      → (s' : SerialLl) × (d' : SerialDrv (SerialLl × T)) × (receive malloc beyond (hs ++ h ∷ []) s
          ≡ some s')
        × (serial_drv_read true out (some b1) (some b2) (record d { low = (s', t) })
            ≡ some (some (record { ident = b2; bytes = bytes }), length bytes, d'))
        × (s'.callbacks ≡ s.callbacks + 1)
  delivery malloc beyond hs h hdl s t d name bytes units out b1 b2 p enough readable fs f last z u e
        el nm w nz lt l sem =
      let msg = message (hs ++ h ∷ []) in
      let lm : length msg ≡ 12 + length bytes = rw w (
        omega (
          arith,
          length-append (tlv_prefix name (length bytes)) bytes,
          length-tlv_prefix name (length bytes) nm,
        )) in
      let (block, log, r) =
        receive_lem malloc beyond p enough readable hs h hdl [] s fs f last z u e el in
      let rd =
        read_message h hdl s t block msg log d.heap u.1 (omega (arith, lm))
          (λ q. absurd (omega (arith, lm, q))) in
      (
        _,
        _,
        r,
        serial_drv_read-frame _ fops (record { ident = block; bytes = msg }) name bytes units out b1
            b2 _ _ nm l sem
            (rd
              ∙ ap
                  (λ k. some (
                    some (record { ident = block; bytes = msg }),
                    k,
                    (drained s hdl log, t),
                    d.heap,
                  ))
                  lm)
            w nz (omega arith),
        refl,
      )
