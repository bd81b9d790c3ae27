-- ===== src/Serial/Ll/Reassembly.antt =====
-- `serial_ll_rx_handler` puts a fragmented message together.
use mathlib.Core.List.{append-nil, append_assoc}
use rt_thread_esp_hosted.Common.{
  ℕ, ◌+◌, ◌^◌, ◌≤◌, ◌≡◌, refl, ◌∙◌, inl, inr, true, false, some, List, [], ◌∷◌, ◌++◌, arith, length,
  Buffer, Heap, slice_all, copy_to_all, ne→==, length-append, length-take,
}
use rt_thread_esp_hosted.Adapter.{BufHandle}
use rt_thread_esp_hosted.Port.{Allocator, IsAllocator}
use rt_thread_esp_hosted.Serial.Ll.{
  SerialLl, SerialLlHandle, null, live, rx_fragment, last_fragment, serial_ll_rx_handler,
  get_serial_ll_handle, more_fragment, serial_msg_handle, deliver,
}
use rt_thread_esp_hosted.Serial.Ll.Fragment.{
  Holds, fragment, IsFragment, IsUp, delivered, receive, AreFragments, message, alloc_lem,
  store_lem, more_fragment_lem,
}

module _ (malloc : Allocator) (beyond : List ℕ) (promise : IsAllocator malloc)
    (enough : (n : ℕ) → (b : Buffer) × (malloc n ≡ some b))
    (readable : 2 ^ 16 ≤ length beyond) where
  up_handle :
      (s : SerialLl) (hdl : SerialLlHandle) (q : List BufHandle) (i : ℕ)
      → IsUp s hdl q
      → i ≡ 0
      → get_serial_ll_handle s i ≡ some hdl
  unfolding get_serial_ll_handle
  up_handle s hdl q i u e = rw (e, u.0, u.1)

  last_fragment_lem :
      (h : BufHandle) (hdl : SerialLlHandle) (q : List BufHandle) (b : Buffer) (s : SerialLl)
      → IsUp s hdl q
      → h.if_num ≡ 0
      → s.r_len ≡ length b.bytes
      → (block : ℕ) × (last_fragment malloc true h hdl b s
          ≡ some (
            true,
            h,
            delivered s hdl q
                (serial_msg_handle h (record { ident = block; bytes = b.bytes }) (length b.bytes))
                (b.ident ∷ s.heap),
          ))
  unfolding last_fragment
  last_fragment_lem h hdl q b s u z el =
      let (p, e) = enough (length b.bytes) in
      (
        p.ident,
        rw (
          el,
          e,
          last_fragment,
          el,
          slice_all b.bytes (length b.bytes) refl,
          copy_to_all p.bytes b.bytes (promise.sized (length b.bytes) p e),
          u.2,
          deliver,
          u.3,
          z,
          el,
        ),
      )

  -- The last fragment of a message.
  pub final_fragment_lem :
      (h : BufHandle) (hdl : SerialLlHandle) (q : List BufHandle) (s : SerialLl) (acc : List ℕ)
      → IsUp s hdl q
      → h.if_num ≡ 0
      → IsFragment h
      → more_fragment h ≡ false
      → Holds s acc
      → (block : ℕ) × (heap : Heap) × (let msg = acc ++ fragment h in
          serial_ll_rx_handler malloc beyond true (some h) s
          ≡ some (
            true,
            h,
            delivered s hdl q
                (serial_msg_handle h (record { ident = block; bytes = msg }) (length msg))
                heap,
          ))
  unfolding serial_ll_rx_handler rx_fragment
  final_fragment_lem h hdl q s acc u z f more held =
      let (p, heap, ea, el, lp, tp) =
        alloc_lem malloc beyond promise enough readable s acc h.payload_len held f.0
          (omega (arith, f.1)) in
      let (b, es, eb) =
        store_lem malloc beyond promise enough readable h
          (record s { r_data = live p; heap = heap }) acc p f el lp tp in
      let lb : s.r_len + h.payload_len ≡ length b.bytes = rw eb (
        omega
          (arith, el, length-append acc (fragment h), length-take h.payload_len h.payload f.2)) in
      let (block, e) =
        last_fragment_lem h hdl q b
          (record s { r_data = live b; r_len = s.r_len + h.payload_len; heap = heap }) u z lb in
      (
        block,
        b.ident ∷ heap,
        rw (ne→== h.payload_len 0 f.0, up_handle s hdl q h.if_num u z, ea, es, more, e, eb),
      )

  receive-fragments :
      (hs : List BufHandle) (h : BufHandle) (hdl : SerialLlHandle) (q : List BufHandle)
      (s : SerialLl) (acc : List ℕ)
      → AreFragments hs
      → IsFragment h
      → more_fragment h ≡ false
      → h.if_num ≡ 0
      → IsUp s hdl q
      → Holds s acc
      → (block : ℕ) × (heap : Heap) × (let msg = acc ++ message (hs ++ h ∷ []) in
          receive malloc beyond (hs ++ h ∷ []) s
          ≡ some (
              delivered s hdl q
                (serial_msg_handle h (record { ident = block; bytes = msg }) (length msg))
                heap))
  receive-fragments [] h hdl q s acc fs f last z u held =
      let (block, heap, e) = final_fragment_lem h hdl q s acc u z f last held in
      (block, heap, rw (e, append-nil (fragment h)))
  receive-fragments (x ∷ hs) h hdl q s acc fs f last z u held =
      let (b, heap, e, eb, el) =
        more_fragment_lem malloc beyond promise enough readable x hdl true s acc
          (up_handle s hdl q x.if_num u (fs.0).2) (fs.0).0 (fs.0).1 held in
      let s' = record s { r_len = s.r_len + x.payload_len; r_data = live b; heap = heap } in
      let (block, heap', e') =
        receive-fragments hs h hdl q s' (acc ++ fragment x) fs.1 f last z u
          (inr (b, refl, eb, el)) in
      (block, heap', rw e (e' ∙ rw append_assoc refl))

  -- Any number of fragments and a last one for interface 0, which is up with nothing pending and
  -- a callback, while every allocation succeeds and 2 ^ 16 bytes behind a block can be read:
  -- exactly one message is queued behind those that wait, its bytes are those of the fragments in
  -- order, the callback runs once, and nothing is pending afterwards. The length field of the
  -- queued handle is that of the message in 16 bits.
  pub receive_lem :
      (hs : List BufHandle) (h : BufHandle) (hdl : SerialLlHandle) (q : List BufHandle)
      (s : SerialLl)
      → AreFragments hs
      → IsFragment h
      → more_fragment h ≡ false
      → h.if_num ≡ 0
      → IsUp s hdl q
      → s.r_data ≡ null
      → s.r_len ≡ 0
      → (block : ℕ) × (heap : Heap) × (let msg = message (hs ++ h ∷ []) in
          receive malloc beyond (hs ++ h ∷ []) s
          ≡ some (
              delivered s hdl q
                (serial_msg_handle h (record { ident = block; bytes = msg }) (length msg))
                heap))
  receive_lem hs h hdl q s fs f last z u e el =
      receive-fragments hs h hdl q s [] fs f last z u (inl (e, refl, el))
