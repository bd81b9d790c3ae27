-- ===== src/Serial/Ll/Fragment.antt =====
-- One fragment in `serial_ll_rx_handler` of esp-hosted/host/drivers/serial/serial_ll_if.c: what is
-- pending before and after it.
use mathlib.Core.List.{append-nil}
use rt_thread_esp_hosted.Common.{
  ℕ, suc, ◌+◌, ◌^◌, ◌≤◌, ◌<◌, ◌≡◌, refl, ◌∙◌, ap, ◌⊎◌, inl, inr, ◌≢◌, Bool, true, Option, some,
  List, [], ◌∷◌, ◌++◌, arith, length, take, drop_all, Buffer, Heap, slice, slice_lem, copy_to,
  copy_to_lem, copy_to_all, ne→==, length-append, length-take, ◌>>=◌,
}
use rt_thread_esp_hosted.Adapter.{BufHandle}
use rt_thread_esp_hosted.Port.{Allocator, IsAllocator, hosted_realloc}
use rt_thread_esp_hosted.Serial.Ll.{
  SerialLl, SerialLlHandle, active, null, live, serial_alloc_realloc_rdata, store_fragment,
  rx_fragment, serial_ll_rx_handler, get_serial_ll_handle, more_fragment,
}

-- `acc` is what has been received of a message so far.
abbrev pub Holds : SerialLl → List ℕ → Type 0
Holds s acc =
    ((s.r_data ≡ null) × (acc ≡ []) × (s.r_len ≡ 0))
    ⊎ ((b : Buffer) × (s.r_data ≡ live b) × (b.bytes ≡ acc) × (s.r_len ≡ length acc))

-- A fragment's own bytes.
abbrev pub fragment : BufHandle → List ℕ
fragment h = take h.payload_len h.payload

abbrev pub IsFragment : BufHandle → Type 0
IsFragment h = (h.payload_len ≢ 0) × (h.payload_len < 2 ^ 16) × (h.payload_len ≤ length h.payload)

-- The interface that the driver opens: number 0, up, with the queue `q` and a callback.
abbrev pub IsUp : SerialLl → SerialLlHandle → List BufHandle → Type 0
IsUp s hdl q =
    (s.interface0 ≡ some hdl)
    × (hdl.state ≡ active)
    × (hdl.queue ≡ some q)
    × (hdl.serial_rx_callback ≡ true)

-- The state after the message `new` has been queued behind `q`.
abbrev pub delivered : SerialLl → SerialLlHandle → List BufHandle → BufHandle → Heap → SerialLl
delivered s hdl q new heap = record s {
  interface0 = some (record hdl { queue = some (q ++ new ∷ []) });
  r_len = 0;
  r_data = null;
  heap = heap;
  callbacks = s.callbacks + 1;
}

-- The handler runs on one packet after the other.
abbrev pub receive : Allocator → List ℕ → List BufHandle → SerialLl → Option SerialLl
receive malloc beyond [] s = some s
receive malloc beyond (h ∷ hs) s =
    serial_ll_rx_handler malloc beyond true (some h) s >>= λ r. receive malloc beyond hs r.2

abbrev pub AreFragments : List BufHandle → Type 0
AreFragments [] = Unit {0}
AreFragments (h ∷ hs) = (IsFragment h × (more_fragment h ≡ true) × (h.if_num ≡ 0)) × AreFragments hs

abbrev pub message : List BufHandle → List ℕ
message [] = []
message (h ∷ hs) = fragment h ++ message hs

take_keeps : (xs ys : List ℕ) (n : ℕ) → take (length xs) (take (length xs + n) (xs ++ ys)) ≡ xs
take_keeps [] ys n = refl
take_keeps (x ∷ xs) ys n = rw (suc_add (length xs) n) (ap (◌∷◌ x) (take_keeps xs ys n))
  where
    suc_add : (m k : ℕ) → suc m + k ≡ suc (m + k)
    suc_add m k = omega arith

module _ (malloc : Allocator) (beyond : List ℕ) (promise : IsAllocator malloc)
    (enough : (n : ℕ) → (b : Buffer) × (malloc n ≡ some b))
    (readable : 2 ^ 16 ≤ length beyond) where
  hosted_realloc_lem :
      (mem : Buffer) (n : ℕ) (heap : Heap)
      → n ≢ 0
      → n ≤ 2 ^ 16
      → (p : Buffer) × (hosted_realloc malloc beyond mem (length mem.bytes + n) heap
          ≡ some (some p, mem.ident ∷ heap))
        × (length p.bytes ≡ length mem.bytes + n)
        × (take (length mem.bytes) p.bytes ≡ mem.bytes)
  unfolding hosted_realloc
  hosted_realloc_lem mem n heap nz h =
      let k = length mem.bytes + n in
      let (p, e) = enough k in
      let src = take k (mem.bytes ++ beyond) in
      let fits : k ≤ length (mem.bytes ++ beyond) = omega (arith, length-append mem.bytes beyond) in
      let ls : length src ≡ k = length-take k (mem.bytes ++ beyond) fits in
      (
        record { ident = p.ident; bytes = src },
        rw (
          ne→== k 0 (λ (q : k ≡ 0). nz (omega arith)),
          e,
          slice_lem (mem.bytes ++ beyond) 0 k (omega (arith, fits)),
          copy_to_all p.bytes src (omega (arith, promise.sized k p e, ls)),
        ),
        ls,
        take_keeps mem.bytes beyond n,
      )

  pub alloc_lem :
      (s : SerialLl) (acc : List ℕ) (n : ℕ)
      → Holds s acc
      → n ≢ 0
      → n ≤ 2 ^ 16
      → (p : Buffer) × (heap : Heap) × (serial_alloc_realloc_rdata malloc beyond n s
          ≡ some (record s { r_data = live p; heap = heap }))
        × (s.r_len ≡ length acc)
        × (length p.bytes ≡ length acc + n)
        × (take (length acc) p.bytes ≡ acc)
  unfolding serial_alloc_realloc_rdata
  alloc_lem s acc n (inl (e, ea, el)) nz h =
      let (b, em) = enough n in
      (b, s.heap, rw (e, em), rw ea el, rw ea (omega (arith, promise.sized n b em)), rw ea)
  alloc_lem s acc n (inr (b, e, eb, el)) nz h =
      let (p, ep, lp, tp) = hosted_realloc_lem b n s.heap nz h in
      (p, b.ident ∷ s.heap, rw (e, el, ← eb, ep), el, rw (← eb) lp, rw (← eb) tp)

  pub store_lem :
      (h : BufHandle) (s : SerialLl) (acc : List ℕ) (p : Buffer)
      → IsFragment h
      → s.r_len ≡ length acc
      → length p.bytes ≡ length acc + h.payload_len
      → take (length acc) p.bytes ≡ acc
      → (b : Buffer) × (store_fragment h p s
          ≡ some (b, record s { r_data = live b; r_len = s.r_len + h.payload_len }))
        × (b.bytes ≡ acc ++ fragment h)
  unfolding store_fragment
  store_lem h s acc p f el lp tp =
      let lf : length (fragment h) ≡ h.payload_len = length-take h.payload_len h.payload f.2 in
      let src : slice h.payload 0 h.payload_len ≡ some (fragment h) =
        slice_lem h.payload 0 h.payload_len (omega (arith, f.2)) in
      let written : copy_to p.bytes s.r_len (fragment h) ≡ some (acc ++ fragment h) = rw el (
        copy_to_lem p.bytes (length acc) (fragment h) (omega (arith, lf, lp))
        ∙ ap some (
            rw (
              tp,
              drop_all p.bytes (length acc + length (fragment h)) (omega (arith, lf, lp)),
              append-nil,
            ))) in
      (record { ident = p.ident; bytes = acc ++ fragment h }, rw (src, written), refl)

  -- One more fragment: the handler reports success, and keeps everything but `r`.
  pub more_fragment_lem :
      (h : BufHandle) (hdl : SerialLlHandle) (queue_ok : Bool) (s : SerialLl) (acc : List ℕ)
      → get_serial_ll_handle s h.if_num ≡ some hdl
      → IsFragment h
      → more_fragment h ≡ true
      → Holds s acc
      → (b : Buffer) × (heap : Heap) × (serial_ll_rx_handler malloc beyond queue_ok (some h) s
          ≡ some
              (true, h, record s { r_len = s.r_len + h.payload_len; r_data = live b; heap = heap }))
        × (b.bytes ≡ acc ++ fragment h)
        × (s.r_len + h.payload_len ≡ length (acc ++ fragment h))
  unfolding serial_ll_rx_handler rx_fragment
  more_fragment_lem h hdl queue_ok s acc up f more held =
      let (p, heap, ea, el, lp, tp) = alloc_lem s acc h.payload_len held f.0 (omega (arith, f.1)) in
      let (b, es, eb) = store_lem h (record s { r_data = live p; heap = heap }) acc p f el lp tp in
      (
        b,
        heap,
        rw (ne→== h.payload_len 0 f.0, up, ea, es, more),
        eb,
        omega (arith, el, length-append acc (fragment h), length-take h.payload_len h.payload f.2),
      )
