-- ===== src/Transport/RxTask/Ownership/Serial.antt =====
-- The buffer of a serial packet in `serial_ll_rx_handler` of
-- esp-hosted/host/drivers/serial/serial_ll_if.c.
use mathlib.Core.Path.{subst}
use rt_thread_esp_hosted.Common.{
  ℕ, suc, ◌+◌, ◌≡◌, ◌≢◌, refl, sym, ap, ◌∙◌, Bool, true, false, not, Option, none, some, List, ◌∷◌,
  ◌++◌, [], Buffer, Heap, frees, ◌==◌, if◌then◌else◌, After, bind-After, then-After, if-After,
  if-holds, ◌>>=◌, slice, copy_to,
}
use rt_thread_esp_hosted.Adapter.{BufHandle}
use rt_thread_esp_hosted.Port.{Allocator, hosted_realloc}
use rt_thread_esp_hosted.Spi.{free_handle}
use rt_thread_esp_hosted.Serial.Ll.{
  SerialLl, SerialLlHandle, Ptr, null, live, dangling, of_option, free_r_data, serial_buff_cleanup,
  serial_alloc_realloc_rdata, store_fragment, serial_msg_handle, deliver, last_fragment,
  rx_fragment, serial_ll_rx_handler, get_serial_ll_handle, more_fragment, set_interface_handle,
}
use rt_thread_esp_hosted.Transport.RxTask.Ownership.{
  IsOwned, Settled, frees_other, frees_same, free_owned, kept-Settled, freed-Settled,
}

-- A pointer to another block.
unfoldable pub IsOther : ℕ → Ptr → Type 0
IsOther block null = Unit {0}
IsOther block (live b) = b.ident ≢ block
IsOther block (dangling b) = Unit {0}

free_r_data-frees :
    (block : ℕ) (s : SerialLl)
    → IsOther block s.r_data
    → After (λ s'. frees block s'.heap ≡ frees block s.heap) (free_r_data s)
unfolding free_r_data IsOther
free_r_data-frees block s o = go s.r_data refl o
  where
    go :
        (p : Ptr)
        → s.r_data ≡ p
        → IsOther block p
        → After (λ s'. frees block s'.heap ≡ frees block s.heap) (free_r_data s)
    go null e q = rw e refl
    go (live b) e q = rw e (frees_other block b.ident s.heap q)
    go (dangling b) e q = rw e tt

set-Keeps :
    (i : ℕ) (x : Option SerialLlHandle) (s : SerialLl)
    → ((set_interface_handle i x s).heap ≡ s.heap)
      × ((set_interface_handle i x s).r_data ≡ s.r_data)
set-Keeps i x s =
    if-holds (λ (t : SerialLl). (t.heap ≡ s.heap) × (t.r_data ≡ s.r_data)) (i == 0) _ _ (refl, refl)
      (if-holds (λ (t : SerialLl). (t.heap ≡ s.heap) × (t.r_data ≡ s.r_data)) (i == 1) _ _
        (refl, refl) (refl, refl))

module _ (block : ℕ) (h : BufHandle) (o : IsOwned block h) where
  Ends : ℕ → Option (Bool × BufHandle × SerialLl) → Type 0
  Ends n = After (λ r. Settled block n r.1 r.2.heap)

  -- The cleanup once both handles have been looked at.
  end_cleanup :
      (n : ℕ) (s : SerialLl)
      → frees block s.heap ≡ suc n
      → IsOther block s.r_data
      → Ends n (free_r_data s >>= λ s'. some (false, record h { priv_buffer_handle = none }, s'))
  unfolding Ends
  end_cleanup n s e q =
      then-After (λ (s' : SerialLl). frees block s'.heap ≡ frees block s.heap)
        (λ (r : Bool × BufHandle × SerialLl). Settled block n r.1 r.2.heap) (free_r_data s) _
        (free_r_data-frees block s q) (λ s' e'. freed-Settled block n h s'.heap o (e' ∙ e))

  cleanup-Ends :
      (n : ℕ) (s : SerialLl)
      → frees block s.heap ≡ n
      → IsOther block s.r_data
      → Ends n (serial_buff_cleanup h none s)
  unfolding serial_buff_cleanup free_handle
  cleanup-Ends n s e q =
      subst
        (λ (r : BufHandle × Heap).
          Ends n (free_r_data (record s { heap = r.1; r_len = 0 }) >>= λ s'. some (false, r.0, s')))
        (sym (free_owned block h s.heap o))
        (end_cleanup n (record s { heap = block ∷ s.heap; r_len = 0 })
          (frees_same block s.heap ∙ ap suc e) q)

  cleanup_message-Ends :
      (n : ℕ) (b : Buffer) (len : ℕ) (s : SerialLl)
      → frees block s.heap ≡ n
      → IsOther block s.r_data
      → b.ident ≢ block
      → Ends n (serial_buff_cleanup h (some (serial_msg_handle h b len)) s)
  unfolding serial_buff_cleanup serial_msg_handle free_handle
  cleanup_message-Ends n b len s e q ne =
      subst
        (λ (r : BufHandle × Heap). Ends n (
          free_r_data (record s { heap = b.ident ∷ r.1; r_len = 0 }) >>= λ s'.
          some (false, r.0, s')))
        (sym (free_owned block h s.heap o))
        (end_cleanup n (record s { heap = b.ident ∷ block ∷ s.heap; r_len = 0 })
          (frees_other block b.ident (block ∷ s.heap) ne ∙ frees_same block s.heap ∙ ap suc e) q)

  deliver-Ends :
      (n : ℕ) (queue_ok : Bool) (b : Buffer) (len : ℕ) (hdl : SerialLlHandle) (s : SerialLl)
      → frees block s.heap ≡ n
      → IsOther block s.r_data
      → b.ident ≢ block
      → Ends n (deliver queue_ok h (serial_msg_handle h b len) hdl s)
  unfolding deliver Ends
  deliver-Ends n queue_ok b len hdl s e q ne = go hdl.queue refl
    where
      new : BufHandle
      new = serial_msg_handle h b len

      sent : List BufHandle → SerialLl
      sent l = set_interface_handle h.if_num (some (record hdl { queue = some (l ++ new ∷ []) })) s

      go : (l : Option (List BufHandle)) → hdl.queue ≡ l → Ends n (deliver queue_ok h new hdl s)
      go none r = rw r tt
      go (some l) r =
          let (f, g) = set-Keeps h.if_num (some (record hdl { queue = some (l ++ new ∷ []) })) s in
          rw r (
            if-After _ (not queue_ok) (serial_buff_cleanup h (some new) s) _
              (λ _. cleanup_message-Ends n b len s e q ne)
              λ _.
                if-After _ hdl.serial_rx_callback
                  (some (true, h, record (sent l) { callbacks = (sent l).callbacks + 1 })) _
                  (λ _. kept-Settled block n h (sent l).heap o (ap (frees block) f ∙ e))
                  (λ _.
                    cleanup_message-Ends n b len (sent l) (ap (frees block) f ∙ e)
                      (subst (IsOther block) (sym g) q) ne))

  module _ (malloc : Allocator)
      (others : (m : ℕ) (b : Buffer) → malloc m ≡ some b → b.ident ≢ block) where
    last_fragment-Ends :
        (n : ℕ) (queue_ok : Bool) (hdl : SerialLlHandle) (b : Buffer) (s : SerialLl)
        → frees block s.heap ≡ n
        → IsOther block s.r_data
        → b.ident ≢ block
        → Ends n (last_fragment malloc queue_ok h hdl b s)
    unfolding last_fragment Ends IsOther
    last_fragment-Ends n queue_ok hdl b s e q ne = go (malloc s.r_len) refl
      where
        go :
            (r : Option Buffer)
            → malloc s.r_len ≡ r
            → Ends n (last_fragment malloc queue_ok h hdl b s)
        go none r = rw (r, last_fragment) (cleanup-Ends n s e q)
        go (some new) r =
            rw (r, last_fragment)
              (bind-After _ (slice b.bytes 0 s.r_len) _ λ src.
                bind-After _ (copy_to new.bytes 0 src) _ λ bytes.
                  deliver-Ends n queue_ok (record new { bytes = bytes }) s.r_len hdl
                    (record s { r_len = 0; r_data = null; heap = b.ident ∷ s.heap })
                    (frees_other block b.ident s.heap ne ∙ e) tt (others s.r_len new r))

    of_option-IsOther :
        (r : Option Buffer)
        → ((b : Buffer) → r ≡ some b → b.ident ≢ block)
        → IsOther block (of_option r)
    unfolding IsOther
    of_option-IsOther none f = tt
    of_option-IsOther (some b) f = f b refl

    hosted-Keeps :
        (n : ℕ) (beyond : List ℕ) (b : Buffer) (size : ℕ) (heap : Heap)
        → frees block heap ≡ n
        → b.ident ≢ block
        → After
            (λ a. (frees block a.1 ≡ n) × IsOther block (of_option a.0))
            (hosted_realloc malloc beyond b size heap)
    unfolding hosted_realloc IsOther
    hosted-Keeps n beyond b size heap e ne =
        if-After P (size == 0) (some (none, b.ident ∷ heap)) _ (λ _. (freed, tt))
          (λ _. go (malloc size) (others size))
      where
        P : Option Buffer × Heap → Type 0
        P a = (frees block a.1 ≡ n) × IsOther block (of_option a.0)

        freed : frees block (b.ident ∷ heap) ≡ n
        freed = frees_other block b.ident heap ne ∙ e

        go :
            (r : Option Buffer)
            → ((b' : Buffer) → r ≡ some b' → b'.ident ≢ block)
            → After P (elim r [
              | none ↦ some (none, heap)
              | some new ↦ slice (b.bytes ++ beyond) 0 size >>= λ src.
                  copy_to new.bytes 0 src >>= λ bytes.
                  some (some (record { ident = new.ident; bytes = bytes }), b.ident ∷ heap)
            ])
        go none f = (e, tt)
        go (some new) f =
            bind-After P (slice (b.bytes ++ beyond) 0 size) _
              λ src. bind-After P (copy_to new.bytes 0 src) _ λ bytes. (freed, f new refl)

    realloc-Keeps :
        (n : ℕ) (beyond : List ℕ) (len : ℕ) (s : SerialLl)
        → frees block s.heap ≡ n
        → IsOther block s.r_data
        → After
            (λ s'. (frees block s'.heap ≡ n) × IsOther block s'.r_data)
            (serial_alloc_realloc_rdata malloc beyond len s)
    unfolding serial_alloc_realloc_rdata hosted_realloc IsOther
    realloc-Keeps n beyond len s e q = go s.r_data refl q
      where
        P : SerialLl → Type 0
        P s' = (frees block s'.heap ≡ n) × IsOther block s'.r_data

        go :
            (p : Ptr)
            → s.r_data ≡ p
            → IsOther block p
            → After P (serial_alloc_realloc_rdata malloc beyond len s)
        go null r t = rw r (e, of_option-IsOther (malloc len) (others len))
        go (live b) r t = rw r (
            then-After
              (λ (a : Option Buffer × Heap). (frees block a.1 ≡ n) × IsOther block (of_option a.0))
              P (hosted_realloc malloc beyond b (s.r_len + len) s.heap) _
              (hosted-Keeps n beyond b (s.r_len + len) s.heap e t) (λ a k. k))
        go (dangling b) r t = rw r tt

    stored-Ends :
        (n : ℕ) (queue_ok : Bool) (hdl : SerialLlHandle) (s : SerialLl) (p : Ptr)
        → frees block s.heap ≡ n
        → IsOther block s.r_data
        → IsOther block p
        → Ends n (elim p [
          | live b ↦ do
            r ← store_fragment h b s
            if more_fragment h
                then some (true, h, r.1)
                else last_fragment malloc queue_ok h hdl r.0 r.1
          | _ ↦ serial_buff_cleanup h none s
        ])
    unfolding store_fragment Ends IsOther
    stored-Ends n queue_ok hdl s null e q t = cleanup-Ends n s e q
    stored-Ends n queue_ok hdl s (dangling b) e q t = cleanup-Ends n s e q
    stored-Ends n queue_ok hdl s (live b) e q t =
        then-After
          (λ (r : Buffer × SerialLl).
            (r.0.ident ≢ block) × (frees block r.1.heap ≡ n) × IsOther block r.1.r_data)
          P (store_fragment h b s) _ (store-Keeps b s e t)
          λ r k.
            if-After P (more_fragment h) (some (true, h, r.1))
              (last_fragment malloc queue_ok h hdl r.0 r.1)
              (λ _. kept-Settled block n h r.1.heap o k.1)
              (λ _. last_fragment-Ends n queue_ok hdl r.0 r.1 k.1 k.2 k.0)
      where
        P : Bool × BufHandle × SerialLl → Type 0
        P r = Settled block n r.1 r.2.heap

        store-Keeps :
            (b : Buffer) (s : SerialLl)
            → frees block s.heap ≡ n
            → b.ident ≢ block
            → After
                (λ (r : Buffer × SerialLl).
                  (r.0.ident ≢ block) × (frees block r.1.heap ≡ n) × IsOther block r.1.r_data)
                (store_fragment h b s)
        store-Keeps b s e ne =
            bind-After _ (slice h.payload 0 h.payload_len) _
              λ src. bind-After _ (copy_to b.bytes s.r_len src) _ λ bytes. (ne, e, ne)

    rx_fragment-Ends :
        (n : ℕ) (beyond : List ℕ) (queue_ok : Bool) (hdl : SerialLlHandle) (s : SerialLl)
        → frees block s.heap ≡ n
        → IsOther block s.r_data
        → Ends n (rx_fragment malloc beyond queue_ok h hdl s)
    unfolding rx_fragment Ends
    rx_fragment-Ends n beyond queue_ok hdl s e q =
        then-After (λ (s' : SerialLl). (frees block s'.heap ≡ n) × IsOther block s'.r_data)
          (λ (r : Bool × BufHandle × SerialLl). Settled block n r.1 r.2.heap)
          (serial_alloc_realloc_rdata malloc beyond h.payload_len s) _
          (realloc-Keeps n beyond h.payload_len s e q)
          λ s' k. stored-Ends n queue_ok hdl s' s'.r_data k.0 k.1 k.1

    -- The packet's buffer is freed once by the end of the round, whatever the handler does.
    pub serial_ll_rx_handler-Ends :
        (n : ℕ) (beyond : List ℕ) (queue_ok : Bool) (s : SerialLl)
        → frees block s.heap ≡ n
        → IsOther block s.r_data
        → After
            (λ r. Settled block n r.1 r.2.heap)
            (serial_ll_rx_handler malloc beyond queue_ok (some h) s)
    unfolding serial_ll_rx_handler Ends
    serial_ll_rx_handler-Ends n beyond queue_ok s e q =
        if-After _ (h.payload_len == 0) (serial_buff_cleanup h none s) _ (λ _. cleanup-Ends n s e q)
          λ _. found (get_serial_ll_handle s h.if_num)
      where
        found :
            (r : Option SerialLlHandle)
            → Ends n (elim r [
              | none ↦ serial_buff_cleanup h none s
              | some hdl ↦ rx_fragment malloc beyond queue_ok h hdl s
            ])
        found none = cleanup-Ends n s e q
        found (some hdl) = rx_fragment-Ends n beyond queue_ok hdl s e q
