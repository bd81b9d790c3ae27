-- ===== src/Spi/Transaction/Keeps.antt =====
-- What the parts of an SPI transaction leave alone: the semaphores, the latched signal and the
-- queue.
use rt_thread_esp_hosted.Common.{
  ℕ, ◌+◌, ◌-◌, ◌%◌, ◌^◌, ◌≡◌, refl, Bool, true, false, Option, none, some, List, [], ◌∷◌, arith,
  length, if◌then◌else◌, ◌==◌, ◌||◌, not, ◌>>=◌, Buffer, After, bind-After, then-After, if-After,
  ltb,
}
use rt_thread_esp_hosted.Adapter.{BufHandle}
use rt_thread_esp_hosted.Adapter.Header.{
  load16, load_if_type, load_throttle_cmd, store16, compute_checksum, header_size,
}
use rt_thread_esp_hosted.Spi.{
  Spi, FreeFunc, free_null, free_spi, free_handle_func, Queues, get_next_tx_buffer, send_handle,
  send_copied, form_frame, dequeue, max_payload_size,
}
use rt_thread_esp_hosted.Spi.Rx.{
  RxResult, rx_failed, process_spi_rx_buf, check_frame, accept_frame, rx_handle,
}
use rt_thread_esp_hosted.Spi.Transaction.{
  Line, dummy_buffer, choose_tx, transfer_rx, free_tx, exchange,
}

-- The variables that the invariant reads are as they were.
abbrev pub Keeps : Spi → Spi → Type 0
Keeps s t =
    (t.spi_trans_ready_sem ≡ s.spi_trans_ready_sem)
    × (t.sem_to_slave_queue ≡ s.sem_to_slave_queue)
    × (t.data_ready_pending ≡ s.data_ready_pending)
    × (t.to_slave_queue ≡ s.to_slave_queue)

-- How many packets wait to be sent, and that the semaphore counts them.
abbrev pub waiting : Queues → ℕ
waiting q = length q.serial + length q.bt + length q.others

abbrev pub IsCounted : Spi → Type 0
IsCounted s = waiting s.to_slave_queue ≡ s.sem_to_slave_queue

module _ (s : Spi) where
  abbrev RxKeeps : RxResult × Spi → Type 0
  RxKeeps r = Keeps s r.1

  accept_frame-Keeps :
      (ok : Bool) (block : ℕ) (bytes : List ℕ) (len offset : ℕ) (rxbuff : Buffer) (t : Spi)
      → Keeps s t
      → After RxKeeps (accept_frame ok block bytes len offset rxbuff t)
  unfolding accept_frame
  accept_frame-Keeps ok block bytes len offset rxbuff t k =
      bind-After RxKeeps (rx_handle block bytes len offset) _ λ h.
        bind-After RxKeeps (load_throttle_cmd bytes) _
          λ c. if-After RxKeeps ok _ _ (λ _. k) (λ _. k)

  check_frame-Keeps :
      (ok : Bool) (rxbuff : Buffer) (len offset : ℕ) (t : Spi)
      → Keeps s t
      → After RxKeeps (check_frame ok rxbuff len offset t)
  unfolding check_frame
  check_frame-Keeps ok rxbuff len offset t k = bind-After RxKeeps (load16 rxbuff.bytes 6) _ λ c.
      bind-After RxKeeps (store16 rxbuff.bytes 6 0) _ λ b.
        bind-After RxKeeps (compute_checksum b ((len + offset) % 2 ^ 16)) _ λ d.
          if-After RxKeeps (d == c) _ _
            (λ _. accept_frame-Keeps ok rxbuff.ident b len offset rxbuff t k) (λ _. k)

  process_spi_rx_buf-Keeps :
      (ok : Bool) (rxbuff : Option Buffer) (t : Spi)
      → Keeps s t
      → After RxKeeps (process_spi_rx_buf ok rxbuff t)
  unfolding process_spi_rx_buf
  process_spi_rx_buf-Keeps ok none t k = k
  process_spi_rx_buf-Keeps ok (some b) t k = bind-After RxKeeps (load16 b.bytes 2) _ λ len.
      bind-After RxKeeps (load16 b.bytes 4) _ λ offset.
        bind-After RxKeeps (load_if_type b.bytes) _ λ ty.
          bind-After RxKeeps (load_throttle_cmd b.bytes) _ λ c.
            if-After RxKeeps (len == 0) _ _ (λ _. k)
              (λ _.
                if-After RxKeeps (ltb max_payload_size len || not (offset == header_size)) _ _
                  (λ _. k) (λ _. check_frame-Keeps ok b len offset _ k))

  abbrev pub PairKeeps : Bool × Spi → Type 0
  PairKeeps r = Keeps s r.1

  abbrev TxKeeps : Buffer × FreeFunc × Spi → Type 0
  TxKeeps r = Keeps s r.2

  choose_tx-Keeps :
      (l : Line) (b : Option Buffer) (ff : FreeFunc) (t : Spi)
      → Keeps s t
      → After TxKeeps (choose_tx l b ff t)
  unfolding choose_tx
  choose_tx-Keeps l none ff t k = bind-After TxKeeps (dummy_buffer l.dummy_block) _ (λ b. k)
  choose_tx-Keeps l (some b) ff t k = k

  transfer_rx-Keeps :
      (l : Line) (rxbuff : ℕ) (b : Buffer) (t : Spi)
      → Keeps s t
      → After PairKeeps (transfer_rx l rxbuff b t)
  unfolding transfer_rx
  transfer_rx-Keeps l rxbuff b t k =
      elim (l.transfer b.bytes)
        as (λ o. After PairKeeps (elim o [
          | none ↦ some (true, record t { heap = rxbuff ∷ t.heap })
          | some bytes ↦
              process_spi_rx_buf l.queue_ok (some (record { ident = rxbuff; bytes = bytes })) t
              >>= λ r. some (rx_failed r.0, r.1)
        ])) [
          | none ↦ k
          | some bytes ↦
              then-After RxKeeps PairKeeps _ _
                (process_spi_rx_buf-Keeps l.queue_ok
                  (some (record { ident = rxbuff; bytes = bytes })) t k)
                (λ r q. q)
        ]

  free_tx-Keeps : (ff : FreeFunc) (b : Buffer) (t : Spi) → Keeps s t → Keeps s (free_tx ff b t)
  free_tx-Keeps free_null b t k = k
  free_tx-Keeps free_spi b t k = k
  free_tx-Keeps free_handle_func b t k = k

  pub exchange-Keeps :
      (l : Line) (b : Option Buffer) (ff : FreeFunc) (t : Spi)
      → Keeps s t
      → After PairKeeps (exchange l b ff t)
  unfolding exchange
  exchange-Keeps l b ff t k =
      then-After TxKeeps PairKeeps (choose_tx l b ff t) _ (choose_tx-Keeps l b ff t k) λ tx kt.
        bind-After PairKeeps l.rx_block _ λ rxbuff.
          then-After PairKeeps PairKeeps (transfer_rx l rxbuff tx.0 tx.2) _
            (transfer_rx-Keeps l rxbuff tx.0 tx.2 kt) λ r kr. free_tx-Keeps tx.1 tx.0 r.1 kr

-- One packet at most is taken, with its unit of the semaphore.
abbrev pub Taken : Spi → Option Buffer × Bool × FreeFunc × Spi → Type 0
Taken s r =
    (r.3.spi_trans_ready_sem ≡ s.spi_trans_ready_sem)
    × (r.3.sem_to_slave_queue ≡ s.sem_to_slave_queue - 1)
    × (r.3.data_ready_pending ≡ s.data_ready_pending)
    × (IsCounted s → IsCounted r.3)

send_handle-Taken :
    (s : Spi) (block : Option ℕ) (h : BufHandle) (t : Spi)
    → (t.spi_trans_ready_sem ≡ s.spi_trans_ready_sem)
      × (t.sem_to_slave_queue ≡ s.sem_to_slave_queue - 1)
      × (t.data_ready_pending ≡ s.data_ready_pending)
      × (IsCounted s → IsCounted t)
    → After (Taken s) (send_handle block h t)
unfolding send_handle
send_handle-Taken s block h t k =
    if-After (Taken s) h.payload_zcopy _ _ (λ _. zcopy h.priv_buffer_handle) (λ _. copied block)
  where
    zcopy :
        (o : Option ℕ)
        → After (Taken s) (elim o [
          | none ↦ some (none, false, free_null, t)
          | some payload ↦ form_frame h h.payload_len h.payload >>= λ f. some (
            some (record { ident = payload; bytes = f.0 }),
            true,
            if h.free_buf_handle then free_handle_func else free_null,
            t,
          )
        ])
    zcopy none = k
    zcopy (some b) = bind-After (Taken s) (form_frame h h.payload_len h.payload) _ (λ f. k)

    copied : (o : Option ℕ) → After (Taken s) (send_copied o h t)
    copied none = tt
    copied (some b) = bind-After (Taken s) (form_frame h h.payload_len _) _ (λ f. k)

-- What is left after an element has been taken.
abbrev Dequeued : Queues → Option (BufHandle × Queues) → Type 0
Dequeued q none = waiting q ≡ 0
Dequeued q (some (h, q')) = waiting q ≡ waiting q' + 1

dequeue-Dequeued : (q : Queues) → Dequeued q (dequeue q)
unfolding dequeue
dequeue-Dequeued q = split q.serial q.bt q.others
  where
    split :
        (a b c : List BufHandle)
        → Dequeued
            (record { serial = a; bt = b; others = c })
            (dequeue (record { serial = a; bt = b; others = c }))
    split [] [] [] = omega arith
    split [] [] (h ∷ c) = omega arith
    split [] (h ∷ b) c = omega arith
    split (h ∷ a) b c = omega arith

pub get_next_tx_buffer-Taken :
    (block : Option ℕ) (s : Spi) → After (Taken s) (get_next_tx_buffer block s)
unfolding get_next_tx_buffer
get_next_tx_buffer-Taken block s =
    if-After (Taken s) (s.sem_to_slave_queue == 0) _ _ (λ e. (refl, ground arith, refl, λ c. c))
      (λ e. got e (dequeue s.to_slave_queue) (dequeue-Dequeued s.to_slave_queue))
  where
    got :
        (s.sem_to_slave_queue == 0) ≡ false
        → (o : Option (BufHandle × Queues)) → Dequeued s.to_slave_queue o
        → After (Taken s) (elim o [
          | none ↦
              some
                (none, false, free_null, record s { sem_to_slave_queue = s.sem_to_slave_queue - 1 })
          | some (h, q) ↦
              let s' = record s {
                sem_to_slave_queue = s.sem_to_slave_queue - 1;
                to_slave_queue = q;
              } in
              if h.payload_len == 0
              then some (none, false, free_null, s')
              else send_handle block h s'
        ])
    got e none d = (refl, refl, refl, λ c. absurd (ground arith))
    got e (some (h, q)) d =
        if-After (Taken s) (h.payload_len == 0) _ _ (λ _. (refl, refl, refl, λ c. omega arith))
          (λ _. send_handle-Taken s block h _ (refl, refl, refl, λ c. omega arith))
