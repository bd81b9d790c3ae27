-- ===== src/Spi/Transaction/Wakeup.antt =====
-- The wake-ups of the SPI task: a packet that waits to be sent, and the data-ready signal of the
-- slave, which is latched until a transfer succeeds.
use rt_thread_esp_hosted.Common.{
  ℕ, ◌+◌, ◌-◌, ◌≤◌, ◌<◌, ◌≡◌, refl, ◌∙◌, ◌⊎◌, inl, inr, Bool, Bool-cases, bind-After, true, false,
  Option, none, some, [], ◌∷◌, arith, length-append, ap, sym, ◌==◌, ◌||◌, not, Buffer, After,
  then-After, if-After, After-some, leb,
}
use rt_thread_esp_hosted.Adapter.{BufHandle}
use rt_thread_esp_hosted.Spi.{
  Spi, Queues, FreeFunc, get_next_tx_buffer, enqueue, tx_handle, esp_hosted_tx,
}
use rt_thread_esp_hosted.Spi.Transaction.{
  Line, transfer_rx, choose_tx, exchange, finish, execute, check_and_execute_spi_transaction,
  gpio_hs_isr_handler, gpio_dr_isr_handler, spi_transaction_task,
}
use rt_thread_esp_hosted.Spi.Transaction.Keeps.{
  PairKeeps, Taken, IsCounted, waiting, exchange-Keeps, get_next_tx_buffer-Taken,
}

-- The invariant between two steps of the driver, where `owed` says that the slave's signal has
-- come and no transfer has succeeded since.
pub record Wakes (owed : Bool) (s : Spi) : Type 0 where
  pub kept : (owed ≡ false) ⊎ (s.data_ready_pending ≡ true)
  pub latched : (s.data_ready_pending ≡ false) ⊎ (0 < s.spi_trans_ready_sem)
  pub counted : IsCounted s
  pub queued : s.sem_to_slave_queue ≤ s.spi_trans_ready_sem

-- A debt may be forgotten, and taken on where the latch holds it.
settled : {o : Bool} {s : Spi} → Wakes o s → Wakes false s
settled w = record { kept = inl refl; latched = w.latched; counted = w.counted; queued = w.queued }

owing :
    {o : Bool} {s : Spi} → Wakes false s → (o ≡ false) ⊎ (s.data_ready_pending ≡ true) → Wakes o s
owing w k = record { kept = k; latched = w.latched; counted = w.counted; queued = w.queued }

still :
    {o : Bool} (s t : Spi)
    → t.data_ready_pending ≡ s.data_ready_pending
    → (o ≡ false) ⊎ (s.data_ready_pending ≡ true)
    → (o ≡ false) ⊎ (t.data_ready_pending ≡ true)
still s t e (inl f) = inl f
still s t e (inr f) = inr (e ∙ f)

or_true : (b : Bool) → (b || true) ≡ true
or_true true = refl
or_true false = refl

debt :
    (o : Bool) (s : Spi) (l : Line) (t : Spi)
    → (o ≡ false) ⊎ (s.data_ready_pending ≡ true)
    → ((s.data_ready_pending || l.data_ready) ≡ true → t.data_ready_pending ≡ true)
    → ((o || l.data_ready) ≡ false) ⊎ (t.data_ready_pending ≡ true)
debt o s l t (inr p) f = inr (f (ap (λ b. b || l.data_ready) p))
debt o s l t (inl p) f = elim (Bool-cases l.data_ready) [
  | inl d ↦ inr (f (rw (d) (or_true s.data_ready_pending)))
  | inr d ↦ inl (rw (p, d) refl)
]

finish-Counts :
    (failed signalled : Bool) (s : Spi)
    → s.data_ready_pending ≡ false
    → IsCounted s
    → s.sem_to_slave_queue ≤ s.spi_trans_ready_sem
    → Wakes false (finish failed signalled s)
unfolding finish
finish-Counts failed signalled s p c q = ground arith

execute-Counts :
    (l : Line) (s : Spi)
    → IsCounted s
    → s.sem_to_slave_queue ≤ s.spi_trans_ready_sem + 1
    → After (Wakes false) (execute l s)
unfolding execute
execute-Counts l s c h =
    let s0 : Spi = record s { data_ready_pending = false } in
    then-After (Taken s0) (Wakes false) (get_next_tx_buffer l.tx_block s0) _
      (get_next_tx_buffer-Taken l.tx_block s0)
      λ tx k.
        if-After (Wakes false)
          (l.data_ready
            || s.data_ready_pending
            || tx.1
            || (tx.3).schedule_dummy_tx
            || (tx.3).schedule_dummy_rx)
          _ _
          (λ _.
            then-After (PairKeeps tx.3) (Wakes false) (exchange l tx.0 tx.2 tx.3) _
              (exchange-Keeps tx.3 l tx.0 tx.2 tx.3 (refl, refl, refl, refl))
              λ r kr.
                finish-Counts r.0 (s.data_ready_pending || l.data_ready) r.1 (kr.2 ∙ k.2)
                  (ap waiting kr.3 ∙ k.3 c ∙ sym kr.1) (omega arith))
          (λ _.
            finish-Counts true (s.data_ready_pending || l.data_ready) tx.3 k.2 (k.3 c)
              (omega arith))

-- Every transfer over the line fails, on the bus or in the check of what has come.
abbrev pub Fails : Line → Type 0
Fails l = (rxbuff : ℕ) (b : Buffer) (s : Spi) → After (λ r. r.0 ≡ true) (transfer_rx l rxbuff b s)

exchange-Fails :
    (l : Line) (b : Option Buffer) (ff : FreeFunc) (s : Spi)
    → Fails l
    → After (λ r. r.0 ≡ true) (exchange l b ff s)
unfolding exchange
exchange-Fails l b ff s f =
    let P = λ (r : Bool × Spi). r.0 ≡ true in
    bind-After P (choose_tx l b ff s) _ λ tx.
      bind-After P l.rx_block _
        λ rxbuff. then-After P P (transfer_rx l rxbuff tx.0 tx.2) _ (f rxbuff tx.0 tx.2) λ r e. e

finish-latched :
    (failed signalled : Bool) (s : Spi)
    → failed ≡ true
    → signalled ≡ true
    → (finish failed signalled s).data_ready_pending ≡ true
unfolding finish
finish-latched failed signalled s e f = rw (e, f) refl

-- A signal that is latched, or stands on the line, is latched after a transaction that fails.
execute-latched :
    (l : Line) (s : Spi)
    → Fails l
    → (s.data_ready_pending || l.data_ready) ≡ true
    → After (λ t. t.data_ready_pending ≡ true) (execute l s)
unfolding execute
execute-latched l s f e =
    let P = λ (t : Spi). t.data_ready_pending ≡ true in
    bind-After P (get_next_tx_buffer l.tx_block (record s { data_ready_pending = false })) _ λ tx.
      if-After P
        (l.data_ready
          || s.data_ready_pending
          || tx.1
          || (tx.3).schedule_dummy_tx
          || (tx.3).schedule_dummy_rx)
        _ _
        (λ _.
          then-After (λ r. r.0 ≡ true) P (exchange l tx.0 tx.2 tx.3) _
            (exchange-Fails l tx.0 tx.2 tx.3 f)
            λ r k. finish-latched r.0 (s.data_ready_pending || l.data_ready) r.1 k e)
        (λ _. finish-latched true (s.data_ready_pending || l.data_ready) tx.3 refl e)

-- The task sleeps or waits for its semaphore.
abbrev pub is_asleep : Spi → Bool
is_asleep s = not (leb 1 s.transport_state) || s.spi_trans_ready_sem == 0

-- One step of the driver, with what is owed before and after it: an interrupt, a packet from the
-- layers above, or a round of the SPI task that runs to its end. A round in which the task is
-- asleep or the handshake line is low leaves the debt; one whose transfers fail leaves it, and adds
-- to it the signal on the line; any other round may settle it.
pub data Step : Bool → Spi → Bool → Spi → Type 0 where
  handshake : {o : Bool} (s : Spi) → Step o s o (gpio_hs_isr_handler s)
  data_ready : {o : Bool} (s : Spi) → Step o s true (gpio_dr_isr_handler s)
  send :
      {o : Bool} (queue_ok : Bool) (iface_type iface_num : ℕ) (wbuffer : Option Buffer) (wlen : ℕ)
      (zcopy free_fun : Bool) (s : Spi)
      → Step o s o (esp_hosted_tx queue_ok iface_type iface_num wbuffer wlen zcopy free_fun s).1
  idle :
      {o : Bool} (l : Line) (s t : Spi)
      → (is_asleep s ≡ true) ⊎ (l.handshake ≡ false)
      → spi_transaction_task l s ≡ some t
      → Step o s o t
  missed :
      {o : Bool} (l : Line) (s t : Spi)
      → is_asleep s ≡ false
      → l.handshake ≡ true
      → Fails l
      → spi_transaction_task l s ≡ some t
      → Step o s (o || l.data_ready) t
  round : {o : Bool} (l : Line) (s t : Spi) → spi_transaction_task l s ≡ some t → Step o s false t

pub data Reach (o : Bool) (s : Spi) : Bool → Spi → Type 0 where
  here : Reach o s o s
  next : {o' o'' : Bool} {t u : Spi} → Reach o s o' t → Step o' t o'' u → Reach o s o'' u

task-Counts :
    {o : Bool} (l : Line) (s : Spi) → Wakes o s → After (Wakes false) (spi_transaction_task l s)
unfolding spi_transaction_task check_and_execute_spi_transaction
task-Counts l s w =
    if-After (Wakes false) (is_asleep s) _ _ (λ _. settled w)
      λ busy.
        if-After (Wakes false) l.handshake _ _
          (λ _.
            execute-Counts l (record s { spi_trans_ready_sem = s.spi_trans_ready_sem - 1 })
              w.counted (omega (arith, w.queued)))
          (λ _. record {
            kept = inl refl;
            latched = inr (omega arith);
            counted = w.counted;
            queued = omega (arith, w.queued);
          })

-- Such a round leaves the latch.
idle-latch :
    (l : Line) (s : Spi)
    → (is_asleep s ≡ true) ⊎ (l.handshake ≡ false)
    → After (λ t. t.data_ready_pending ≡ s.data_ready_pending) (spi_transaction_task l s)
unfolding spi_transaction_task check_and_execute_spi_transaction
idle-latch l s (inl e) = rw (e) refl
idle-latch l s (inr e) =
    if-After (λ t. t.data_ready_pending ≡ s.data_ready_pending) (is_asleep s) _ _ (λ _. refl)
      λ _. rw (e) refl

failed-latch :
    (l : Line) (s : Spi)
    → is_asleep s ≡ false
    → l.handshake ≡ true
    → Fails l
    → (s.data_ready_pending || l.data_ready) ≡ true
    → After (λ t. t.data_ready_pending ≡ true) (spi_transaction_task l s)
unfolding spi_transaction_task check_and_execute_spi_transaction
failed-latch l s a h f e =
    rw (a, h) (execute-latched l (record s { spi_trans_ready_sem = s.spi_trans_ready_sem - 1 }) f e)

waiting-enqueue : (h : BufHandle) (q : Queues) → waiting (enqueue h q) ≡ waiting q + 1
unfolding enqueue
waiting-enqueue h q = ground (
  arith,
  length-append q.serial (h ∷ []),
  length-append q.bt (h ∷ []),
  length-append q.others (h ∷ []),
)

send-Wakes :
    {o : Bool} (queue_ok : Bool) (iface_type iface_num : ℕ) (wbuffer : Option Buffer) (wlen : ℕ)
    (zcopy free_fun : Bool) (s : Spi)
    → Wakes o s
    → Wakes o (esp_hosted_tx queue_ok iface_type iface_num wbuffer wlen zcopy free_fun s).1
unfolding esp_hosted_tx
send-Wakes queue_ok ty num none wlen zcopy free_fun s w = w
send-Wakes queue_ok ty num (some b) wlen zcopy free_fun s w =
    ground (arith, waiting-enqueue (tx_handle ty num b wlen zcopy free_fun) s.to_slave_queue)

Step-Wakes : {o o' : Bool} {s t : Spi} → Step o s o' t → Wakes o s → Wakes o' t
unfolding gpio_hs_isr_handler gpio_dr_isr_handler
Step-Wakes (handshake s) w = ground arith
Step-Wakes (data_ready s) w = record {
  kept = inr refl;
  latched = inr (omega arith);
  counted = w.counted;
  queued = omega (arith, w.queued);
}
Step-Wakes (send ok ty num b wlen z f s) w = send-Wakes ok ty num b wlen z f s w
Step-Wakes (idle l s t i e) w =
    owing (After-some (Wakes false) _ (task-Counts l s w) e)
      (still s t (After-some _ _ (idle-latch l s i) e) w.kept)
Step-Wakes {o} (missed l s t a h f e) w =
    owing (After-some (Wakes false) _ (task-Counts l s w) e)
      (debt o s l t w.kept λ k. After-some _ _ (failed-latch l s a h f k) e)
Step-Wakes (round l s t e) w = After-some (Wakes false) _ (task-Counts l s w) e

-- From a state in which no wake-up is missing, whatever interrupts come, packets are sent, and
-- transactions succeed or fail, in whatever order: the task's semaphore has a unit for every packet
-- that waits, and as long as the slave's data-ready signal is latched; and the signal is latched
-- from the interrupt, or from a failed transaction that found it on the line, until a round whose
-- transfer does not fail.
pub Reach-Wakes :
    {o : Bool} {s : Spi} {o' : Bool} {t : Spi} → Reach o s o' t → Wakes o s → Wakes o' t
Reach-Wakes here w = w
Reach-Wakes (next r st) w = Step-Wakes st (Reach-Wakes r w)
