-- ===== src/Slave/Spi/Stall.antt =====
-- How the slave's side of the bus can stop: a round of the task that gets no buffer leaves the
-- driver of the bus without a transaction, and what the tasks do from there never queues one.
use rt_thread_esp_hosted.Common.{
  ℕ, ◌+◌, ◌%◌, ◌^◌, ◌≡◌, refl, ◌∙◌, Bool, false, Option, none, some, List, [], ◌∷◌, ◌==◌, Buffer,
  After, bind-After, then-After, eq→==, if_true, if-After, if-holds, After-some, Option-cases, inl,
  inr, ltb, arith,
}
use rt_thread_esp_hosted.Adapter.Header.{header_size, load16, store16, compute_checksum}
use rt_thread_esp_hosted.Slave.Startup.{dma_aligned}
use rt_thread_esp_hosted.Slave.Spi.{
  SlaveSpi, SlaveHandle, SlaveTrans, Throttle, esp_spi_write, write_payload, queue_tx,
  find_wifi_tx_throttling, take_tx_buffer, dummy_tx_buffer, tx_or_dummy, get_next_tx_buffer,
  receive_first, spi_buffer_size, write_frame,
}
use rt_thread_esp_hosted.Slave.Spi.Task.{
  Pools, queue_trans, queue_next_transaction, queue_rx, process_spi_rx, post_process,
  post_process_round, esp_spi_read, ReadResult, slave_rx_handle,
}

-- The driver has the same transactions as in `s`.
abbrev Same {ℓ} : {A : Type ℓ} → SlaveSpi → A × SlaveSpi → Type 0
Same s r = r.1.queued ≡ s.queued

find_throttling-Same :
    (config : Throttle) (s : SlaveSpi) → Same {A = ℕ} s (find_wifi_tx_throttling config s)
unfolding find_wifi_tx_throttling
find_throttling-Same config s = ground arith

payload-Same :
    (config : Throttle) (block : Option Buffer) (h : SlaveHandle) (src : Buffer) (s : SlaveSpi)
    → After (Same {A = Option ℕ} s) (write_payload config block h src s)
unfolding write_payload queue_tx
payload-Same config block h src s =
    let P = Same {A = Option ℕ} s in
    if-After P (ltb spi_buffer_size (dma_aligned (h.payload_len + header_size))) _ _ (λ _. refl)
      (λ _. bind-After P block _ (λ buf.
        bind-After P (write_frame h (find_wifi_tx_throttling config s).0 src.bytes buf.bytes) _
          (λ b. find_throttling-Same config s)))

write-Same :
    (config : Throttle) (block : Option Buffer) (h : SlaveHandle) (s : SlaveSpi)
    → After (Same {A = Option ℕ} s) (esp_spi_write config block h s)
unfolding esp_spi_write
write-Same config block h s =
    if-After (Same {A = Option ℕ} s) (h.payload_len == 0) _ _ (λ _. refl) (λ _. go h.payload)
  where
    go :
        (p : Option Buffer)
        → After
            (Same {A = Option ℕ} s)
            (elim p [ none ↦ some (none, s) | some src ↦ write_payload config block h src s ])
    go none = refl
    go (some src) = payload-Same config block h src s

read-Same : (s : SlaveSpi) → Same {A = ReadResult} s (esp_spi_read s)
unfolding esp_spi_read
read-Same s = elim (Option-cases (receive_first s.spi_rx_queue)) [
  | inl e ↦ rw (e) (if-holds (Same {A = ReadResult} s) (s.spi_rx_sem == 0) _ _ refl refl)
  | inr (r, e) ↦ rw (e) (if-holds (Same {A = ReadResult} s) (s.spi_rx_sem == 0) _ _ refl refl)
]

rx-Same : (buf : Buffer) (s : SlaveSpi) → After (Same {A = Bool} s) (process_spi_rx buf s)
unfolding process_spi_rx queue_rx
rx-Same buf s =
    let P = Same {A = Bool} s in
    bind-After P (load16 buf.bytes 2) _ λ len. bind-After P (load16 buf.bytes 4) _ λ offset.
      if-After P (len == 0) _ _ (λ _. refl)
        λ _.
          if-After P (ltb spi_buffer_size (len + offset)) _ _ (λ _. refl)
            λ _. bind-After P (load16 buf.bytes 6) _ λ rx.
              bind-After P (store16 buf.bytes 6 0) _ λ b.
                bind-After P (compute_checksum b ((len + offset) % 2 ^ 16)) _ λ c.
                  if-After P (c == rx) _ _
                    (λ _.
                      bind-After P (slave_rx_handle buf.ident b ((len + offset) % 2 ^ 16)) _
                        λ h. refl)
                    (λ _. refl)

-- Without data and without a buffer there is nothing to queue.
take_none : (s : SlaveSpi) → s.spi_tx_sem ≡ 0 → take_tx_buffer s ≡ (none, s)
unfolding take_tx_buffer
take_none s z = if_true _ _ (eq→== s.spi_tx_sem 0 z)

get_next_none :
    (config : Throttle) (s : SlaveSpi) (block : Option Buffer)
    → s.spi_tx_sem ≡ 0
    → block ≡ none
    → get_next_tx_buffer config block s ≡ some (none, 0, record s { data_ready = false })
unfolding get_next_tx_buffer tx_or_dummy dummy_tx_buffer
get_next_none config s block z e = rw (e, take_none s z) refl

next_none :
    (config : Throttle) (pools : Pools) (s : SlaveSpi)
    → pools.tx ≡ none
    → s.spi_tx_sem ≡ 0
    → queue_next_transaction config pools s ≡ some (record s { data_ready = false })
unfolding queue_next_transaction queue_trans
next_none config pools s e z = simp (get_next_none config s pools.tx z e)

post_process-none :
    (config : Throttle) (pools : Pools) (t : SlaveTrans) (s : SlaveSpi)
    → pools.tx ≡ none
    → s.spi_tx_sem ≡ 0
    → s.queued ≡ []
    → After (λ s'. s'.queued ≡ []) (post_process config pools t s)
unfolding post_process
post_process-none config pools t s e z q =
    let s1 : SlaveSpi = record s { data_ready = false; heap = t.tx_buffer.ident ∷ s.heap } in
    rw (next_none config pools s e z) (
      then-After (Same {A = Bool} s1) (λ s'. s'.queued ≡ []) (process_spi_rx t.rx_buffer s1) _
        (rx-Same t.rx_buffer s1) (λ r same. same ∙ q))

-- What the tasks do once the slave has started: a write, a read, and a round that does not wait.
pub data Step (config : Throttle) : SlaveSpi → SlaveSpi → Type 0 where
  write :
      {s s' : SlaveSpi} (block : Option Buffer) (h : SlaveHandle) (r : Option ℕ)
      → esp_spi_write config block h s ≡ some (r, s')
      → Step config s s'
  read : {s : SlaveSpi} → Step config s (esp_spi_read s).1
  round :
      {s s' : SlaveSpi} (pools : Pools) (received : List ℕ)
      → post_process_round config pools received s ≡ some (some s')
      → Step config s s'

pub data Reach (config : Throttle) : SlaveSpi → SlaveSpi → Type 0 where
  here : {s : SlaveSpi} → Reach config s s
  next : {s s' s'' : SlaveSpi} → Reach config s s' → Step config s' s'' → Reach config s s''

waits :
    (config : Throttle) (pools : Pools) (received : List ℕ) (s : SlaveSpi)
    → s.queued ≡ []
    → post_process_round config pools received s ≡ some none
unfolding post_process_round
waits config pools received s q = rw (q) refl

no_progress : {s : SlaveSpi} {m : Option (Option SlaveSpi)} → m ≡ some none → m ≡ some (some s) → ⊥
no_progress e f = cc

Step-empty :
    {config : Throttle} {s s' : SlaveSpi} → Step config s s' → s.queued ≡ [] → s'.queued ≡ []
Step-empty {config} {s} (write block h r e) q =
    After-some (Same {A = Option ℕ} s) _ (write-Same config block h s) e ∙ q
Step-empty {config} {s} read q = read-Same s ∙ q
Step-empty {config} {s} (round pools received e) q =
    absurd (no_progress (waits config pools received s q) e)

Reach-empty :
    {config : Throttle} {s s' : SlaveSpi} → Reach config s s' → s.queued ≡ [] → s'.queued ≡ []
Reach-empty here q = q
Reach-empty (next r step) q = Step-empty step (Reach-empty r q)

abbrev AllEmpty : Option SlaveSpi → Type 0
AllEmpty none = Unit
AllEmpty (some s) = s.queued ≡ []

round_none :
    (config : Throttle) (pools : Pools) (received : List ℕ) (s : SlaveSpi) {t : SlaveTrans}
    → s.queued ≡ t ∷ []
    → s.spi_tx_sem ≡ 0
    → pools.tx ≡ none
    → After AllEmpty (post_process_round config pools received s)
unfolding post_process_round
round_none config pools received s {t} q z e =
    let s1 : SlaveSpi = record s { queued = [] } in
    let t1 : SlaveTrans = record t {
      rx_buffer = record { ident = t.rx_buffer.ident; bytes = received };
    } in
    rw (q) (
      then-After (λ s'. s'.queued ≡ []) AllEmpty (post_process config pools t1 s1) _
        (post_process-none config pools t1 s1 e z refl) (λ s' e. e))

-- The slave's only transaction `t` is done, no packet waits to be sent, and the pool gives no
-- buffer for the next round: if the round ends, the driver of the bus has no transaction. Then
-- whatever writes, reads and rounds follow, whatever the pools give, the task waits for ever.
pub stalled :
    (config : Throttle) (s s1 s2 : SlaveSpi) (t : SlaveTrans) (pools : Pools) (received : List ℕ)
    → s.queued ≡ t ∷ []
    → s.spi_tx_sem ≡ 0
    → pools.tx ≡ none
    → post_process_round config pools received s ≡ some (some s1)
    → Reach config s1 s2
    → (pools' : Pools) (received' : List ℕ)
    → post_process_round config pools' received' s2 ≡ some none
stalled config s s1 s2 t pools received q z e run reach pools' received' =
    waits config pools' received' s2
      (Reach-empty reach (After-some AllEmpty _ (round_none config pools received s q z e) run))
