-- ===== src/Transport/RxTask/Ownership/Once.antt =====
-- A round of `spi_process_rx_task` of esp-hosted/host/drivers/transport/spi/spi_drv.c frees the
-- packet's buffer once, whichever handler the packet goes to.
use mathlib.Core.Path.{subst}
use rt_thread_esp_hosted.Common.{
  ℕ, suc, ◌-◌, ◌≡◌, ◌≢◌, refl, sym, ap, ◌∙◌, Bool, ◌||◌, Option, none, some, ◌∷◌, Buffer, Heap,
  frees, ◌==◌, ne→==, After, bind-After, then-After, if-After, if-holds, if_false, slice, copy_to,
  load,
}
use rt_thread_esp_hosted.Adapter.{BufHandle, esp_serial_if, esp_sta_if, esp_ap_if, esp_priv_if}
use rt_thread_esp_hosted.Spi.{Spi, Queues, dequeue, free_handle}
use rt_thread_esp_hosted.Serial.Ll.{SerialLl, serial_ll_rx_handler}
use rt_thread_esp_hosted.Transport.Init.{Transport, process_priv_communication}
use rt_thread_esp_hosted.Transport.RxTask.{
  RxEnv, RxCall, Host, with_spi, with_heap, rx_serial, rx_call, rx_copied, rx_network, rx_priv,
  rx_dispatch, rx_end, rx_taken, rx_round,
}
use rt_thread_esp_hosted.Transport.RxTask.Ownership.{
  IsOwned, Settled, frees_other, frees_same, free_owned, kept-Settled, freed-Settled,
}
use rt_thread_esp_hosted.Transport.RxTask.Ownership.Serial.{IsOther, serial_ll_rx_handler-Ends}
use rt_thread_esp_hosted.Transport.RxTask.Ownership.Priv.{Keeps, priv-Keeps}

-- No block that the round allocates, and no fragment that is kept, is `block`.
pub record AreOthers (block : ℕ) (env : RxEnv) (host : Host) : Type 0 where
  pub malloc : (n : ℕ) (b : Buffer) → env.malloc n ≡ some b → b.ident ≢ block
  pub copy : (b : Buffer) → env.copy ≡ some b → b.ident ≢ block
  pub sendbuf : (b : Buffer) → env.sendbuf ≡ some b → b.ident ≢ block
  pub fragments : IsOther block host.serial.r_data

module _ (block : ℕ) (env : RxEnv) (h : BufHandle) (o : IsOwned block h) where
  EndsHost : ℕ → Option (BufHandle × Host) → Type 0
  EndsHost n = After (λ r. Settled block n r.0 r.1.transport.spi.heap)

  call-Keeps :
      (c : Buffer) (host : Host)
      → c.ident ≢ block
      → frees block (rx_call env h c host).transport.spi.heap ≡ frees block host.transport.spi.heap
  unfolding rx_call
  call-Keeps c host ne =
      let call : RxCall = record { if_type = h.if_type; copy_payload = c; len = h.payload_len } in
      let called : Host = record host { calls = call ∷ host.calls } in
      if-holds
        (λ (t : Host). frees block t.transport.spi.heap ≡ frees block host.transport.spi.heap)
        (env.rx_returns_0 call) called (with_heap (c.ident ∷ host.transport.spi.heap) called) refl
        (frees_other block c.ident host.transport.spi.heap ne)

  network-Ends :
      (n : ℕ) (host : Host) (copy : Option Buffer)
      → ((b : Buffer) → copy ≡ some b → b.ident ≢ block)
      → frees block host.transport.spi.heap ≡ n
      → EndsHost n (rx_copied env h copy host)
  unfolding EndsHost rx_copied
  network-Ends n host none f e = tt
  network-Ends n host (some copy) f e = bind-After P (slice h.payload 0 h.payload_len) _ λ src.
      bind-After P (copy_to copy.bytes 0 src) _ λ bytes.
        subst
          (λ (r : BufHandle × Heap).
            Settled block n r.0
              (rx_call env h (record copy { bytes = bytes })
                (with_heap r.1 host)).transport.spi.heap)
          (sym (free_owned block h host.transport.spi.heap o))
          (freed-Settled block n h _ o (
            call-Keeps (record copy { bytes = bytes })
              (with_heap (block ∷ host.transport.spi.heap) host) (f copy refl)
            ∙ frees_same block host.transport.spi.heap
            ∙ ap suc e))
    where
      P : BufHandle × Host → Type 0
      P r = Settled block n r.0 r.1.transport.spi.heap

  serial-Ends :
      (n : ℕ) (host : Host)
      → AreOthers block env host
      → frees block host.transport.spi.heap ≡ n
      → EndsHost n (rx_serial env h host)
  unfolding EndsHost rx_serial
  serial-Ends n host a e =
      then-After (λ (r : Bool × BufHandle × SerialLl). Settled block n r.1 r.2.heap)
        (λ (r : BufHandle × Host). Settled block n r.0 r.1.transport.spi.heap)
        (serial_ll_rx_handler env.malloc env.beyond env.serial_ok (some h)
          (record host.serial { heap = host.transport.spi.heap }))
        _
        (serial_ll_rx_handler-Ends block h o env.malloc a.malloc n env.beyond env.serial_ok
          (record host.serial { heap = host.transport.spi.heap }) e a.fragments)
        (λ r k. k)

  priv-Ends :
      (n : ℕ) (host : Host)
      → AreOthers block env host
      → frees block host.transport.spi.heap ≡ n
      → EndsHost n (rx_priv env h host)
  unfolding EndsHost rx_priv Keeps
  priv-Ends n host a e =
      then-After (λ (t : Transport). frees block t.spi.heap ≡ frees block host.transport.spi.heap) P
        (process_priv_communication env.config env.tx_ok env.sendbuf h host.transport) _
        (priv-Keeps block env.config env.tx_ok env.sendbuf a.sendbuf h host.transport)
        λ t k. bind-After P (load h.payload 0) _ λ b. kept-Settled block n h t.spi.heap o (k ∙ e)
    where
      P : BufHandle × Host → Type 0
      P r = Settled block n r.0 r.1.transport.spi.heap

  dispatch-Ends :
      (n : ℕ) (host : Host)
      → AreOthers block env host
      → frees block host.transport.spi.heap ≡ n
      → EndsHost n (rx_dispatch env h host)
  unfolding EndsHost rx_dispatch rx_network
  dispatch-Ends n host a e =
      if-After P (h.if_type == esp_serial_if) (rx_serial env h host) _ (λ _. serial-Ends n host a e)
        λ _.
          if-After P ((h.if_type == esp_sta_if) || (h.if_type == esp_ap_if)) _ _
            (λ _.
              if-After P (env.has_rx h.if_type) (rx_copied env h env.copy host) (some (h, host))
                (λ _. network-Ends n host env.copy a.copy e) (λ _. kept))
            λ _.
              if-After P (h.if_type == esp_priv_if) (rx_priv env h host) (some (h, host))
                (λ _. priv-Ends n host a e) (λ _. kept)
    where
      P : BufHandle × Host → Type 0
      P r = Settled block n r.0 r.1.transport.spi.heap

      kept : P (h, host)
      kept = kept-Settled block n h host.transport.spi.heap o e

rx_end-frees :
    (block n : ℕ) (h : BufHandle) (host : Host)
    → Settled block n h host.transport.spi.heap
    → frees block (rx_end h host).transport.spi.heap ≡ suc n
unfolding Settled rx_end
rx_end-frees block n h host k =
    ap (λ (t : Host). frees block t.transport.spi.heap)
      (if_false host (with_heap (free_handle h host.transport.spi.heap).1 host) k.1)
    ∙ k.0

others-after :
    (block : ℕ) (env : RxEnv) (host : Host) {s : Spi}
    → AreOthers block env host
    → AreOthers block env (with_spi s host)
others-after block env host a = record {
  malloc = a.malloc;
  copy = a.copy;
  sendbuf = a.sendbuf;
  fragments = a.fragments;
}

-- A packet at the head of the receive queues, which their semaphore counts, in a buffer that the
-- driver has to free and that no other block of the round is: if the round runs to its end, the
-- buffer has been freed once more than before, whatever the interface is and whichever way its
-- handler ends, errors included.
pub rx_round_once :
    (block : ℕ) (env : RxEnv) (host : Host) (h : BufHandle) (q : Queues)
    → host.transport.spi.sem_from_slave_queue ≢ 0
    → dequeue host.transport.spi.from_slave_queue ≡ some (h, q)
    → IsOwned block h
    → AreOthers block env host
    → After
        (λ host'. frees block host'.transport.spi.heap ≡ suc (frees block host.transport.spi.heap))
        (rx_round env host)
unfolding rx_round rx_taken EndsHost
rx_round_once block env host h q sem deq o a =
    let s = host.transport.spi in
    let host' =
      with_spi
        (record s { sem_from_slave_queue = s.sem_from_slave_queue - 1; from_slave_queue = q })
        host in
    rw (ne→== s.sem_from_slave_queue 0 sem, deq)
      (then-After
        (λ (r : BufHandle × Host). Settled block (frees block s.heap) r.0 r.1.transport.spi.heap)
        (λ (t : Host). frees block t.transport.spi.heap ≡ suc (frees block s.heap))
        (rx_dispatch env h host') _
        (dispatch-Ends block env h o (frees block s.heap) host' (others-after block env host a)
          refl)
        λ r k. rx_end-frees block (frees block s.heap) r.0 r.1 k)
