-- ===== src/Transport/RxTask/Ownership/Priv.antt =====
-- Taking an init event, in esp-hosted/host/drivers/transport/transport_drv.c, does not free the
-- buffer of the packet that holds it.
use rt_thread_esp_hosted.Common.{
  ℕ, suc, ◌+◌, ◌%◌, ◌≡◌, ◌≢◌, refl, Bool, true, false, ◌||◌, not, Option, none, some, List, ◌∷◌,
  Buffer, frees, ◌==◌, ltb, After, bind-After, then-After, if-After, if-holds, load, drop, length,
}
use rt_thread_esp_hosted.Adapter.{BufHandle}
use rt_thread_esp_hosted.Spi.{
  max_payload_size, is_transport_tx_ready, enqueue, Spi, free_handle, esp_hosted_tx, tx_handle,
}
use rt_thread_esp_hosted.Transport.{esp_priv_event_init, send_slave_config, form_slave_config}
use rt_thread_esp_hosted.Transport.Init.{
  HostConfig, Transport, is_known_chip, transport_up, transport_driver_event_handler, init_loop,
  conclude_init, process_init_event, process_event, process_priv_communication,
}
use rt_thread_esp_hosted.Transport.RxTask.Ownership.{frees_other}

tx-Keeps :
    (block : ℕ) (ok : Bool) (ty num : ℕ) (b : Buffer) (len : ℕ) (s : Spi)
    → b.ident ≢ block
    → frees block (esp_hosted_tx ok ty num (some b) len false true s).1.heap ≡ frees block s.heap
unfolding esp_hosted_tx tx_handle free_handle
tx-Keeps block ok ty num b len s ne =
    if-holds (λ (r : Bool × Spi). frees block r.1.heap ≡ frees block s.heap)
      (len == 0 || ltb max_payload_size len || not (is_transport_tx_ready s) || not ok)
      (false, record s { heap = b.ident ∷ s.heap })
      (
        true,
        record s {
          to_slave_queue = enqueue (tx_handle ty num b len false true) s.to_slave_queue;
          sem_to_slave_queue = s.sem_to_slave_queue + 1;
          spi_trans_ready_sem = s.spi_trans_ready_sem + 1;
        },
      )
      (frees_other block b.ident s.heap ne) refl

config-Keeps :
    (block : ℕ) (ok : Bool) (sendbuf : Option Buffer) (cap chip raw low high : ℕ) (s : Spi)
    → ((b : Buffer) → sendbuf ≡ some b → b.ident ≢ block)
    → After
        (λ r. frees block r.1.heap ≡ frees block s.heap)
        (send_slave_config ok sendbuf cap chip raw low high s)
unfolding send_slave_config
config-Keeps block ok none cap chip raw low high s f = tt
config-Keeps block ok (some b) cap chip raw low high s f =
    bind-After _ (form_slave_config cap chip raw low high b.bytes) _
      λ e. tx-Keeps block ok _ 0 (record b { bytes = e.0 }) _ s (f b refl)

module _ (block : ℕ) (config : HostConfig) (ok : Bool) (sendbuf : Option Buffer)
    (f : (b : Buffer) → sendbuf ≡ some b → b.ident ≢ block) where
  unfoldable pub Keeps : Transport → Option Transport → Type 0
  Keeps t = After (λ t'. frees block t'.spi.heap ≡ frees block t.spi.heap)

  init-Keeps :
      (evt : List ℕ) (len : ℕ) (t : Transport)
      → After
          (λ r. frees block r.1.spi.heap ≡ frees block t.spi.heap)
          (process_init_event config ok sendbuf evt len t)
  unfolding process_init_event conclude_init transport_driver_event_handler transport_up
  init-Keeps evt len t =
      if-After _ (ltb 64 len) none _ (λ _. tt)
        λ _.
          bind-After _ (init_loop config (suc (length evt)) evt (len % 256) t.chip_type) _ λ chip.
            if-After _ (is_known_chip chip) _ _
              (λ _.
                then-After (λ (r : Bool × Spi). frees block r.1.heap ≡ frees block t.spi.heap) _
                  (send_slave_config ok sendbuf 0 chip config.raw_tp_dir config.low_threshold
                    config.high_threshold (record t.spi { transport_state = 2 }))
                  _
                  (config-Keeps block ok sendbuf 0 chip config.raw_tp_dir config.low_threshold
                    config.high_threshold (record t.spi { transport_state = 2 }) f)
                  (λ r k. k))
              (λ _. refl)

  event-Keeps :
      (evt : List ℕ) (len : ℕ) (t : Transport)
      → After
          (λ (t' : Transport). frees block t'.spi.heap ≡ frees block t.spi.heap)
          (process_event config ok sendbuf evt len t)
  unfolding process_event
  event-Keeps evt len t =
      if-After P (len == 0) (some t) _ (λ _. refl)
        λ _. bind-After P (load evt 0) _ λ ty.
          if-After P (ty == esp_priv_event_init) _ (some t)
            (λ _. bind-After P (load evt 1) _ λ n.
              then-After (λ (r : Bool × Transport). P r.1) P
                (process_init_event config ok sendbuf (drop 2 evt) n t) _
                (init-Keeps (drop 2 evt) n t) (λ r k. k))
            (λ _. refl)
    where
      P : Transport → Type 0
      P t' = frees block t'.spi.heap ≡ frees block t.spi.heap

  pub priv-Keeps :
      (h : BufHandle) (t : Transport) → Keeps t (process_priv_communication config ok sendbuf h t)
  unfolding process_priv_communication Keeps
  priv-Keeps h t =
      if-After (λ (t' : Transport). frees block t'.spi.heap ≡ frees block t.spi.heap)
        (h.payload_len == 0) (some t) (process_event config ok sendbuf h.payload h.payload_len t)
        (λ _. refl) (λ _. event-Keeps h.payload h.payload_len t)
