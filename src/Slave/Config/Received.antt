-- ===== src/Slave/Config/Received.antt =====
-- What the host's `send_slave_config` sends is what the slave's `process_priv_pkt` of
-- esp-hosted/slave/main/app_main.c sets.
use rt_thread_esp_hosted.Common.{
  ℕ, ◌+◌, ◌%◌, ◌≤◌, ◌≡◌, refl, ◌∙◌, ap, true, false, some, List, [], ◌∷◌, arith, length, Buffer,
  uncons, leb,
}
use rt_thread_esp_hosted.Adapter.{esp_priv_if}
use rt_thread_esp_hosted.Spi.{Spi, esp_hosted_tx, enqueue, tx_handle}
use rt_thread_esp_hosted.Transport.{send_slave_config, form_slave_config, put_field}
use rt_thread_esp_hosted.Slave.Config.{
  SlvConfig, take_field, reconfig_loop, host_to_slave_reconfig, process_priv_pkt,
}

-- A list of at least three elements shows them.
uncons3 :
    (n : ℕ) (xs : List ℕ)
    → 3 + n ≤ length xs
    → (x : ℕ) × (y : ℕ) × (z : ℕ) × (r : List ℕ) × (xs ≡ x ∷ y ∷ z ∷ r) × (n ≤ length r)
uncons3 n [] h = absurd (omega arith)
uncons3 n (x ∷ []) h = absurd (omega arith)
uncons3 n (x ∷ y ∷ []) h = absurd (omega arith)
uncons3 n (x ∷ y ∷ z ∷ r) h = (x, y, z, r, refl, omega arith)

-- The event in memory, in front of the bytes `rest`.
abbrev config_event : ℕ → ℕ → ℕ → ℕ → ℕ → List ℕ → List ℕ
config_event host_cap chip raw low high rest =
    34
    ∷ 15
    ∷ 68
    ∷ 1
    ∷ host_cap % 256
    ∷ 69
    ∷ 1
    ∷ chip % 256
    ∷ 70
    ∷ 1
    ∷ raw % 256
    ∷ 71
    ∷ 1
    ∷ high % 256
    ∷ 72
    ∷ 1
    ∷ low % 256
    ∷ rest

form_lem-cons :
    (host_cap chip raw low high : ℕ) (a b c0 c1 c2 d0 d1 d2 f0 f1 f2 g0 g1 g2 i0 i1 i2 : ℕ)
    (rest : List ℕ)
    → form_slave_config host_cap chip raw low high
        (a ∷ b ∷ c0 ∷ c1 ∷ c2 ∷ d0 ∷ d1 ∷ d2 ∷ f0 ∷ f1 ∷ f2 ∷ g0 ∷ g1 ∷ g2 ∷ i0 ∷ i1 ∷ i2 ∷ rest)
      ≡ some (config_event host_cap chip raw low high rest, 15)
unfolding form_slave_config put_field
form_lem-cons host_cap chip raw low high a b c0 c1 c2 d0 d1 d2 f0 f1 f2 g0 g1 g2 i0 i1 i2 rest =
    refl

form_lem :
    (host_cap chip raw low high : ℕ) (buf : List ℕ)
    → 17 ≤ length buf
    → (rest : List ℕ) × (form_slave_config host_cap chip raw low high buf
        ≡ some (config_event host_cap chip raw low high rest, 15))
form_lem host_cap chip raw low high buf h =
    let (a, r0, e0, h0) = uncons 16 buf h in
    let (b, r1, e1, h1) = uncons 15 r0 h0 in
    let (c0, c1, c2, r2, e2, h2) = uncons3 12 r1 h1 in
    let (d0, d1, d2, r3, e3, h3) = uncons3 9 r2 h2 in
    let (f0, f1, f2, r4, e4, h4) = uncons3 6 r3 h3 in
    let (g0, g1, g2, r5, e5, h5) = uncons3 3 r4 h4 in
    let (i0, i1, i2, r6, e6, h6) = uncons3 0 r5 h5 in
    (
      r6,
      ap (form_slave_config host_cap chip raw low high) (
            e0
            ∙ ap (λ l. a ∷ l)
                (e1
                  ∙ ap (λ l. b ∷ l)
                      (e2
                        ∙ ap (λ l. c0 ∷ c1 ∷ c2 ∷ l)
                            (e3
                              ∙ ap (λ l. d0 ∷ d1 ∷ d2 ∷ l)
                                  (e4
                                    ∙ ap (λ l. f0 ∷ f1 ∷ f2 ∷ l)
                                        (e5 ∙ ap (λ l. g0 ∷ g1 ∷ g2 ∷ l) e6))))))
          ∙ form_lem-cons host_cap chip raw low high a b c0 c1 c2 d0 d1 d2 f0 f1 f2 g0 g1 g2 i0 i1
              i2 r6,
    )

reconfig_lem :
    (host_cap chip raw low high : ℕ) (rest : List ℕ) (c : SlvConfig)
    → process_priv_pkt (config_event host_cap chip raw low high rest) 17 c
      ≡ some (record { throttle_high_threshold = high % 256; throttle_low_threshold = low % 256 })
unfolding process_priv_pkt host_to_slave_reconfig reconfig_loop take_field
reconfig_lem host_cap chip raw low high rest c = refl

-- While the transport may send and its queue has room, with a block of at least 17 bytes,
-- whatever they are: the configuration is queued as a private packet of 17 bytes, and when the
-- slave processes a packet with these bytes, it has exactly the two thresholds that the host
-- gave, in 8 bits, whatever it had before.
pub slave_config_lem :
    (sendbuf : Buffer) (host_cap chip raw low high : ℕ) (s : Spi)
    → 17 ≤ length sendbuf.bytes
    → leb 2 s.transport_state ≡ true
    → (payload : List ℕ) × (send_slave_config true (some sendbuf) host_cap chip raw low high s
        ≡ some (
          true,
          record s {
            to_slave_queue =
                enqueue
                  (tx_handle esp_priv_if 0 (record sendbuf { bytes = payload }) 17 false true)
                  s.to_slave_queue;
            sem_to_slave_queue = s.sem_to_slave_queue + 1;
            spi_trans_ready_sem = s.spi_trans_ready_sem + 1;
          },
        ))
      × ((c : SlvConfig)
          → process_priv_pkt payload 17 c
            ≡ some (record {
              throttle_high_threshold = high % 256;
              throttle_low_threshold = low % 256;
            }))
unfolding send_slave_config esp_hosted_tx
slave_config_lem sendbuf host_cap chip raw low high s h ready =
    let (rest, e) = form_lem host_cap chip raw low high sendbuf.bytes h in
    (
      config_event host_cap chip raw low high rest,
      rw (e, ready),
      reconfig_lem host_cap chip raw low high rest,
    )
