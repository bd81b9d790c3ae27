-- ===== src/Slave/Config.antt =====
-- The slave's side of the configuration, `host_to_slave_reconfig` and `process_priv_pkt` of
-- esp-hosted/slave/main/app_main.c, built without the raw throughput test.
pub mod Received
pub mod Loop
use rt_thread_esp_hosted.Common.{
  ℕ, zero, suc, ◌+◌, ◌-◌, ◌%◌, ◌^◌, Bool, true, false, Option, none, some, List, [], ◌∷◌,
  if◌then◌else◌, ◌==◌, ltb, ◌>>=◌, load, length, drop,
}
use rt_thread_esp_hosted.Transport.{
  esp_priv_event_init, host_capabilities, rcvd_esp_firmware_chip_id, slv_config_test_raw_tp,
  slv_config_throttle_high_threshold, slv_config_throttle_low_threshold,
}

-- `slv_cfg_g`
pub record SlvConfig : Type 0 where
  pub throttle_high_threshold : ℕ
  pub throttle_low_threshold : ℕ

-- The chain of tests in a round of the loop; a field that is only logged is read all the same.
unfoldable pub take_field : List ℕ → ℕ → SlvConfig → Option SlvConfig
take_field pos tag c =
    if tag == host_capabilities
    then some c
    else if tag == rcvd_esp_firmware_chip_id
    then (load pos 2 >>= λ v. some c)
    else if tag == slv_config_test_raw_tp
    then (load pos 2 >>= λ v. some c)
    else if tag == slv_config_throttle_high_threshold
    then (load pos 2 >>= λ v. some (record c { throttle_high_threshold = v }))
    else if tag == slv_config_throttle_low_threshold
    then (load pos 2 >>= λ v. some (record c { throttle_low_threshold = v }))
    else some c

-- The loop on fuel; `len_left` has 8 bits, and `pos` is what the pointer reaches.
unfoldable pub reconfig_loop : ℕ → List ℕ → ℕ → SlvConfig → Option SlvConfig
reconfig_loop zero pos len_left c = none
reconfig_loop (suc n) pos len_left c =
    let rest = λ (tag_len : ℕ) (c' : SlvConfig).
      reconfig_loop n (drop (tag_len + 2) pos) ((len_left + 512 - (tag_len + 2)) % 256) c' in
    if len_left == 0
    then some c
    else (do tag_len ← load pos 1; tag ← load pos 0; c' ← take_field pos tag c; rest tag_len c')

-- `host_to_slave_reconfig`
unfoldable pub host_to_slave_reconfig : List ℕ → ℕ → SlvConfig → Option SlvConfig
host_to_slave_reconfig evt_buf len c =
    if ltb 64 len then none else reconfig_loop (suc (length evt_buf)) evt_buf (len % 256) c

-- `process_priv_pkt`, for a payload that is not NULL
unfoldable pub process_priv_pkt : List ℕ → ℕ → SlvConfig → Option SlvConfig
process_priv_pkt payload payload_len c = if payload_len == 0 then some c else (do
  event_type ← load payload 0
  if event_type == esp_priv_event_init
      then (load payload 1 >>= λ event_len. host_to_slave_reconfig (drop 2 payload) event_len c)
      else some c)
