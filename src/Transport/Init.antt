-- ===== src/Transport/Init.antt =====
-- The init event of the slave at the host, esp-hosted/host/drivers/transport/transport_drv.c,
-- built for SPI without the raw throughput test. The text that is logged is left out, but the
-- bytes that are read for it are read.
pub mod Handshake
use rt_thread_esp_hosted.Common.{
  ℕ, zero, suc, ◌+◌, ◌-◌, ◌*◌, ◌%◌, ◌^◌, Bool, true, false, Option, none, some, List, [], ◌∷◌,
  if◌then◌else◌, ◌==◌, ◌||◌, ltb, ◌>>=◌, ◌>>◌, check, load, length, drop, Buffer,
}
use rt_thread_esp_hosted.Adapter.{BufHandle}
use rt_thread_esp_hosted.Spi.{Spi}
use rt_thread_esp_hosted.Transport.{esp_priv_event_init, send_slave_config}

abbrev pub esp_priv_capability : ℕ
esp_priv_capability = 0x11

abbrev pub esp_priv_firmware_chip_id : ℕ
esp_priv_firmware_chip_id = 0x12

abbrev pub esp_priv_test_raw_tp : ℕ
esp_priv_test_raw_tp = 0x13

abbrev pub esp_priv_rx_q_size : ℕ
esp_priv_rx_q_size = 0x14

abbrev pub esp_priv_tx_q_size : ℕ
esp_priv_tx_q_size = 0x15

abbrev pub esp_priv_cap_ext : ℕ
esp_priv_cap_ext = 0x16

abbrev pub chip_unrecognized : ℕ
chip_unrecognized = 0xff

-- The chips that `process_init_event` knows.
unfoldable pub is_known_chip : ℕ → Bool
is_known_chip c =
    (c == 0x0) || (c == 0x2) || (c == 0x9) || (c == 0xc) || (c == 0x5) || (c == 0xd) || (c == 0x17)

-- The constants of the configuration: `exp_chip_id`, H_TEST_RAW_TP_DIR and the thresholds.
pub record HostConfig : Type 0 where
  pub exp_chip_id : ℕ
  pub raw_tp_dir : ℕ
  pub low_threshold : ℕ
  pub high_threshold : ℕ

-- `chip_type`; whether `transport_esp_hosted_up_cb` is set, and how often it was called; and the
-- SPI driver, which holds `transport_state`.
pub record Transport : Type 0 where
  pub chip_type : ℕ
  pub up_cb : Bool
  pub up_calls : ℕ
  pub spi : Spi

abbrev pub set_state : ℕ → Spi → Spi
set_state v s = record s { transport_state = v }

-- `transport_driver_event_handler(TRANSPORT_TX_ACTIVE)`
unfoldable pub transport_up : Transport → Transport
transport_up t = record t {
  up_calls = if t.up_cb then suc t.up_calls else t.up_calls;
  spi = set_state 2 t.spi;
}

-- `transport_driver_event_handler`; TRANSPORT_TX_ACTIVE is 2.
unfoldable pub transport_driver_event_handler : ℕ → Transport → Transport
transport_driver_event_handler event t = if event == 2 then transport_up t else t

-- `verify_host_config_for_slave` fails an assertion when the chips differ.
unfoldable pub verify_host_config_for_slave : HostConfig → ℕ → Option (Unit {0})
verify_host_config_for_slave config chip = check (chip == config.exp_chip_id)

-- `process_ext_capabilities`
unfoldable pub process_ext_capabilities : List ℕ → Option ℕ
process_ext_capabilities ptr = do
  a ← load ptr 0
  b ← load ptr 1
  c ← load ptr 2
  d ← load ptr 3
  some (a + b * 2 ^ 8 + c * 2 ^ 16 + d * 2 ^ 24)

-- The chain of tests in a round of the loop: the new `chip_type`.
unfoldable pub take_tag : HostConfig → List ℕ → ℕ → ℕ → Option ℕ
take_tag config pos tag chip =
    if tag == esp_priv_capability
    then (load pos 2 >>= λ v. some chip)
    else if tag == esp_priv_cap_ext
    then (process_ext_capabilities (drop 2 pos) >>= λ v. some chip)
    else if tag == esp_priv_firmware_chip_id
    then (load pos 2 >>= λ v. verify_host_config_for_slave config v >> some v)
    else if (tag == esp_priv_test_raw_tp)
        || (tag == esp_priv_rx_q_size)
        || (tag == esp_priv_tx_q_size)
    then (load pos 2 >>= λ v. some chip)
    else some chip

-- The loop on fuel; `len_left` has 8 bits, and `pos` is what the pointer reaches.
unfoldable pub init_loop : HostConfig → ℕ → List ℕ → ℕ → ℕ → Option ℕ
init_loop config zero pos len_left chip = none
init_loop config (suc n) pos len_left chip =
    let rest = λ (tag_len chip' : ℕ).
      init_loop config n (drop (tag_len + 2) pos) ((len_left + 512 - (tag_len + 2)) % 256) chip' in
    if len_left == 0 then some chip else (do
      tag_len ← load pos 1
      tag ← load pos 0
      chip' ← take_tag config pos tag chip
      rest tag_len chip')

-- What follows the loop.
unfoldable pub conclude_init :
    HostConfig → Bool → Option Buffer → Transport → Option (Bool × Transport)
conclude_init config queue_ok sendbuf t =
    let up = transport_driver_event_handler 2 t in
    if is_known_chip t.chip_type
    then (send_slave_config queue_ok sendbuf 0 t.chip_type config.raw_tp_dir config.low_threshold
          config.high_threshold up.spi
        >>= λ r. some (r.0, record up { spi = r.1 }))
    else some (false, record t { chip_type = chip_unrecognized })

-- `process_init_event`; true is 0. An event of more than 64 bytes fails an assertion.
unfoldable pub process_init_event :
    HostConfig → Bool → Option Buffer → List ℕ → ℕ → Transport → Option (Bool × Transport)
process_init_event config queue_ok sendbuf evt_buf len t =
    if ltb 64 len
    then none
    else (init_loop config (suc (length evt_buf)) evt_buf (len % 256) t.chip_type >>= λ chip.
        conclude_init config queue_ok sendbuf (record t { chip_type = chip }))

-- `process_event`
unfoldable pub process_event :
    HostConfig → Bool → Option Buffer → List ℕ → ℕ → Transport → Option Transport
process_event config queue_ok sendbuf evt_buf len t = if len == 0 then some t else (do
  event_type ← load evt_buf 0
  if event_type == esp_priv_event_init
      then (do
        event_len ← load evt_buf 1
        r ← process_init_event config queue_ok sendbuf (drop 2 evt_buf) event_len t
        some r.1)
      else some t)

-- `process_priv_communication` of a handle whose payload is not NULL
unfoldable pub process_priv_communication :
    HostConfig → Bool → Option Buffer → BufHandle → Transport → Option Transport
process_priv_communication config queue_ok sendbuf h t =
    if h.payload_len == 0
    then some t
    else process_event config queue_ok sendbuf h.payload h.payload_len t
