-- ===== src/Transport/Init/Handshake.antt =====
-- The handshake of the two sides: `generate_startup_event` of esp-hosted/slave/main/spi_slave_api.c,
-- `process_spi_rx_buf` and `process_priv_communication` of the host, and what the slave's
-- `process_priv_pkt` takes from the host's answer.
use rt_thread_esp_hosted.Common.{
  ℕ, suc, ◌+◌, ◌*◌, ◌/◌, ◌%◌, ◌^◌, ◌≤◌, ◌<◌, ◌≡◌, refl, true, false, some, List, [], ◌∷◌, ◌++◌,
  arith, length, if◌then◌else◌, ==_refl, Buffer, drop,
}
use rt_thread_esp_hosted.Adapter.{BufHandle, esp_priv_if}
use rt_thread_esp_hosted.Adapter.Header.{
  compute_checksum, store16, load16, load_if_type, load_if_num, load_throttle_cmd, store_if_type,
  store_if_num,
}
use rt_thread_esp_hosted.Spi.{Spi, enqueue, tx_handle}
use rt_thread_esp_hosted.Spi.Frame.{compute_checksum-some}
use rt_thread_esp_hosted.Spi.Rx.{rx_ok, process_spi_rx_buf}
use rt_thread_esp_hosted.Transport.Init.{
  HostConfig, Transport, is_known_chip, transport_up, transport_driver_event_handler,
  verify_host_config_for_slave, take_tag, init_loop, conclude_init, process_init_event,
  process_event, process_priv_communication,
}
use rt_thread_esp_hosted.Slave.Config.{SlvConfig, process_priv_pkt}
use rt_thread_esp_hosted.Slave.Config.Received.{slave_config_lem}
use rt_thread_esp_hosted.Slave.Startup.{
  SlaveConfig, TxHandle, put_tag, startup_header, startup_event, generate_startup_event,
  dma_aligned,
}

-- The event as it arrives, without its header.
abbrev pub event_bytes : SlaveConfig → ℕ → List ℕ → List ℕ
event_bytes config capa rest =
    0x22
    ∷ 15
    ∷ 0x12
    ∷ 1
    ∷ config.chip_id % 256
    ∷ 0x11
    ∷ 1
    ∷ capa % 256
    ∷ 0x13
    ∷ 1
    ∷ config.raw_tp_cap % 256
    ∷ 0x14
    ∷ 1
    ∷ config.rx_queue_size % 256
    ∷ 0x15
    ∷ 1
    ∷ config.tx_queue_size % 256
    ∷ rest

abbrev pub event_frame : SlaveConfig → ℕ → ℕ → ℕ → List ℕ → List ℕ
event_frame config throttling capa checksum rest =
    5
    ∷ 0
    ∷ 17
    ∷ 0
    ∷ 12
    ∷ 0
    ∷ checksum % 256
    ∷ checksum / 256 % 256
    ∷ 0
    ∷ 0
    ∷ (0 + throttling % 4)
    ∷ 0x33
    ∷ event_bytes config capa rest

abbrev pub zeros : List ℕ → List ℕ
zeros rest =
    0 ∷ 0 ∷ 0 ∷ 0 ∷ 0 ∷ 0 ∷ 0 ∷ 0 ∷ 0 ∷ 0 ∷ 0 ∷ 0 ∷ 0 ∷ 0 ∷ 0 ∷ 0 ∷ 0 ∷ 0 ∷ 0 ∷ 0 ∷ 0 ∷ 0 ∷ 0 ∷ 0
    ∷ 0 ∷ 0 ∷ 0 ∷ 0 ∷ 0 ∷ rest

pub startup_lem :
    (config : SlaveConfig) (throttling capa ident : ℕ) (rest : List ℕ) (queue : List TxHandle)
    → (c : ℕ) × (generate_startup_event config throttling
          (some (record { ident = ident; bytes = zeros rest }))
          capa
          queue
        ≡ some (
            queue
            ++ record { payload = event_frame config throttling capa c rest; payload_len = 32 }
              ∷ []))
      × (compute_checksum (event_frame config throttling capa 0 rest) 29 ≡ some c)
      × (c < 2 ^ 16)
unfolding generate_startup_event startup_header startup_event put_tag store16 store_if_type
    store_if_num dma_aligned
startup_lem config throttling capa ident rest queue =
    let (c, e, lt) =
      compute_checksum-some (event_frame config throttling capa 0 rest) 29 (omega arith) in
    (c, rw e refl, e, lt)

-- The handle under which the host queues the event, in the receive buffer `block`.
abbrev pub event_handle : SlaveConfig → ℕ → ℕ → List ℕ → BufHandle
event_handle config capa block rest = record {
  priv_buffer_handle = some block;
  if_type = esp_priv_if;
  if_num = 0;
  payload = event_bytes config capa rest;
  flag = 0;
  payload_len = 17;
  seq_num = 0;
  payload_zcopy = false;
  free_buf_handle = true;
}

pub rx_event :
    (config : SlaveConfig) (throttling capa checksum block : ℕ) (rest : List ℕ) (s : Spi)
    → compute_checksum (event_frame config throttling capa 0 rest) 29 ≡ some checksum
    → checksum < 2 ^ 16
    → process_spi_rx_buf true
        (some (record { ident = block; bytes = event_frame config throttling capa checksum rest }))
        s
      ≡ some (
        rx_ok,
        record s {
          wifi_tx_throttling = throttling % 4;
          from_slave_queue = enqueue (event_handle config capa block rest) s.from_slave_queue;
          sem_from_slave_queue = s.sem_from_slave_queue + 1;
        },
      )
unfolding process_spi_rx_buf load16 store16 load_if_type load_if_num load_throttle_cmd
rx_event config throttling capa checksum block rest s e lt =
    let ck : checksum % 256 + checksum / 256 % 256 * 2 ^ 8 ≡ checksum = omega arith in
    let th : (0 + throttling % 4) % 4 ≡ throttling % 4 = omega arith in
    rw (e, ck, ==_refl checksum, th) refl

take_event :
    (host : HostConfig) (config : SlaveConfig) (capa chip : ℕ) (rest : List ℕ)
    → config.chip_id % 256 ≡ host.exp_chip_id
    → init_loop host
        (suc (length (drop 2 (event_bytes config capa rest))))
        (drop 2 (event_bytes config capa rest))
        15
        chip
      ≡ some host.exp_chip_id
unfolding init_loop take_tag verify_host_config_for_slave
take_event host config capa chip rest e = rw (e, ==_refl host.exp_chip_id) refl

-- The host's state once it has taken the event and queued the answer `payload`.
abbrev pub after_event : HostConfig → Buffer → List ℕ → Transport → Transport
after_event host sendbuf payload t = record {
  chip_type = host.exp_chip_id;
  up_cb = t.up_cb;
  up_calls = if t.up_cb then suc t.up_calls else t.up_calls;
  spi = record t.spi {
    transport_state = 2;
    to_slave_queue =
        enqueue (tx_handle esp_priv_if 0 (record sendbuf { bytes = payload }) 17 false true)
          t.spi.to_slave_queue;
    sem_to_slave_queue = t.spi.sem_to_slave_queue + 1;
    spi_trans_ready_sem = t.spi.spi_trans_ready_sem + 1;
  };
}

pub process_event_lem :
    (host : HostConfig) (config : SlaveConfig) (capa block : ℕ) (rest : List ℕ) (sendbuf : Buffer)
    (t : Transport)
    → config.chip_id % 256 ≡ host.exp_chip_id
    → is_known_chip host.exp_chip_id ≡ true
    → 17 ≤ length sendbuf.bytes
    → (payload : List ℕ) × (process_priv_communication host true
          (some sendbuf)
          (event_handle config capa block rest)
          t
        ≡ some (after_event host sendbuf payload t))
      × ((c : SlvConfig)
          → process_priv_pkt payload 17 c
            ≡ some (record {
              throttle_high_threshold = host.high_threshold % 256;
              throttle_low_threshold = host.low_threshold % 256;
            }))
unfolding process_priv_communication process_event process_init_event conclude_init
    transport_driver_event_handler transport_up
process_event_lem host config capa block rest sendbuf t e known room =
    let up : Spi = record t.spi { transport_state = 2 } in
    let (payload, sent, got) =
      slave_config_lem sendbuf 0 host.exp_chip_id host.raw_tp_dir host.low_threshold
        host.high_threshold up room refl in
    (payload, rw (take_event host config capa t.chip_type rest e, known, sent) refl, got)
