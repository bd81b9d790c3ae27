-- ===== src/Transport/RxTask/Connect.antt =====
-- The connection of the two sides, from `generate_startup_event` of
-- esp-hosted/slave/main/spi_slave_api.c through the host's receiving task to the configuration
-- that the slave's `process_priv_pkt` takes.
use rt_thread_esp_hosted.Common.{
  ℕ, suc, ◌+◌, ◌%◌, ◌≤◌, ◌≡◌, refl, true, false, some, List, [], ◌∷◌, ◌++◌, length, replicate,
  if◌then◌else◌, Buffer,
}
use rt_thread_esp_hosted.Adapter.{esp_priv_if}
use rt_thread_esp_hosted.Spi.{
  Spi, Queues, enqueue, tx_handle, dequeue, dequeue_serial, dequeue_bt, dequeue_others, free_handle,
}
use rt_thread_esp_hosted.Spi.Rx.{rx_ok, process_spi_rx_buf}
use rt_thread_esp_hosted.Transport.Init.{HostConfig, Transport, is_known_chip}
use rt_thread_esp_hosted.Transport.Init.Handshake.{
  event_frame, event_handle, startup_lem, rx_event, process_event_lem,
}
use rt_thread_esp_hosted.Transport.RxTask.{
  RxEnv, Host, with_spi, rx_priv, rx_dispatch, rx_end, rx_taken, rx_round,
}
use rt_thread_esp_hosted.Slave.Config.{SlvConfig, process_priv_pkt}
use rt_thread_esp_hosted.Slave.Startup.{SlaveConfig, TxHandle, generate_startup_event}

abbrev pub empty : Queues
empty = record { serial = []; bt = []; others = [] }

-- The host after the round: it may send, its answer `payload` is queued, and the receive buffer
-- `block` is free again.
abbrev pub connected : HostConfig → Buffer → List ℕ → ℕ → ℕ → Host → Host
connected config sendbuf payload block throttling host =
    let s = host.transport.spi in
    record host {
      transport = record {
        chip_type = config.exp_chip_id;
        up_cb = host.transport.up_cb;
        up_calls =
            if host.transport.up_cb then suc host.transport.up_calls else host.transport.up_calls;
        spi = record s {
          transport_state = 2;
          to_slave_queue =
              enqueue (tx_handle esp_priv_if 0 (record sendbuf { bytes = payload }) 17 false true)
                s.to_slave_queue;
          from_slave_queue = empty;
          sem_to_slave_queue = s.sem_to_slave_queue + 1;
          sem_from_slave_queue = 0;
          spi_trans_ready_sem = s.spi_trans_ready_sem + 1;
          wifi_tx_throttling = throttling % 4;
          heap = block ∷ s.heap;
        };
      };
    }

-- What happens between the slave's start and its new configuration: the event `frame` is queued,
-- the host accepts it, takes it, and answers with `payload`, which the slave takes.
abbrev pub Connects :
    SlaveConfig → RxEnv → Host → Buffer → ℕ → ℕ → Buffer → ℕ → List TxHandle → Type 0
Connects slave env host sendbuf throttling capa buf block queue =
    (frame payload : List ℕ) × (received : Spi) × (generate_startup_event slave throttling
        (some buf) capa queue
      ≡ some (queue ++ record { payload = frame; payload_len = 32 } ∷ []))
    × (process_spi_rx_buf true (some (record { ident = block; bytes = frame })) host.transport.spi
        ≡ some (rx_ok, received))
    × (rx_round env (with_spi received host)
        ≡ some (connected env.config sendbuf payload block throttling host))
    × ((c : SlvConfig)
        → process_priv_pkt payload 17 c
          ≡ some (record {
            throttle_high_threshold = env.config.high_threshold % 256;
            throttle_low_threshold = env.config.low_threshold % 256;
          }))

-- A slave with a zeroed block of at least 29 bytes, and a host whose receive queues are empty,
-- that expects the slave's chip, knows it, and has a block of at least 17 bytes and room in its
-- queue for the answer. The init event that the slave sends is accepted by the host in any
-- receive buffer. The next round of the receiving task takes it: the transport may send from then
-- on, the chip is known, the callback that is set is called once, the receive buffer is free
-- again, and the answer is queued. When the slave processes the answer, it has exactly the
-- two thresholds of the host's configuration, in 8 bits, whatever it had before.
pub connect :
    (slave : SlaveConfig) (env : RxEnv) (host : Host) (sendbuf : Buffer)
    (throttling capa ident block : ℕ) (rest : List ℕ) (queue : List TxHandle)
    → slave.chip_id % 256 ≡ env.config.exp_chip_id
    → is_known_chip env.config.exp_chip_id ≡ true
    → env.sendbuf ≡ some sendbuf
    → env.tx_ok ≡ true
    → 17 ≤ length sendbuf.bytes
    → host.transport.spi.from_slave_queue ≡ empty
    → host.transport.spi.sem_from_slave_queue ≡ 0
    → Connects slave env host sendbuf throttling capa
        (record { ident = ident; bytes = replicate 29 0 ++ rest })
        block
        queue
unfolding rx_round rx_taken dequeue dequeue_serial dequeue_bt dequeue_others enqueue rx_dispatch
    rx_priv rx_end free_handle
connect slave env host sendbuf throttling capa ident block rest queue chip known buf ok room q0
      sem0 =
    let (c, sent, sum, lt) = startup_lem slave throttling capa ident rest queue in
    let s = host.transport.spi in
    let t : Transport = record host.transport {
      spi = record s {
        wifi_tx_throttling = throttling % 4;
        from_slave_queue = empty;
        sem_from_slave_queue = 0;
      };
    } in
    let (payload, got, answered) =
      process_event_lem env.config slave capa block rest sendbuf t chip known room in
    (
      event_frame slave throttling capa c rest,
      payload,
      record s {
        wifi_tx_throttling = throttling % 4;
        from_slave_queue = enqueue (event_handle slave capa block rest) s.from_slave_queue;
        sem_from_slave_queue = s.sem_from_slave_queue + 1;
      },
      sent,
      rx_event slave throttling capa c block rest s sum lt,
      rw (sem0, q0, ok, buf, got) refl,
      answered,
    )
