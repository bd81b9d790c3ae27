-- ===== src/Tests/SlaveSpi.antt =====
-- The slave's SPI interface: a packet in each direction, a round without a buffer, and a write
-- between the two halves of `get_next_tx_buffer`.
use rt_thread_esp_hosted.Common.{
  ℕ, ◌≡◌, refl, true, false, none, some, List, [], ◌∷◌, arith, length-replicate, replicate, Buffer,
  Ensures,
}
use rt_thread_esp_hosted.Adapter.{BufHandle}
use rt_thread_esp_hosted.Spi.{Spi, Queues, free_spi, get_next_tx_buffer, dequeue, free_handle}
use rt_thread_esp_hosted.Adapter.Header.{load16}
use rt_thread_esp_hosted.Spi.Rx.{rx_ok, process_spi_rx_buf}
use rt_thread_esp_hosted.Slave.Spi.{
  SlaveSpi, SlaveHandle, SlaveQueues, SlaveTrans, Throttle, esp_spi_write, queue_tx,
  find_wifi_tx_throttling, throttle_by_load, take_tx_buffer, dummy_tx_buffer,
}
use rt_thread_esp_hosted.Slave.Spi.Task.{Pools, process_spi_rx, post_process_round, esp_spi_read}
use rt_thread_esp_hosted.Slave.Spi.Exchange.{
  slave_to_host, host_to_slave, host_after, from_slave, slave_after, from_host,
}
use rt_thread_esp_hosted.Slave.Spi.Stall.{stalled, here, next, read}
use rt_thread_esp_hosted.Slave.Spi.Ready.{lost_ready}

abbrev config : Throttle
config = record {
  throttle_high_threshold = 80;
  throttle_low_threshold = 60;
  spi_rx_queue_size = 10;
}

abbrev no_handles : SlaveQueues
no_handles = record { serial = []; bt = []; others = [] }

abbrev answer : Buffer
answer = record { ident = 70; bytes = 21 ∷ 22 ∷ [] }

abbrev packet : SlaveHandle
packet = record {
  priv_buffer_handle = none;
  if_type = 3;
  if_num = 0;
  payload = some answer;
  flag = 0;
  payload_len = 2;
  seq_num = 7;
  free_buf_handle = false;
}

abbrev pool_block : Buffer
pool_block = record { ident = 71; bytes = replicate 1600 9 }

abbrev pending : SlaveTrans
pending = record {
  ident = 72;
  tx_buffer = record { ident = 73; bytes = [] };
  rx_buffer = record { ident = 74; bytes = [] };
}

abbrev slave : SlaveSpi
slave = record {
  spi_tx_sem = 0;
  spi_rx_sem = 0;
  spi_rx_queue = no_handles;
  spi_tx_queue = no_handles;
  current_throttling = 0;
  data_ready = false;
  queued = pending ∷ [];
  heap = [];
}

abbrev empty : Queues
empty = record { serial = []; bt = []; others = [] }

abbrev request : BufHandle
request = record {
  priv_buffer_handle = some 5;
  if_type = 1;
  if_num = 0;
  payload = 11 ∷ 12 ∷ 13 ∷ [];
  flag = 0;
  payload_len = 3;
  seq_num = 0;
  payload_zcopy = false;
  free_buf_handle = true;
}

abbrev host : Spi
host = record {
  transport_state = 2;
  to_slave_queue = record empty { others = request ∷ [] };
  from_slave_queue = empty;
  sem_to_slave_queue = 1;
  sem_from_slave_queue = 0;
  spi_trans_ready_sem = 1;
  schedule_dummy_tx = false;
  schedule_dummy_rx = false;
  data_ready_pending = false;
  wifi_tx_throttling = 0;
  heap = [];
}

slave_to_host_example :
    (frame : List ℕ) × (padding : List ℕ) × (esp_spi_write config (some pool_block) packet slave
      ≡ some (some 2, queue_tx packet (record { ident = 71; bytes = frame }) slave))
    × (process_spi_rx_buf true (some (record { ident = 4; bytes = frame })) host
        ≡ some (rx_ok, host_after host (from_slave packet 4 (21 ∷ 22 ∷ padding)) 0))
unfolding find_wifi_tx_throttling throttle_by_load
slave_to_host_example =
    slave_to_host config packet answer pool_block slave host 4
      (refl, omega arith, omega arith, omega arith, omega arith, omega arith, omega arith)
      (omega (arith, length-replicate {A = ℕ} 1600 9))

host_to_slave_example :
    (frame : List ℕ) × (padding : List ℕ) × (get_next_tx_buffer (some 9) host
      ≡ some (
        some (record { ident = 9; bytes = frame }),
        true,
        free_spi,
        record host { sem_to_slave_queue = 0; to_slave_queue = empty; heap = 5 ∷ [] },
      ))
    × (process_spi_rx (record { ident = 8; bytes = frame }) slave
        ≡ some (true, slave_after slave (from_host request 8 (11 ∷ 12 ∷ 13 ∷ padding))))
unfolding dequeue free_handle
host_to_slave_example =
    host_to_slave request empty host slave 9 8 (omega arith) refl
      (refl, omega arith, omega arith, omega arith, omega arith, omega arith, omega arith)

abbrev drained : Pools
drained = record { tx = none; trans = none; rx = none }

abbrev full : Pools
full = record { tx = some pool_block; trans = some 75; rx = some answer }

abbrev after_round : SlaveSpi
after_round = record slave { queued = []; heap = 72 ∷ 74 ∷ 73 ∷ [] }

stalled_example : post_process_round config full (replicate 1600 0) after_round ≡ some none
unfolding post_process_round esp_spi_read load16
stalled_example =
    stalled config slave after_round after_round pending drained (replicate 12 0) refl refl refl
      refl (next here read) full (replicate 1600 0)

lost_ready_example :
    (take_tx_buffer slave ≡ (none, slave))
    × Ensures
        (λ w.
          (w.0 ≡ some 2)
          × (w.1.data_ready ≡ true)
          × Ensures
              (λ d.
                (d.1.spi_tx_queue ≡ w.1.spi_tx_queue)
                × (d.1.spi_tx_sem ≡ 1)
                × (d.1.data_ready ≡ false))
              (dummy_tx_buffer config (some (record { ident = 76; bytes = replicate 1600 0 })) w.1))
        (esp_spi_write config (some pool_block) packet slave)
lost_ready_example =
    lost_ready config packet answer pool_block 76 slave
      (refl, omega arith, omega arith, omega arith, omega arith, omega arith, omega arith)
      (omega (arith, length-replicate {A = ℕ} 1600 9)) refl
