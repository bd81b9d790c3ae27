-- ===== src/Tests/Connect.antt =====
-- The start of the transport: the host waits for the slave, and the two exchange their events.
use mathlib.Core.Option.{none-ne-some}
use rt_thread_esp_hosted.Common.{
  ℕ, suc, ◌≡◌, ◌≢◌, ap, ◌∙◌, refl, Bool, true, false, Option, none, some, [], ◌∷◌, ◌++◌, arith,
  Buffer, replicate, Ensures, After, frees, ◌==◌,
}
use rt_thread_esp_hosted.Adapter.{BufHandle, esp_sta_if}
use rt_thread_esp_hosted.Spi.{Spi, Queues, dequeue, dequeue_serial, dequeue_bt, dequeue_others}
use rt_thread_esp_hosted.Serial.Ll.{null}
use rt_thread_esp_hosted.Slave.Startup.{SlaveConfig}
use rt_thread_esp_hosted.Transport.Init.{HostConfig, is_known_chip}
use rt_thread_esp_hosted.Transport.Reconfigure.{
  Link, reset_slave, count_retry, sleep, wait_loop, finish_reconfigure, transport_drv_reconfigure,
}
use rt_thread_esp_hosted.Transport.Reconfigure.Live.{Waits, reconfigure_live}
use rt_thread_esp_hosted.Transport.Reconfigure.Stuck.{calls, retry_stuck}
use rt_thread_esp_hosted.Transport.RxTask.{RxEnv, Host, rx_round}
use rt_thread_esp_hosted.Transport.RxTask.Connect.{empty, Connects, connect}
use rt_thread_esp_hosted.Transport.RxTask.Ownership.Serial.{IsOther}
use rt_thread_esp_hosted.Transport.RxTask.Ownership.Once.{AreOthers, rx_round_once}

abbrev down : Link
down = record { transport_state = 0; retry = 997; resets = 0; slept = 0 }

-- The event comes in the second round.
abbrev second : ℕ → Bool
second n = n == 1

comes_up :
    transport_drv_reconfigure second down
    ≡ some (true, record { transport_state = 2; retry = 0; resets = 1; slept = 2 })
unfolding transport_drv_reconfigure wait_loop count_retry reset_slave sleep finish_reconfigure
comes_up = refl

reconfigure_live_example : Ensures (Waits second down) (transport_drv_reconfigure second down)
reconfigure_live_example = reconfigure_live second down (omega arith)

-- Three rounds without an event use up the retries; the third resets the slave once more.
abbrev failed : Link
failed = record { transport_state = 1; retry = 1000; resets = 2; slept = 3 }

fails : transport_drv_reconfigure (λ n. false) down ≡ some (false, failed)
unfolding transport_drv_reconfigure wait_loop count_retry reset_slave sleep finish_reconfigure
fails = refl

retry_stuck_example :
    Ensures
      (λ r. (r.0 ≡ false ∷ false ∷ []) × (r.1.resets ≡ 4) × (r.1.retry ≡ 1000))
      (calls ((λ n. true) ∷ second ∷ []) failed)
retry_stuck_example = retry_stuck (λ n. false) ((λ n. true) ∷ second ∷ []) down failed fails

abbrev esp32c6 : SlaveConfig
esp32c6 = record { chip_id = 13; rx_queue_size = 20; tx_queue_size = 20; raw_tp_cap = 0 }

abbrev host_config : HostConfig
host_config = record { exp_chip_id = 13; raw_tp_dir = 0; low_threshold = 60; high_threshold = 80 }

abbrev answer : Buffer
answer = record { ident = 3; bytes = replicate 20 7 }

abbrev copied : Buffer
copied = record { ident = 4; bytes = replicate 8 7 }

abbrev env : RxEnv
env = record {
  malloc = λ n. none;
  beyond = [];
  serial_ok = true;
  copy = some copied;
  has_rx = λ n. true;
  rx_returns_0 = λ c. true;
  config = host_config;
  sendbuf = some answer;
  tx_ok = true;
}

abbrev spi : Queues → ℕ → Spi
spi q n = record {
  transport_state = 1;
  to_slave_queue = empty;
  from_slave_queue = q;
  sem_to_slave_queue = 0;
  sem_from_slave_queue = n;
  spi_trans_ready_sem = 0;
  schedule_dummy_tx = false;
  schedule_dummy_rx = false;
  data_ready_pending = false;
  wifi_tx_throttling = 0;
  heap = [];
}

abbrev host : Queues → ℕ → Host
host q n = record {
  transport = record { chip_type = 255; up_cb = true; up_calls = 0; spi = spi q n };
  serial = record {
    interface0 = none;
    interface1 = none;
    conn_num = 0;
    r_len = 0;
    r_data = null;
    heap = [];
    callbacks = 0;
  };
  calls = [];
}

known : is_known_chip 13 ≡ true
unfolding is_known_chip
known = refl

connect_example :
    Connects esp32c6 env
      (host empty 0)
      answer
      0
      2
      (record { ident = 9; bytes = replicate 29 0 ++ [] })
      5
      []
connect_example =
    connect esp32c6 env (host empty 0) answer 0 2 9 5 [] [] refl known refl refl (omega arith) refl
      refl

abbrev packet : BufHandle
packet = record {
  priv_buffer_handle = some 5;
  if_type = esp_sta_if;
  if_num = 0;
  payload = 1 ∷ 2 ∷ 3 ∷ [];
  flag = 0;
  payload_len = 3;
  seq_num = 0;
  payload_zcopy = false;
  free_buf_handle = true;
}

abbrev waiting : Queues
waiting = record { serial = []; bt = []; others = packet ∷ [] }

first : dequeue waiting ≡ some (packet, empty)
unfolding dequeue dequeue_serial dequeue_bt dequeue_others
first = refl

ident_of : Option Buffer → ℕ
ident_of none = 0
ident_of (some b) = b.ident

-- Two allocations that answer with other blocks.
other : (a b : Buffer) → some a ≡ some b → a.ident ≢ 5 → b.ident ≢ 5
unfolding ident_of
other a b e ne q = ne (ap ident_of e ∙ q)

others : AreOthers 5 env (host waiting 1)
unfolding IsOther
others = record {
  malloc = λ n b e. absurd (none-ne-some _ e);
  copy = λ b e. other copied b e (λ q. absurd (omega (arith, q)));
  sendbuf = λ b e. other answer b e (λ q. absurd (omega (arith, q)));
  fragments = tt;
}

rx_round_once_example :
    After
      (λ host'. frees 5 host'.transport.spi.heap ≡ suc (frees 5 []))
      (rx_round env (host waiting 1))
rx_round_once_example =
    rx_round_once 5 env (host waiting 1) packet empty (λ e. absurd (omega (arith, e))) first
      (record { handle = refl; with_func = refl; no_zcopy = refl }) others
