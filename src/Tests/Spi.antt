-- ===== src/Tests/Spi.antt =====
-- The SPI driver: a signal of the slave, a transfer that fails, and a packet.
use rt_thread_esp_hosted.Common.{◌≡◌, refl, inl, true, false, none, some, [], ◌∷◌, arith}
use rt_thread_esp_hosted.Adapter.Header.{store_if_type}
use rt_thread_esp_hosted.Spi.{Spi, Queues, esp_hosted_tx, get_next_tx_buffer}
use rt_thread_esp_hosted.Spi.Transaction.{
  Line, gpio_dr_isr_handler, spi_transaction_task, check_and_execute_spi_transaction, execute,
  exchange, choose_tx, dummy_buffer, transfer_rx, finish,
}
use rt_thread_esp_hosted.Spi.Transaction.Wakeup.{
  Wakes, here, next, data_ready, send, missed, Fails, Reach-Wakes,
}

abbrev empty : Queues
empty = record { serial = []; bt = []; others = [] }

abbrev quiet : Spi
quiet = record {
  transport_state = 2;
  to_slave_queue = empty;
  from_slave_queue = empty;
  sem_to_slave_queue = 0;
  sem_from_slave_queue = 0;
  spi_trans_ready_sem = 0;
  schedule_dummy_tx = false;
  schedule_dummy_rx = false;
  data_ready_pending = false;
  wifi_tx_throttling = 0;
  heap = [];
}

quiet-Wakes : Wakes false quiet
quiet-Wakes = record { kept = inl refl; latched = inl refl; counted = refl; queued = omega arith }

-- The handshake line is high, and the bus fails.
abbrev broken : Line
broken = record {
  handshake = true;
  data_ready = false;
  tx_block = none;
  dummy_block = some 6;
  rx_block = some 7;
  transfer = λ b. none;
  queue_ok = true;
}

broken-Fails : Fails broken
unfolding transfer_rx
broken-Fails rxbuff b s = refl

abbrev retried : Spi
retried = record quiet { spi_trans_ready_sem = 1; data_ready_pending = true; heap = 6 ∷ 7 ∷ [] }

fails_once : spi_transaction_task broken (gpio_dr_isr_handler quiet) ≡ some retried
unfolding spi_transaction_task check_and_execute_spi_transaction execute exchange choose_tx
    dummy_buffer transfer_rx finish get_next_tx_buffer store_if_type gpio_dr_isr_handler
fails_once = refl

Reach-Wakes_example :
    Wakes true
      (esp_hosted_tx true 1 0 (some (record { ident = 5; bytes = 1 ∷ [] })) 1 false true retried).1
unfolding gpio_dr_isr_handler
Reach-Wakes_example =
    Reach-Wakes
      (next
        (next (next here (data_ready quiet))
          (missed broken (gpio_dr_isr_handler quiet) retried refl refl broken-Fails fails_once))
        (send true 1 0 (some (record { ident = 5; bytes = 1 ∷ [] })) 1 false true retried))
      quiet-Wakes
