-- ===== src/Spi/Transaction.antt =====
-- The SPI task of esp-hosted/host/drivers/transport/spi/spi_drv.c: one transaction, the interrupt
-- handlers that wake the task, and the steps that the driver takes between them. The levels of
-- the two lines, the transfer on the bus (`none` where it fails) and the answers of the allocator
-- and of the queue are arguments.
pub mod Keeps
pub mod Wakeup
use rt_thread_esp_hosted.Common.{
  ℕ, ◌+◌, ◌-◌, Bool, true, false, Option, none, some, List, ◌∷◌, if◌then◌else◌, ◌==◌, ◌||◌, ◌&&◌,
  not, ◌>>=◌, replicate, leb, Buffer,
}
use rt_thread_esp_hosted.Adapter.{esp_max_if}
use rt_thread_esp_hosted.Adapter.Header.{store_if_type}
use rt_thread_esp_hosted.Spi.{
  Spi, FreeFunc, free_null, free_spi, free_handle_func, get_next_tx_buffer, max_spi_buffer_size,
}
use rt_thread_esp_hosted.Spi.Rx.{RxResult, rx_failed, process_spi_rx_buf}

-- What a transaction meets outside.
pub record Line : Type 0 where
  pub handshake : Bool
  pub data_ready : Bool
  pub tx_block : Option ℕ
  pub dummy_block : Option ℕ
  pub rx_block : Option ℕ
  pub transfer : List ℕ → Option (List ℕ)
  pub queue_ok : Bool

-- A reset buffer with the interface type that no interface has.
unfoldable pub dummy_buffer : Option ℕ → Option Buffer
dummy_buffer none = none
dummy_buffer (some block) = store_if_type (replicate max_spi_buffer_size 0) esp_max_if >>= λ bytes.
    some (record { ident = block; bytes = bytes })

-- The buffer that is sent, its free function and `schedule_dummy_tx`.
unfoldable pub choose_tx : Line → Option Buffer → FreeFunc → Spi → Option (Buffer × FreeFunc × Spi)
unfolding dummy_buffer
choose_tx l none ff s =
    dummy_buffer l.dummy_block >>= λ b. some (b, free_spi, record s { schedule_dummy_tx = false })
choose_tx l (some b) ff s = some (b, ff, record s { schedule_dummy_tx = true })

-- The transfer into the receive buffer; true says that it, or the check of what came, failed.
unfoldable pub transfer_rx : Line → ℕ → Buffer → Spi → Option (Bool × Spi)
transfer_rx l rxbuff txbuff s = elim (l.transfer txbuff.bytes) [
  | none ↦ some (true, record s { heap = rxbuff ∷ s.heap })
  | some bytes ↦
      process_spi_rx_buf l.queue_ok (some (record { ident = rxbuff; bytes = bytes })) s >>= λ r.
      some (rx_failed r.0, r.1)
]

abbrev pub free_tx : FreeFunc → Buffer → Spi → Spi
free_tx free_null b s = s
free_tx _ b s = record s { heap = b.ident ∷ s.heap }

-- The transaction proper.
unfoldable pub exchange : Line → Option Buffer → FreeFunc → Spi → Option (Bool × Spi)
unfolding choose_tx transfer_rx
exchange l txbuff ff s = do
  tx ← choose_tx l txbuff ff s
  rxbuff ← l.rx_block
  r ← transfer_rx l rxbuff tx.0 tx.2
  some (r.0, free_tx tx.1 tx.0 r.1)

-- What follows it, up to the unlock: keep the data-ready signal for a retry, and wake the task
-- again.
unfoldable pub finish : Bool → Bool → Spi → Spi
finish failed signalled s =
    let retry_data_ready = failed && signalled in
    record s {
      data_ready_pending = retry_data_ready || s.data_ready_pending;
      spi_trans_ready_sem =
          if s.schedule_dummy_tx || s.schedule_dummy_rx || retry_data_ready
          then s.spi_trans_ready_sem + 1
          else s.spi_trans_ready_sem;
    }

-- With the slave ready for a transaction.
unfoldable pub execute : Line → Spi → Option Spi
unfolding exchange finish
execute l s = do
  let latched = s.data_ready_pending
  tx ← get_next_tx_buffer l.tx_block (record s { data_ready_pending = false })
  let s' = tx.3
  if l.data_ready || latched || tx.1 || s'.schedule_dummy_tx || s'.schedule_dummy_rx
      then (exchange l tx.0 tx.2 s' >>= λ r. some (finish r.0 (latched || l.data_ready) r.1))
      else some (finish true (latched || l.data_ready) s')

unfoldable pub check_and_execute_spi_transaction : Line → Spi → Option Spi
unfolding execute
check_and_execute_spi_transaction l s =
    if l.handshake
    then execute l s
    else some (record s { spi_trans_ready_sem = s.spi_trans_ready_sem + 1 })

-- The interrupts of the two lines.
unfoldable pub gpio_hs_isr_handler : Spi → Spi
gpio_hs_isr_handler s = record s { spi_trans_ready_sem = s.spi_trans_ready_sem + 1 }

unfoldable pub gpio_dr_isr_handler : Spi → Spi
gpio_dr_isr_handler s = record s {
  data_ready_pending = true;
  spi_trans_ready_sem = s.spi_trans_ready_sem + 1;
}

-- One round of `spi_transaction_task`: it sleeps until the transport may receive, and waits until
-- the semaphore has a unit.
unfoldable pub spi_transaction_task : Line → Spi → Option Spi
spi_transaction_task l s =
    if not (leb 1 s.transport_state) || s.spi_trans_ready_sem == 0
    then some s
    else check_and_execute_spi_transaction l
        (record s { spi_trans_ready_sem = s.spi_trans_ready_sem - 1 })
