-- ===== src/Tests/Outbound.antt =====
-- A message on its way out: sent, and refused.
use rt_thread_esp_hosted.Common.{
  ℕ, ◌≡◌, refl, true, false, none, some, List, [], ◌∷◌, ◌++◌, arith, Ensures,
}
use rt_thread_esp_hosted.Spi.{Spi, Queues, free_spi, get_next_tx_buffer}
use rt_thread_esp_hosted.Spi.Rx.{process_spi_rx_buf, rx_ok}
use rt_thread_esp_hosted.Spi.RoundTrip.{received, after_rx}
use rt_thread_esp_hosted.Serial.Tlv.{rpc_ep_name_rsp}
use rt_thread_esp_hosted.Serial.Tlv.RoundTrip.{tlv_frame}
use rt_thread_esp_hosted.Serial.Drv.{SerialDrv}
use rt_thread_esp_hosted.Serial.Ll.{SerialLl, SerialLlHandle, null, active}
use rt_thread_esp_hosted.Serial.If.{transport_pserial_send}
use rt_thread_esp_hosted.Serial.If.Outbound.{outbound, spi_fops, out_state, queued, packet_of}
use rt_thread_esp_hosted.Serial.If.Failure.{double_free}

abbrev handle : SerialLlHandle
handle = record {
  block = 1;
  queue = some [];
  if_type = 3;
  if_num = 0;
  state = active;
  serial_rx_callback = true;
}

abbrev ll : SerialLl
ll = record {
  interface0 = some handle;
  interface1 = none;
  conn_num = 1;
  r_len = 0;
  r_data = null;
  heap = [];
  callbacks = 0;
}

abbrev none_queued : Queues
none_queued = record { serial = []; bt = []; others = [] }

abbrev spi : ℕ → Spi
spi transport_state = record {
  transport_state = transport_state;
  to_slave_queue = none_queued;
  from_slave_queue = none_queued;
  sem_to_slave_queue = 0;
  sem_from_slave_queue = 0;
  spi_trans_ready_sem = 0;
  schedule_dummy_tx = false;
  schedule_dummy_rx = false;
  data_ready_pending = false;
  wifi_tx_throttling = 0;
  heap = [];
}

abbrev driver : ℕ → SerialDrv (SerialLl × Spi)
driver transport_state = record {
  serial_ll_if = some (spi_fops true);
  read_semaphore = some 0;
  low = (ll, spi transport_state);
  heap = [];
}

outbound_example :
    (frame : List ℕ) × (padding : List ℕ) × (t' : Spi) × (transport_pserial_send true
        (some 5)
        (7 ∷ 9 ∷ [])
        2
        (driver 2)
      ≡ some (true, out_state (driver 2) ll (spi 2) 5 (7 ∷ 9 ∷ [])))
    × (get_next_tx_buffer (some 6) (queued 5 (7 ∷ 9 ∷ []) (spi 2) [])
        ≡ some (some (record { ident = 6; bytes = frame }), true, free_spi, t'))
    × (t'.heap ≡ 5 ∷ [])
    × (process_spi_rx_buf true (some (record { ident = 8; bytes = frame })) (spi 2)
        ≡ some (
          rx_ok,
          after_rx (spi 2) (
              received
                (packet_of 5 (7 ∷ 9 ∷ []))
                8
                (tlv_frame rpc_ep_name_rsp (7 ∷ 9 ∷ []) ++ padding)),
        ))
outbound_example =
    outbound (driver 2) handle ll (spi 2) (spi 2) 5 6 8 (7 ∷ 9 ∷ []) refl refl refl refl refl refl
      refl (omega arith) refl

double_free_example :
    Ensures
      (λ p. (p.0 ≡ false) × (p.1.heap ≡ 5 ∷ 5 ∷ []))
      (transport_pserial_send true (some 5) (7 ∷ 9 ∷ []) 2 (driver 1))
double_free_example =
    double_free (driver 1) handle ll (spi 1) 5 (7 ∷ 9 ∷ []) refl refl refl refl refl (omega arith)
