-- ===== src/Tests/Slave.antt =====
-- The slave's handler on a request, on a malformed one, and with fuel to spare.
use rt_thread_esp_hosted.Common.{
  true, false, ℕ, ◌≡◌, refl, Option, none, some, List, [], ◌∷◌, arith, replicate, leb,
}
use rt_thread_esp_hosted.Serial.Tlv.{rpc_ep_name_rsp}
use rt_thread_esp_hosted.Serial.Tlv.RoundTrip.{tlv_frame}
use rt_thread_esp_hosted.Slave.Pserial.{Parsed, Services, ended, parse_loop, rpc_req_handler}
use rt_thread_esp_hosted.Adapter.{esp_priv_if}
use rt_thread_esp_hosted.Spi.{Spi, enqueue, tx_handle}
use rt_thread_esp_hosted.Transport.{send_slave_config}
use rt_thread_esp_hosted.Slave.Config.{SlvConfig, host_to_slave_reconfig, process_priv_pkt}
use rt_thread_esp_hosted.Slave.Config.Received.{slave_config_lem}
use rt_thread_esp_hosted.Slave.Config.Loop.{reconfig_overrun}
use rt_thread_esp_hosted.Slave.Pserial.Answer.{rpc_req_handler_lem}
use rt_thread_esp_hosted.Slave.Pserial.Overrun.{overrun}
use rt_thread_esp_hosted.Slave.Pserial.Fuel.{parse_loop-ended}

-- A protocol that answers with the data and a zero, memory for 20 bytes, and a transmission that
-- fails.
abbrev echo : Services
echo = record {
  req_handle = λ epname bytes. some (0 ∷ bytes);
  calloc = λ n. leb n 20;
  xmit = λ bytes. false;
}

rpc_req_handler_lem_example :
    rpc_req_handler echo (tlv_frame rpc_ep_name_rsp (7 ∷ 9 ∷ [])) 14
    ≡ some (false, some (tlv_frame rpc_ep_name_rsp (0 ∷ 7 ∷ 9 ∷ [])))
rpc_req_handler_lem_example = rpc_req_handler_lem echo (7 ∷ 9 ∷ []) (omega arith) (omega arith)

overrun_example : rpc_req_handler echo (2 ∷ 5 ∷ 0 ∷ 1 ∷ []) 4 ≡ none
overrun_example = overrun echo 5 0 (1 ∷ []) (omega arith) (omega arith) (omega arith)

abbrev start : Parsed
start = record { epname = replicate 16 0; tlv_data = none; data_len = 0 }

parse_loop-ended_example :
    (r : Option (Option Parsed)) × (parse_loop 15 (tlv_frame rpc_ep_name_rsp (7 ∷ 9 ∷ [])) 14 start
      ≡ ended r)
parse_loop-ended_example =
    parse_loop-ended 15 (tlv_frame rpc_ep_name_rsp (7 ∷ 9 ∷ [])) 14 start (omega arith)

abbrev thresholds : SlvConfig
thresholds = record { throttle_high_threshold = 1; throttle_low_threshold = 2 }

abbrev ready : Spi
ready = record {
  transport_state = 2;
  to_slave_queue = record { serial = []; bt = []; others = [] };
  from_slave_queue = record { serial = []; bt = []; others = [] };
  sem_to_slave_queue = 0;
  sem_from_slave_queue = 0;
  spi_trans_ready_sem = 0;
  schedule_dummy_tx = false;
  schedule_dummy_rx = false;
  data_ready_pending = false;
  wifi_tx_throttling = 0;
  heap = [];
}

slave_config_lem_example :
    (payload : List ℕ) × (send_slave_config true
        (some (record { ident = 3; bytes = replicate 20 9 }))
        0
        13
        0
        60
        80
        ready
      ≡ some (
        true,
        record ready {
          to_slave_queue =
              enqueue
                (tx_handle esp_priv_if 0 (record { ident = 3; bytes = payload }) 17 false true)
                (record { serial = []; bt = []; others = [] });
          sem_to_slave_queue = 1;
          spi_trans_ready_sem = 1;
        },
      ))
    × ((c : SlvConfig)
        → process_priv_pkt payload 17 c
          ≡ some (record { throttle_high_threshold = 80; throttle_low_threshold = 60 }))
slave_config_lem_example =
    slave_config_lem (record { ident = 3; bytes = replicate 20 9 }) 0 13 0 60 80 ready (omega arith)
      refl

reconfig_overrun_example : host_to_slave_reconfig (71 ∷ 9 ∷ 80 ∷ []) 3 thresholds ≡ none
reconfig_overrun_example =
    reconfig_overrun 71 9 (80 ∷ []) thresholds (omega arith) (omega arith) (omega arith)
