-- ===== src/Tests/Lifecycle.antt =====
-- Starting and stopping the remote calls.
use rt_thread_esp_hosted.Common.{◌≡◌, refl, false, none, some, [], ◌∷◌}
use rt_thread_esp_hosted.Serial.Drv.{serial_drv_open}
use rt_thread_esp_hosted.Serial.Ll.{SerialLl, null}
use rt_thread_esp_hosted.Serial.Ll.Lifecycle.{serial_ll_init, serial_ll_open}
use rt_thread_esp_hosted.Rpc.Core.Lifecycle.{
  RpcLib, open_ll, rpc_platform_init, close_failed, open_platform, transport_pserial_open,
  rpc_core_deinit, fail_init, spawn_rpc_threads, init_queues, rpc_core_init,
}
use rt_thread_esp_hosted.Rpc.Core.Lifecycle.Restart.{fresh, creating, Restarts, restart}

abbrev ll : SerialLl
ll = record {
  interface0 = none;
  interface1 = none;
  conn_num = 0;
  r_len = 0;
  r_data = null;
  heap = [];
  callbacks = 0;
}

restart_example : Restarts (fresh ll []) (creating 1 2 3 4 5 6 7 8) (8 ∷ 7 ∷ 2 ∷ 1 ∷ 6 ∷ 5 ∷ [])
restart_example = restart ll [] 1 2 3 4 5 6 7 8

-- Without the threads the start fails and nothing that it has created is released, since the
-- state is not ready yet.
fails_late :
    (lib : RpcLib) × (rpc_core_init
        (record (creating 1 2 3 4 5 6 7 8) { tx_thread = none })
        (fresh ll [])
      ≡ some (false, lib))
    × (lib.released ≡ [])
    × (lib.serial_handle ≡ some 2)
unfolding rpc_core_init transport_pserial_open serial_drv_open open_platform rpc_platform_init
    open_ll serial_ll_init serial_ll_open close_failed init_queues spawn_rpc_threads rpc_core_deinit
    fail_init
fails_late = (_, refl, refl, refl)
