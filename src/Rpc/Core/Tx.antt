-- ===== src/Rpc/Core/Tx.antt =====
-- The sending thread, esp-hosted/host/drivers/rpc/core/rpc_core.c: `process_rpc_tx_msg`, the
-- timeout of an asynchronous request, and the wait for a synchronous response.
pub mod Kept
pub mod Failure
use rt_thread_esp_hosted.Common.{
  ℕ, ◌+◌, Bool, true, false, Option, none, some, List, [], ◌∷◌, if◌then◌else◌, ◌==◌, leb, ◌>>=◌,
}
use rt_thread_esp_hosted.Rpc.Table.{Slot, find_uid, clear_uid}
use rt_thread_esp_hosted.Rpc.{RpcCore, Cmd, is_available, resp_id, rpc_id_resp_max}
use rt_thread_esp_hosted.Rpc.Core.{set_async_resp_callback}
use rt_thread_esp_hosted.Rpc.Core.Rx.{
  run_callback, queue_resp, wake_waiter, post_sync_resp_sem, is_sync_resp_sem_available, free_block,
}

-- The error numbers of `rpc_core.h`, as `failure_status` gets them; they are enumerators.
pub record Errors : Type 0 where
  pub memory_failure : ℕ
  pub protobuf_encode : ℕ
  pub set_async_cb : ℕ
  pub transport_send : ℕ
  pub request_timeout : ℕ

-- What one run of `process_rpc_tx_msg` is answered: by `compose_rpc_req` (`some status` is a
-- failure), by `rpc__get_packed_size`, the two allocations, the timer, the transport and the
-- receive queue.
pub record TxEnv : Type 0 where
  pub composed : Option ℕ
  pub tx_len : ℕ
  pub tx_data : Option ℕ
  pub timer : Option ℕ
  pub sent : Bool
  pub app_resp : Option ℕ
  pub queue_ok : Bool

-- The failure status, none at a success, the block of `tx_data`, and the state.
abbrev pub TxResult : Type 0
TxResult = Option ℕ × Option ℕ × RpcCore

-- Step 7: the message is packed and sent.
abbrev pub send_packed : Errors → TxEnv → ℕ → RpcCore → TxResult
send_packed errors env b s =
    if env.sent then (none, some b, s) else (some errors.transport_send, some b, s)

-- Steps 6 and 7. A timer that did not start leaves the status 0.
abbrev pub start_timer : Errors → TxEnv → ℕ → Option ℕ → RpcCore → TxResult
start_timer errors env b none s = (some 0, some b, record s { async_timer_hdl = none })
start_timer errors env b (some timer) s =
    send_packed errors env b (record s { async_timer_hdl = some timer })

-- Steps 5 to 7, for a request with a callback.
unfoldable pub send_async : Errors → TxEnv → ℕ → ℕ → Cmd → RpcCore → TxResult
send_async errors env b cb r s =
    let t = set_async_resp_callback r cb s in
    if is_available t.0
    then start_timer errors env b env.timer (t.1)
    else (some errors.set_async_cb, some b, t.1)

-- Steps 1 to 7.
unfoldable pub send_request : Errors → TxEnv → Cmd → RpcCore → TxResult
send_request errors env r s = elim env.composed [
  | some status ↦ (some status, none, s)
  | none ↦ if env.tx_len == 0 then (some errors.protobuf_encode, none, s) else elim env.tx_data [
    | none ↦ (some errors.memory_failure, none, s)
    | some b ↦ elim r.rpc_rsp_cb [
      | none ↦ send_packed errors env b s
      | some cb ↦ send_async errors env b cb r s
    ]
  ]
]

-- The response that the host makes up. `HOSTED_CALLOC` clears it, and its uid is not set.
abbrev pub failed_resp : ℕ → ℕ → Cmd → Cmd
failed_resp b status r = record {
  block = b;
  msg_id = resp_id r.msg_id;
  uid = 0;
  resp_event_status = status;
  rx_sem = none;
  rpc_rsp_cb = none;
  rsp_timeout_sec = 0;
}

-- The label `fail_req`: the application is told, by its callback or by the receive queue.
unfoldable pub fail_req : TxEnv → ℕ → Cmd → RpcCore → Option RpcCore
fail_req env status r s = elim env.app_resp [
  | none ↦ some s
  | some b ↦
      let f = failed_resp b status r in
      elim r.rpc_rsp_cb [
        | some cb ↦ run_callback (some cb) f s
        | none ↦ if env.queue_ok then wake_waiter f (queue_resp f s) else some s
      ]
]

-- `HOSTED_FREE(tx_data)`
abbrev pub free_tx_data : Option ℕ → RpcCore → RpcCore
free_tx_data none s = s
free_tx_data (some b) s = free_block b s

-- The end of `process_rpc_tx_msg`, after the attempt.
unfoldable pub conclude : TxEnv → Cmd → TxResult → Option (Bool × RpcCore)
conclude env r (none, tx_data, s) = some (true, free_tx_data tx_data s)
conclude env r (some status, tx_data, s) =
    fail_req env status r s >>= λ s'. some (false, free_tx_data tx_data s')

-- `process_rpc_tx_msg`; true is SUCCESS.
unfoldable pub process_rpc_tx_msg : Errors → TxEnv → Cmd → RpcCore → Option (Bool × RpcCore)
process_rpc_tx_msg errors env r s = conclude env r (send_request errors env r s)

-- `rpc_async_timeout_handler`; `alloc` is the answer of `HOSTED_CALLOC`. A NULL request is read,
-- a fault.
unfoldable pub rpc_async_timeout_handler : Errors → Option ℕ → Option Cmd → RpcCore → Option RpcCore
rpc_async_timeout_handler errors alloc none s = none
rpc_async_timeout_handler errors alloc (some r) s = elim r.rpc_rsp_cb [
  | none ↦ some s
  | some cb ↦ elim alloc [
    | none ↦ some s
    | some b ↦ run_callback (some cb) (failed_resp b errors.request_timeout r) s
  ]
]

-- The place that the loop of `wait_for_sync_response` finds.
abbrev pub take_slot : Bool → Cmd → Option Slot → RpcCore → Bool × RpcCore
take_slot taken r none s = (false, s)
take_slot taken r (some x) s = (
  taken,
  record s {
    sync_rsp_table = clear_uid r.uid s.sync_rsp_table;
    destroyed = x.target ∷ s.destroyed;
  },
)

-- `wait_for_sync_response`: true when the semaphore was taken in time, as `taken` says; its place
-- in the table is set free and the semaphore destroyed in both cases.
unfoldable pub wait_for_sync_response : Bool → Cmd → RpcCore → Bool × RpcCore
wait_for_sync_response taken r s =
    if leb rpc_id_resp_max (resp_id r.msg_id)
    then (false, s)
    else take_slot taken r (find_uid r.uid s.sync_rsp_table) s

-- The head of the receive queue; on an empty one the call does not return, `none`.
abbrev pub dequeue_resp : List Cmd → RpcCore → Option (Option Cmd × RpcCore)
dequeue_resp [] s = none
dequeue_resp (x ∷ q) s = some (some x, record s { rpc_rx_q = q })

-- `get_response`, with both pointers set as its only caller does
unfoldable pub get_response : Bool → Cmd → RpcCore → Option (Option Cmd × RpcCore)
get_response taken r s =
    let w = wait_for_sync_response taken r s in
    if w.0 then dequeue_resp (w.1.rpc_rx_q) (w.1) else some (none, w.1)

-- `rpc_wait_and_parse_sync_resp`: the request is freed. A response's length is not 0, as
-- `process_rpc_rx_msg` queues it.
unfoldable pub rpc_wait_and_parse_sync_resp : Bool → Cmd → RpcCore → Option (Option Cmd × RpcCore)
rpc_wait_and_parse_sync_resp taken r s =
    get_response taken r s >>= λ w. some (w.0, free_block r.block w.1)
