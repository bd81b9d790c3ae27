-- ===== src/Rpc.antt =====
-- The host's RPC library, esp-hosted/host/drivers/rpc/core/rpc_core.c: its state, and the tables
-- that link a response to its request by `uid`.
pub mod Table
pub mod Core
use rt_thread_esp_hosted.Common.{
  ℕ, ◌+◌, Bool, true, false, Option, none, some, List, if◌then◌else◌, ◌==◌, ◌||◌, leb, Heap,
}
use Table.{Slot}

-- The borders of the message numbers, from esp_hosted_rpc.pb-c.h.
abbrev pub rpc_id_req_base : ℕ
rpc_id_req_base = 256

abbrev pub rpc_id_resp_base : ℕ
rpc_id_resp_base = 512

abbrev pub rpc_id_resp_max : ℕ
rpc_id_resp_max = 607

abbrev pub rpc_id_event_base : ℕ
rpc_id_event_base = 768

abbrev pub rpc_id_event_max : ℕ
rpc_id_event_max = 777

-- The results 0, -1 and -2; 0 is both CALLBACK_SET_SUCCESS and CALLBACK_AVAILABLE.
pub data Code : Type 0 where
  available not_registered out_of_order : Code

abbrev pub is_available : Code → Bool
is_available available = true
is_available _ = false

-- The parts of `ctrl_cmd_t` that rpc_core.c reads: the block it stands in, the message number,
-- the uid, the status, the semaphore, the callback (`none` for NULL) and the timeout.
pub record Cmd : Type 0 where
  pub block : ℕ
  pub msg_id : ℕ
  pub uid : ℕ
  pub resp_event_status : ℕ
  pub rx_sem : Option ℕ
  pub rpc_rsp_cb : Option ℕ
  pub rsp_timeout_sec : ℕ

-- The static variables, with a log of what was done outside: the semaphores posted (`none` for
-- NULL) and destroyed, and the callbacks run, newest first. `heap` logs the requests and
-- responses freed.
pub record RpcCore : Type 0 where
  pub uid : ℕ
  pub sync_rsp_table : List Slot
  pub async_rsp_table : List Slot
  pub rpc_evt_cb_table : List (Option ℕ)
  pub rpc_tx_q : List Cmd
  pub rpc_rx_q : List Cmd
  pub rpc_tx_sem : ℕ
  pub async_timer_hdl : Option ℕ
  pub posted : List (Option ℕ)
  pub destroyed : List (Option ℕ)
  pub called : List (ℕ × Cmd)
  pub heap : Heap

-- `msg_id - RPC_ID__Req_Base + RPC_ID__Resp_Base` in `int`
abbrev pub resp_id : ℕ → ℕ
resp_id msg_id = msg_id + 256

-- `(msg_id <= RPC_ID__Resp_Base) || (msg_id >= RPC_ID__Resp_Max)`
abbrev pub not_resp : ℕ → Bool
not_resp msg_id = leb msg_id rpc_id_resp_base || leb rpc_id_resp_max msg_id
