-- ===== src/Rpc/Core.antt =====
-- Sending a request, esp-hosted/host/drivers/rpc/core/rpc_core.c: `rpc_send_req`, and what the
-- sending thread does with it. The answers of the allocator, the queues, the timer and the
-- transport, and the results of the protobuf library are arguments. The buffers that the
-- application hangs on a request with a function to free them are left out.
pub mod Rx
pub mod Tx
pub mod Register
pub mod Pending
pub mod Interleaving
pub mod Invariant
pub mod Lifecycle
use rt_thread_esp_hosted.Common.{
  ℕ, ◌+◌, ◌%◌, ◌^◌, Bool, true, false, Option, none, some, List, [], ◌∷◌, ◌++◌, if◌then◌else◌, ◌==◌,
  leb, not, ◌>>=◌,
}
use rt_thread_esp_hosted.Rpc.Table.{Slot, find_uid, set_slot}
use rt_thread_esp_hosted.Rpc.{
  RpcCore, Cmd, Code, available, not_registered, out_of_order, is_available, resp_id, not_resp,
  rpc_id_resp_max,
}

-- `uid++`, and once more at the rollover of 32 bits
unfoldable pub next_uid : ℕ → ℕ
next_uid uid = let u = (uid + 1) % 2 ^ 32 in if u == 0 then 1 else u

abbrev pub destroy_sem : Option ℕ → RpcCore → RpcCore
destroy_sem none s = s
destroy_sem (some sem) s = record s { destroyed = some sem ∷ s.destroyed }

-- The registration of a semaphore for a request without callback; `sem` is the new one.
unfoldable pub set_sync_slot : Cmd → ℕ → RpcCore → Code × Cmd × RpcCore
set_sync_slot req sem s =
    elim (set_slot (record { uid = req.uid; target = some sem }) s.sync_rsp_table) [
      | none ↦ (not_registered, record req { rx_sem = some sem }, s)
      | some table ↦
          (available, record req { rx_sem = some sem }, record s { sync_rsp_table = table })
    ]

-- `set_sync_resp_sem`: an old semaphore is destroyed first. The creation's answer is `created`;
-- NULL would be taken and is a fault.
unfoldable pub set_sync_resp_sem : Option ℕ → Cmd → RpcCore → Option (Code × Cmd × RpcCore)
set_sync_resp_sem created req s =
    let s' = destroy_sem req.rx_sem s in
    if leb rpc_id_resp_max (resp_id req.msg_id)
    then some (out_of_order, req, s')
    else elim req.rpc_rsp_cb [
      | some cb ↦ some (not_registered, req, s')
      | none ↦ created >>= λ sem. some (set_sync_slot req sem s')
    ]

abbrev pub async_slot : Option (List Slot) → RpcCore → Code × RpcCore
async_slot none s = (not_registered, s)
async_slot (some table) s = (available, record s { async_rsp_table = table })

-- `set_async_resp_callback`
unfoldable pub set_async_resp_callback : Cmd → ℕ → RpcCore → Code × RpcCore
set_async_resp_callback req cb s =
    if leb rpc_id_resp_max (resp_id req.msg_id)
    then (out_of_order, s)
    else async_slot (set_slot (record { uid = req.uid; target = some cb }) s.async_rsp_table) s

-- The label `fail_req` of `rpc_send_req`: the request is freed.
abbrev pub fail_send : Cmd → RpcCore → RpcCore
fail_send req s = let s' = destroy_sem req.rx_sem s in record s' { heap = req.block ∷ s'.heap }

-- The request goes to the sending thread.
unfoldable pub queue_req : Bool → Cmd → RpcCore → Bool × RpcCore
queue_req queue_ok req s =
    if queue_ok
    then (true, record s { rpc_tx_q = s.rpc_tx_q ++ req ∷ []; rpc_tx_sem = s.rpc_tx_sem + 1 })
    else (false, fail_send req s)

-- With the uid in place.
unfoldable pub register_req : Option ℕ → Bool → Cmd → RpcCore → Option (Bool × RpcCore)
register_req created queue_ok req s = elim req.rpc_rsp_cb [
  | some cb ↦ some (queue_req queue_ok req s)
  | none ↦ set_sync_resp_sem created req s >>= λ r.
      if is_available r.0
      then some (queue_req queue_ok r.1 r.2)
      else some (false, fail_send r.1 r.2)
]

-- `rpc_send_req`: true is SUCCESS. A NULL request is `none`.
unfoldable pub rpc_send_req : Option ℕ → Bool → Option Cmd → RpcCore → Option (Bool × RpcCore)
rpc_send_req created queue_ok none s = some (false, s)
rpc_send_req created queue_ok (some req) s =
    let u = next_uid s.uid in
    register_req created queue_ok (record req { uid = u }) (record s { uid = u })
