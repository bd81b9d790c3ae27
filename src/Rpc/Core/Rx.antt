-- ===== src/Rpc/Core/Rx.antt =====
-- Responses and events, esp-hosted/host/drivers/rpc/core/rpc_core.c: `process_rpc_rx_msg` and
-- what it calls, and the event callbacks. What the allocator, the queue and `rpc_parse_rsp` or
-- `rpc_parse_evt` answer are arguments; `none` as a result is a call of a NULL callback or
-- a post of a NULL semaphore, which `rt_sem_release` of RT-Thread asserts against.
pub mod Correlation
pub mod Ownership
pub mod Events
use rt_thread_esp_hosted.Common.{
  ℕ, ◌-◌, Bool, true, false, Option, none, some, List, [], ◌∷◌, ◌++◌, if◌then◌else◌, ◌||◌, leb,
  ◌>>=◌, load, store,
}
use rt_thread_esp_hosted.Rpc.Table.{Slot, find_uid, clear_uid}
use rt_thread_esp_hosted.Rpc.{
  RpcCore, Cmd, Code, available, not_registered, out_of_order, is_available, not_resp,
  rpc_id_event_base, rpc_id_event_max,
}

-- `RpcType`
pub data MsgType : Type 0 where
  type_req type_resp type_event type_other : MsgType

-- A decoded message `Rpc`: the block it stands in, its type and its number.
pub record Proto : Type 0 where
  pub block : ℕ
  pub msg_type : MsgType
  pub msg_id : ℕ

abbrev pub code_of_slot : Option Slot → Code
code_of_slot none = not_registered
code_of_slot (some x) = available

-- `is_async_resp_callback_available`
unfoldable pub is_async_resp_callback_available : Cmd → RpcCore → Code
is_async_resp_callback_available r s =
    if not_resp r.msg_id then out_of_order else code_of_slot (find_uid r.uid s.async_rsp_table)

-- `is_sync_resp_sem_available`
unfoldable pub is_sync_resp_sem_available : ℕ → RpcCore → Code
is_sync_resp_sem_available uid s = code_of_slot (find_uid uid s.sync_rsp_table)

-- The call of a function pointer: the callback runs once on the message.
abbrev pub run_callback : Option ℕ → Cmd → RpcCore → Option RpcCore
run_callback none m s = none
run_callback (some cb) m s = some (record s { called = (cb, m) ∷ s.called })

abbrev pub call_slot : Option Slot → Cmd → RpcCore → Option RpcCore
call_slot none r s = some s
call_slot (some x) r s = run_callback x.target r s

-- `call_async_resp_callback`
unfoldable pub call_async_resp_callback : Cmd → RpcCore → Option RpcCore
call_async_resp_callback r s =
    if not_resp r.msg_id then some s else call_slot (find_uid r.uid s.async_rsp_table) r s

-- `clear_async_resp_callback`
abbrev pub clear_async_resp_callback : Cmd → RpcCore → RpcCore
clear_async_resp_callback r s = record s { async_rsp_table = clear_uid r.uid s.async_rsp_table }

-- `_h_post_semaphore`
abbrev pub post_semaphore : Option ℕ → RpcCore → Option RpcCore
post_semaphore none s = none
post_semaphore (some sem) s = some (record s { posted = some sem ∷ s.posted })

abbrev pub post_slot : Option Slot → RpcCore → Option RpcCore
post_slot none s = some s
post_slot (some x) s = post_semaphore x.target s

-- `post_sync_resp_sem`
unfoldable pub post_sync_resp_sem : Cmd → RpcCore → Option RpcCore
post_sync_resp_sem r s =
    if not_resp r.msg_id then some s else post_slot (find_uid r.uid s.sync_rsp_table) s

-- A response put in the receive queue, and the call of its waiter.
abbrev pub queue_resp : Cmd → RpcCore → RpcCore
queue_resp r s = record s { rpc_rx_q = s.rpc_rx_q ++ r ∷ [] }

unfoldable pub wake_waiter : Cmd → RpcCore → Option RpcCore
unfolding is_sync_resp_sem_available post_sync_resp_sem
wake_waiter r s =
    if is_available (is_sync_resp_sem_available r.uid s) then post_sync_resp_sem r s else some s

abbrev pub free_block : ℕ → RpcCore → RpcCore
free_block b s = record s { heap = b ∷ s.heap }

-- `(event <= RPC_ID__Event_Base) || (event >= RPC_ID__Event_Max)`
abbrev pub not_event : ℕ → Bool
not_event event = leb event rpc_id_event_base || leb rpc_id_event_max event

abbrev pub code_of_callback : Option ℕ → Code
code_of_callback none = not_registered
code_of_callback (some cb) = available

-- `is_event_callback_registered`; `none` as a result is a read outside the table.
unfoldable pub is_event_callback_registered : ℕ → RpcCore → Option Code
is_event_callback_registered event s =
    if not_event event
    then some out_of_order
    else load s.rpc_evt_cb_table (event - rpc_id_event_base) >>= λ cb. some (code_of_callback cb)

abbrev pub run_if_set : Option ℕ → Cmd → RpcCore → Option RpcCore
run_if_set none m s = some s
run_if_set (some cb) m s = run_callback (some cb) m s

-- `call_event_callback`
unfoldable pub call_event_callback : Cmd → RpcCore → Option RpcCore
call_event_callback m s =
    if not_event m.msg_id
    then some s
    else load s.rpc_evt_cb_table (m.msg_id - rpc_id_event_base) >>= λ cb. run_if_set cb m s

-- `set_event_callback`, and `reset_event_callback` for `none`
unfoldable pub set_event_callback : ℕ → Option ℕ → RpcCore → Option (Code × RpcCore)
set_event_callback event cb s =
    if not_event event
    then some (out_of_order, s)
    else store s.rpc_evt_cb_table (event - rpc_id_event_base) cb >>= λ t.
        some (available, record s { rpc_evt_cb_table = t })

-- The label `free_buffers`: the message and the application's structure, if there is one.
abbrev pub free_buffers : ℕ → Option ℕ → RpcCore → RpcCore
free_buffers proto none s = free_block proto s
free_buffers proto (some b) s = free_block b (free_block proto s)

-- The case of an event. `alloc` is the answer of `HOSTED_CALLOC`, `parse` the parser's result.
unfoldable pub process_event : Option ℕ → Option Cmd → Proto → RpcCore → Option (Bool × RpcCore)
unfolding is_event_callback_registered call_event_callback
process_event alloc parse m s = is_event_callback_registered m.msg_id s >>= λ code.
    if is_available code
    then elim alloc [
      | none ↦ some (false, free_buffers m.block none s)
      | some b ↦ elim parse [
        | none ↦ some (false, free_buffers m.block (some b) s)
        | some e ↦ call_event_callback (record e { block = b }) s >>= λ s'.
            some (true, free_block m.block s')
      ]
    ]
    else some (false, free_buffers m.block none s)

-- A parsed response, for its callback or for its waiter.
unfoldable pub deliver_resp : Bool → Cmd → Proto → RpcCore → Option (Bool × RpcCore)
unfolding is_async_resp_callback_available call_async_resp_callback
deliver_resp queue_ok r m s =
    if is_available (is_async_resp_callback_available r s)
    then (call_async_resp_callback r s >>= λ s'.
        some (true, free_block m.block (clear_async_resp_callback r s')))
    else if queue_ok
    then (wake_waiter r (queue_resp r s) >>= λ s'. some (true, free_block m.block s'))
    else some (false, free_buffers m.block (some r.block) s)

-- The case of a response. The timer of an asynchronous request is stopped.
unfoldable pub process_resp :
    Option ℕ → Option Cmd → Bool → Proto → RpcCore → Option (Bool × RpcCore)
process_resp alloc parse queue_ok m s = elim alloc [
  | none ↦ some (false, free_buffers m.block none s)
  | some b ↦
      let s' = record s { async_timer_hdl = none } in
      elim parse [
        | none ↦ some (false, free_buffers m.block (some b) s')
        | some r ↦ deliver_resp queue_ok (record r { block = b }) m s'
      ]
]

-- `process_rpc_rx_msg`; true is SUCCESS. A NULL message is `none`.
unfoldable pub process_rpc_rx_msg :
    Option ℕ → Option Cmd → Bool → Option Proto → RpcCore → Option (Bool × RpcCore)
process_rpc_rx_msg alloc parse queue_ok none s = some (false, s)
process_rpc_rx_msg alloc parse queue_ok (some m) s = elim m.msg_type [
  | type_req ↦ some (false, free_buffers m.block none s)
  | type_resp ↦ process_resp alloc parse queue_ok m s
  | type_event ↦ process_event alloc parse m s
  | type_other ↦ some (false, free_buffers m.block none s)
]
