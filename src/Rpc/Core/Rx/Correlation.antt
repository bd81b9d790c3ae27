-- ===== src/Rpc/Core/Rx/Correlation.antt =====
-- Which waiter or callback a response reaches in `process_rpc_rx_msg`,
-- esp-hosted/host/drivers/rpc/core/rpc_core.c.
use rt_thread_esp_hosted.Common.{ℕ, ◌≡◌, Bool, true, false, none, some, [], ◌∷◌, ◌++◌}
use rt_thread_esp_hosted.Rpc.Table.{find_uid, clear_uid}
use rt_thread_esp_hosted.Rpc.{RpcCore, Cmd, not_resp}
use rt_thread_esp_hosted.Rpc.Core.Rx.{
  Proto, type_resp, process_rpc_rx_msg, process_resp, deliver_resp,
  is_async_resp_callback_available, call_async_resp_callback, is_sync_resp_sem_available,
  post_sync_resp_sem, wake_waiter, queue_resp,
}

wake_waiter_lem :
    (r : Cmd) (sem : ℕ) (s : RpcCore)
    → not_resp r.msg_id ≡ false
    → find_uid r.uid s.sync_rsp_table ≡ some (record { uid = r.uid; target = some sem })
    → wake_waiter r s ≡ some (record s { posted = some sem ∷ s.posted })
unfolding wake_waiter is_sync_resp_sem_available post_sync_resp_sem
wake_waiter_lem r sem s range reg = rw (reg, range)

-- A parsed response in the range of responses whose uid has no callback and has the semaphore
-- `sem`, with room in the queue: it is put at the end of the receive queue, exactly that
-- semaphore is posted, once, no callback runs, neither table changes, a running timer is stopped,
-- and the message is freed.
pub sync_resp_lem :
    (m : Proto) (r : Cmd) (b sem : ℕ) (s : RpcCore)
    → m.msg_type ≡ type_resp
    → not_resp r.msg_id ≡ false
    → find_uid r.uid s.async_rsp_table ≡ none
    → find_uid r.uid s.sync_rsp_table ≡ some (record { uid = r.uid; target = some sem })
    → process_rpc_rx_msg (some b) (some r) true (some m) s
      ≡ some (
        true,
        record s {
          async_timer_hdl = none;
          rpc_rx_q = s.rpc_rx_q ++ record r { block = b } ∷ [];
          posted = some sem ∷ s.posted;
          heap = m.block ∷ s.heap;
        },
      )
unfolding process_rpc_rx_msg process_resp deliver_resp is_async_resp_callback_available
sync_resp_lem m r b sem s ty range fresh reg = simp (
  ty,
  range,
  fresh,
  wake_waiter_lem (record r { block = b }) sem
      (queue_resp (record r { block = b }) (record s { async_timer_hdl = none })) range reg,
)

-- A parsed response in the range of responses whose uid is registered with the callback `cb`:
-- that callback runs on it, once, whatever the queue's room, its place in the table is set free,
-- no semaphore is posted, nothing is queued, a running timer is stopped, and the message is
-- freed.
pub async_resp_lem :
    (queue_ok : Bool) (m : Proto) (r : Cmd) (b cb : ℕ) (s : RpcCore)
    → m.msg_type ≡ type_resp
    → not_resp r.msg_id ≡ false
    → find_uid r.uid s.async_rsp_table ≡ some (record { uid = r.uid; target = some cb })
    → process_rpc_rx_msg (some b) (some r) queue_ok (some m) s
      ≡ some (
        true,
        record s {
          async_timer_hdl = none;
          called = (cb, record r { block = b }) ∷ s.called;
          async_rsp_table = clear_uid r.uid s.async_rsp_table;
          heap = m.block ∷ s.heap;
        },
      )
unfolding process_rpc_rx_msg process_resp deliver_resp is_async_resp_callback_available
    call_async_resp_callback
async_resp_lem queue_ok m r b cb s ty range reg = simp (ty, range, reg)

-- A parsed response in the range of responses with the uid 0, while a place for callbacks is
-- free: the free place answers for it, and its NULL callback is called.
pub null_callback :
    (queue_ok : Bool) (m : Proto) (r : Cmd) (b : ℕ) (s : RpcCore)
    → m.msg_type ≡ type_resp
    → not_resp r.msg_id ≡ false
    → r.uid ≡ 0
    → find_uid 0 s.async_rsp_table ≡ some (record { uid = 0; target = none })
    → process_rpc_rx_msg (some b) (some r) queue_ok (some m) s ≡ none
unfolding process_rpc_rx_msg process_resp deliver_resp is_async_resp_callback_available
    call_async_resp_callback
null_callback queue_ok m r b s ty range zero_uid reg = simp (ty, range, zero_uid, reg)
