-- ===== src/Rpc/Core/Rx/Ownership.antt =====
-- The blocks of a message in `process_rpc_rx_msg`, esp-hosted/host/drivers/rpc/core/rpc_core.c,
-- and what it leaves alone.
use rt_thread_esp_hosted.Common.{
  ℕ, ◌≡◌, refl, Bool, true, false, Option, none, some, ◌∷◌, After, inl, inr, if-After, ap, ◌⊎◌,
  ◌>>=◌, bind-After, then-After, weaken-After, ◌++◌, [],
}
use rt_thread_esp_hosted.Rpc.{RpcCore, Cmd, is_available, not_resp}
use rt_thread_esp_hosted.Rpc.Table.{Slot, find_uid}
use rt_thread_esp_hosted.Rpc.Core.Rx.{
  Proto, MsgType, call_slot, post_slot, post_semaphore, free_block, type_req, type_resp, type_event,
  type_other, process_rpc_rx_msg, process_resp, process_event, deliver_resp,
  is_async_resp_callback_available, call_async_resp_callback, call_event_callback,
  is_event_callback_registered, post_sync_resp_sem, is_sync_resp_sem_available, run_callback,
  wake_waiter, queue_resp, free_buffers, run_if_set, not_event,
}

-- What is kept by the calls of callbacks and by the posts.
abbrev pub Kept : RpcCore → RpcCore → Type 0
Kept s s' =
    (s'.heap ≡ s.heap)
    × (s'.sync_rsp_table ≡ s.sync_rsp_table)
    × (s'.rpc_tx_q ≡ s.rpc_tx_q)
    × (s'.uid ≡ s.uid)
    × (s'.rpc_rx_q ≡ s.rpc_rx_q)

-- The receive queue is as before, or has one more response at its end.
abbrev pub Grown : RpcCore → RpcCore → Type 0
Grown s s' = (s'.rpc_rx_q ≡ s.rpc_rx_q) ⊎ ((x : Cmd) × (s'.rpc_rx_q ≡ s.rpc_rx_q ++ x ∷ []))

run_callback_lem : (cb : Option ℕ) (m : Cmd) (s : RpcCore) → After (Kept s) (run_callback cb m s)
run_callback_lem none m s = tt
run_callback_lem (some cb) m s = (refl, refl, refl, refl, refl)

call_slot_lem : (x : Option Slot) (m : Cmd) (s : RpcCore) → After (Kept s) (call_slot x m s)
call_slot_lem none m s = (refl, refl, refl, refl, refl)
call_slot_lem (some x) m s = run_callback_lem x.target m s

call_async-Kept : (r : Cmd) (s : RpcCore) → After (Kept s) (call_async_resp_callback r s)
unfolding call_async_resp_callback
call_async-Kept r s =
    if-After (Kept s) (not_resp r.msg_id) (some s) _ (λ e. (refl, refl, refl, refl, refl))
      (λ e. call_slot_lem (find_uid r.uid s.async_rsp_table) r s)

run_if_set_lem : (cb : Option ℕ) (m : Cmd) (s : RpcCore) → After (Kept s) (run_if_set cb m s)
run_if_set_lem none m s = (refl, refl, refl, refl, refl)
run_if_set_lem (some cb) m s = (refl, refl, refl, refl, refl)

pub call_event-Kept : (r : Cmd) (s : RpcCore) → After (Kept s) (call_event_callback r s)
unfolding call_event_callback
call_event-Kept r s =
    if-After (Kept s) (not_event r.msg_id) (some s) _ (λ e. (refl, refl, refl, refl, refl))
      (λ e. bind-After (Kept s) _ _ λ cb. run_if_set_lem cb r s)

post_semaphore_lem : (o : Option ℕ) (s : RpcCore) → After (Kept s) (post_semaphore o s)
post_semaphore_lem none s = tt
post_semaphore_lem (some sem) s = (refl, refl, refl, refl, refl)

post_slot_lem : (x : Option Slot) (s : RpcCore) → After (Kept s) (post_slot x s)
post_slot_lem none s = (refl, refl, refl, refl, refl)
post_slot_lem (some x) s = post_semaphore_lem x.target s

pub wake_waiter-Kept : (r : Cmd) (s : RpcCore) → After (Kept s) (wake_waiter r s)
unfolding wake_waiter post_sync_resp_sem
wake_waiter-Kept r s =
    if-After (Kept s) (is_available (is_sync_resp_sem_available r.uid s)) (post_sync_resp_sem r s)
      (some s)
      (λ e.
        if-After (Kept s) (not_resp r.msg_id) (some s) _ (λ e. (refl, refl, refl, refl, refl))
          (λ e. post_slot_lem (find_uid r.uid s.sync_rsp_table) s))
      (λ e. (refl, refl, refl, refl, refl))

-- After a message: its block is freed, and then the application's structure, if the result is a
-- failure.
abbrev pub Released : Option ℕ → Proto → RpcCore → Bool × RpcCore → Type 0
Released alloc m s p =
    (p.1.heap ≡ m.block ∷ s.heap)
    ⊎ ((p.0 ≡ false) × ((b : ℕ) × (alloc ≡ some b) × (p.1.heap ≡ b ∷ m.block ∷ s.heap)))

-- With what an outcome of a message leaves of the requests.
abbrev pub Outcome : Option ℕ → Proto → RpcCore → Bool × RpcCore → Type 0
Outcome alloc m s p =
    Released alloc m s p
    × (p.1.sync_rsp_table ≡ s.sync_rsp_table)
    × (p.1.rpc_tx_q ≡ s.rpc_tx_q)
    × (p.1.uid ≡ s.uid)
    × Grown s p.1

process_event_lem :
    (alloc : Option ℕ) (parse : Option Cmd) (m : Proto) (s : RpcCore)
    → After (Outcome alloc m s) (process_event alloc parse m s)
unfolding process_event
process_event_lem alloc parse m s =
    bind-After (Outcome alloc m s) (is_event_callback_registered m.msg_id s) _ λ code.
      if-After (Outcome alloc m s) (is_available code) _ _ (λ e. alloc_cases alloc parse)
        (λ e. (inl refl, refl, refl, refl, inl refl))
  where
    alloc_cases :
        (alloc : Option ℕ) (parse : Option Cmd)
        → After (Outcome alloc m s) (elim alloc [
          | none ↦ some (false, free_buffers m.block none s)
          | some b ↦ elim parse [
            | none ↦ some (false, free_buffers m.block (some b) s)
            | some e ↦ call_event_callback (record e { block = b }) s >>= λ s'.
                some (true, free_block m.block s')
          ]
        ])
    alloc_cases none parse = (inl refl, refl, refl, refl, inl refl)
    alloc_cases (some b) none = (inr (refl, (b, refl, refl)), refl, refl, refl, inl refl)
    alloc_cases (some b) (some e) =
        then-After (Kept s) (Outcome (some b) m s) _ _ (call_event-Kept (record e { block = b }) s)
          (λ s' k. (inl (ap (λ h. m.block ∷ h) k.0), k.1, k.2, k.3, inl k.4))

deliver_resp_lem :
    (queue_ok : Bool) (r : Cmd) (m : Proto) (s : RpcCore)
    → After (Outcome (some r.block) m s) (deliver_resp queue_ok r m s)
unfolding deliver_resp
deliver_resp_lem queue_ok r m s =
    if-After (Outcome (some r.block) m s) (is_available (is_async_resp_callback_available r s)) _ _
      (λ e.
        then-After (Kept s) (Outcome (some r.block) m s) _ _ (call_async-Kept r s)
          (λ s' k. (inl (ap (λ h. m.block ∷ h) k.0), k.1, k.2, k.3, inl k.4)))
      (λ e.
        if-After (Outcome (some r.block) m s) queue_ok _ _
          (λ q.
            then-After (Kept (queue_resp r s)) (Outcome (some r.block) m s)
              (wake_waiter r (queue_resp r s)) _ (wake_waiter-Kept r (queue_resp r s)) queued)
          (λ q. (inr (refl, (r.block, refl, refl)), refl, refl, refl, inl refl)))
  where
    queued :
        (s' : RpcCore)
        → Kept (queue_resp r s) s'
        → Outcome (some r.block) m s (true, free_block m.block s')
    queued s' k = (inl (ap (λ h. m.block ∷ h) k.0), k.1, k.2, k.3, inr (r, k.4))

process_resp_lem :
    (alloc : Option ℕ) (parse : Option Cmd) (queue_ok : Bool) (m : Proto) (s : RpcCore)
    → After (Outcome alloc m s) (process_resp alloc parse queue_ok m s)
unfolding process_resp
process_resp_lem none parse queue_ok m s = (inl refl, refl, refl, refl, inl refl)
process_resp_lem (some b) none queue_ok m s =
    (inr (refl, (b, refl, refl)), refl, refl, refl, inl refl)
process_resp_lem (some b) (some r) queue_ok m s =
    deliver_resp_lem queue_ok (record r { block = b }) m (record s { async_timer_hdl = none })

pub process_rpc_rx_msg-Outcome :
    (alloc : Option ℕ) (parse : Option Cmd) (queue_ok : Bool) (m : Proto) (s : RpcCore)
    → After (Outcome alloc m s) (process_rpc_rx_msg alloc parse queue_ok (some m) s)
unfolding process_rpc_rx_msg
process_rpc_rx_msg-Outcome alloc parse queue_ok m s = go m.msg_type
  where
    go :
        (t : MsgType)
        → After (Outcome alloc m s) (elim t [
          | type_req ↦ some (false, free_buffers m.block none s)
          | type_resp ↦ process_resp alloc parse queue_ok m s
          | type_event ↦ process_event alloc parse m s
          | type_other ↦ some (false, free_buffers m.block none s)
        ])
    go type_req = (inl refl, refl, refl, refl, inl refl)
    go type_resp = process_resp_lem alloc parse queue_ok m s
    go type_event = process_event_lem alloc parse m s
    go type_other = (inl refl, refl, refl, refl, inl refl)

-- Whatever a message is and whatever the allocator, the parser and the queue answer, if no NULL
-- callback is called and no NULL semaphore posted, then the message is freed exactly once; the structure made for it is freed,
-- once, at a failure after its allocation only, so what a callback or the queue got is never
-- freed here. The semaphores' table and the queue of requests are as before.
pub process_rpc_rx_msg_lem :
    (alloc : Option ℕ) (parse : Option Cmd) (queue_ok : Bool) (m : Proto) (s : RpcCore)
    → After
        (λ p.
          ((p.1.heap ≡ m.block ∷ s.heap)
            ⊎ ((p.0 ≡ false) × ((b : ℕ) × (alloc ≡ some b) × (p.1.heap ≡ b ∷ m.block ∷ s.heap))))
          × (p.1.sync_rsp_table ≡ s.sync_rsp_table)
          × (p.1.rpc_tx_q ≡ s.rpc_tx_q))
        (process_rpc_rx_msg alloc parse queue_ok (some m) s)
process_rpc_rx_msg_lem alloc parse queue_ok m s =
    weaken-After (Outcome alloc m s) _ (process_rpc_rx_msg alloc parse queue_ok (some m) s)
      (process_rpc_rx_msg-Outcome alloc parse queue_ok m s) (λ p k. (k.0, k.1, k.2))
