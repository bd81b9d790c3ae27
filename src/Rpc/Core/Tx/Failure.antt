-- ===== src/Rpc/Core/Tx/Failure.antt =====
-- A synchronous request that could not be sent, in `process_rpc_tx_msg` of
-- esp-hosted/host/drivers/rpc/core/rpc_core.c.
use mathlib.Core.Path.{subst}
use rt_thread_esp_hosted.Common.{
  ℕ, suc, ◌≡◌, refl, Bool, true, false, Option, none, some, List, [], ◌∷◌, ◌++◌, ◌⊎◌, inl, inr,
  Ensures, if_false, ne→==, arith, ap, sym, ◌∙◌, ◌>>=◌,
}
use rt_thread_esp_hosted.Rpc.Table.{Slot, free_slot, find_uid}
use rt_thread_esp_hosted.Rpc.{RpcCore, Cmd, not_resp, resp_id}
use rt_thread_esp_hosted.Rpc.Core.Rx.{
  wake_waiter, queue_resp, is_sync_resp_sem_available, post_sync_resp_sem,
}
use rt_thread_esp_hosted.Rpc.Core.Tx.{
  Errors, TxEnv, failed_resp, free_tx_data, conclude, process_rpc_tx_msg, send_request, fail_req,
}

-- The free places hold NULL.
abbrev pub FreeIsNull : List Slot → Type 0
FreeIsNull t = (find_uid 0 t ≡ none) ⊎ (find_uid 0 t ≡ some free_slot)

wake_none :
    (f : Cmd) (s : RpcCore) → find_uid f.uid s.sync_rsp_table ≡ none → wake_waiter f s ≡ some s
unfolding wake_waiter is_sync_resp_sem_available
wake_none f s e = rw (e) refl

wake_free :
    (f : Cmd) (s : RpcCore)
    → not_resp f.msg_id ≡ false
    → find_uid f.uid s.sync_rsp_table ≡ some free_slot
    → wake_waiter f s ≡ none
unfolding wake_waiter is_sync_resp_sem_available post_sync_resp_sem
wake_free f s range e = rw (e, range) refl

-- The environment of a request that was composed, and that the transport then refused.
abbrev pub refused : ℕ → ℕ → ℕ → Option ℕ → TxEnv
refused n d b timer = record {
  composed = none;
  tx_len = suc n;
  tx_data = some d;
  timer = timer;
  sent = false;
  app_resp = some b;
  queue_ok = true;
}

refused_lem :
    (errors : Errors) (n d b : ℕ) (timer : Option ℕ) (r : Cmd) (s : RpcCore)
    → send_request errors (refused n d b timer) (record r { rpc_rsp_cb = none }) s
      ≡ (some errors.transport_send, some d, s)
unfolding send_request
refused_lem errors n d b timer r s = if_false _ _ (ne→== (suc n) 0 λ e. absurd (omega arith))

refused_conclude :
    (errors : Errors) (n d b : ℕ) (timer : Option ℕ) (r : Cmd) (s : RpcCore)
    → process_rpc_tx_msg errors (refused n d b timer) (record r { rpc_rsp_cb = none }) s ≡ (
        wake_waiter
          (failed_resp b errors.transport_send r)
          (queue_resp (failed_resp b errors.transport_send r) s)
        >>= λ s'. some (false, free_tx_data (some d) s'))
unfolding process_rpc_tx_msg conclude fail_req
refused_conclude errors n d b timer r s =
    ap (conclude (refused n d b timer) (record r { rpc_rsp_cb = none }))
      (refused_lem errors n d b timer r s)

-- What a refused request comes to, by what the uid 0 finds: nothing in a full table, and a free
-- place otherwise.
abbrev pub Unwoken :
    Cmd → List (Option ℕ) → List Cmd → Option Slot → Option (Bool × RpcCore) → Type 0
Unwoken f posted q none m =
    Ensures (λ p. (p.0 ≡ false) × (p.1.rpc_rx_q ≡ q ++ f ∷ []) × (p.1.posted ≡ posted)) m
Unwoken f posted q (some x) m = m ≡ none

refused_cases :
    (f : Cmd) (d : ℕ) (s : RpcCore)
    → f.uid ≡ 0
    → not_resp f.msg_id ≡ false
    → FreeIsNull s.sync_rsp_table
    → Unwoken f s.posted s.rpc_rx_q
        (find_uid 0 s.sync_rsp_table)
        (wake_waiter f (queue_resp f s) >>= λ s'. some (false, free_tx_data (some d) s'))
refused_cases f d s z range (inl e) =
    rw (e, wake_none f (queue_resp f s) (ap (λ u. find_uid u s.sync_rsp_table) z ∙ e))
      ((false, free_tx_data (some d) (queue_resp f s)), refl, (refl, refl, refl))
refused_cases f d s z range (inr e) =
    rw (e, wake_free f (queue_resp f s) range (ap (λ u. find_uid u s.sync_rsp_table) z ∙ e)) refl

-- A synchronous request that was composed, and that the transport refuses, with a response's number
-- in the range of responses, while free places hold NULL and the receive queue has room. The
-- response made up for it has the uid 0. In a table with a free place that place answers for it,
-- and its NULL semaphore is posted, a fault; in a full table the request fails, the response is
-- queued last with the error, and no semaphore is posted, not even the requester's.
pub unwoken :
    (errors : Errors) (n d b : ℕ) (timer : Option ℕ) (r : Cmd) (s : RpcCore)
    → not_resp (resp_id r.msg_id) ≡ false
    → FreeIsNull s.sync_rsp_table
    → Unwoken
        (failed_resp b errors.transport_send r)
        s.posted
        s.rpc_rx_q
        (find_uid 0 s.sync_rsp_table)
        (process_rpc_tx_msg errors (refused n d b timer) (record r { rpc_rsp_cb = none }) s)
unwoken errors n d b timer r s range h =
    let f = failed_resp b errors.transport_send r in
    subst (Unwoken f s.posted s.rpc_rx_q (find_uid 0 s.sync_rsp_table))
      (sym (refused_conclude errors n d b timer r s)) (refused_cases f d s refl range h)
