-- ===== src/Rpc/Core/Tx/Kept.antt =====
-- The sending thread and the timer of esp-hosted/host/drivers/rpc/core/rpc_core.c leave the
-- semaphores' table and the last uid as they are.
use rt_thread_esp_hosted.Common.{
  ℕ, ◌≡◌, refl, ◌∙◌, ap, inl, inr, ◌++◌, [], ◌∷◌, Option, none, some, List, if◌then◌else◌, ◌==◌,
  leb, After, then-After, if-After, weaken-After, if-holds,
}
use rt_thread_esp_hosted.Rpc.Table.{Slot, set_slot}
use rt_thread_esp_hosted.Rpc.{RpcCore, Cmd, Code, is_available, resp_id, rpc_id_resp_max}
use rt_thread_esp_hosted.Rpc.Core.{set_async_resp_callback, async_slot}
use rt_thread_esp_hosted.Rpc.Core.Rx.{run_callback, wake_waiter, queue_resp}
use rt_thread_esp_hosted.Rpc.Core.Rx.Ownership.{Kept, Grown, wake_waiter-Kept}
use rt_thread_esp_hosted.Rpc.Core.Tx.{
  Errors, TxEnv, TxResult, send_packed, start_timer, send_async, send_request, failed_resp,
  fail_req, free_tx_data, process_rpc_tx_msg, conclude, rpc_async_timeout_handler,
}

-- The table of the semaphores and the last uid are as before.
abbrev pub pair : List Slot → ℕ → List Slot × ℕ
pair t u = (t, u)

abbrev pub Same : RpcCore → RpcCore → Type 0
Same s s' = pair s'.sync_rsp_table s'.uid ≡ pair s.sync_rsp_table s.uid

pub both : {t t' : List Slot} {u u' : ℕ} → t ≡ t' → u ≡ u' → pair t u ≡ pair t' u'
both {t} {t'} {u} e f = ap (λ x. pair x u) e ∙ ap (pair t') f

-- So is the receive queue.
abbrev triple : List Slot → ℕ → List Cmd → List Slot × ℕ × List Cmd
triple t u q = (t, u, q)

abbrev pub Exact : RpcCore → RpcCore → Type 0
Exact s s' = triple s'.sync_rsp_table s'.uid s'.rpc_rx_q ≡ triple s.sync_rsp_table s.uid s.rpc_rx_q

Exact-Same : (s s' : RpcCore) → Exact s s' → Same s s'
Exact-Same s s' e = ap (λ x. pair x.0 x.1) e

Exact-Grown : (s s1 s' : RpcCore) → Exact s s1 → Grown s1 s' → Grown s s'
Exact-Grown s s1 s' e (inl f) = inl (f ∙ ap (λ x. x.2) e)
Exact-Grown s s1 s' e (inr (x, f)) = inr (x, f ∙ ap (λ y. y.2 ++ x ∷ []) e)

set_async-Exact : (r : Cmd) (cb : ℕ) (s : RpcCore) → Exact s ((set_async_resp_callback r cb s).1)
unfolding set_async_resp_callback
set_async-Exact r cb s =
    if-holds (λ (t : Code × RpcCore). Exact s t.1) (leb rpc_id_resp_max (resp_id r.msg_id)) _ _ refl
      (go (set_slot (record { uid = r.uid; target = some cb }) s.async_rsp_table))
  where
    go : (o : Option (List Slot)) → Exact s ((async_slot o s).1)
    go none = refl
    go (some t) = refl

send_packed-Exact :
    (errors : Errors) (env : TxEnv) (b : ℕ) (s : RpcCore) → Exact s ((send_packed errors env b s).2)
send_packed-Exact errors env b s = if-holds (λ (t : TxResult). Exact s t.2) env.sent _ _ refl refl

send_async-Exact :
    (errors : Errors) (env : TxEnv) (b cb : ℕ) (r : Cmd) (s : RpcCore)
    → Exact s ((send_async errors env b cb r s).2)
unfolding send_async
send_async-Exact errors env b cb r s =
    if-holds (λ (t : TxResult). Exact s t.2) (is_available ((set_async_resp_callback r cb s).0)) _ _
      (go env.timer (set_async_resp_callback r cb s).1 ∙ set_async-Exact r cb s)
      (set_async-Exact r cb s)
  where
    go : (timer : Option ℕ) (s' : RpcCore) → Exact s' ((start_timer errors env b timer s').2)
    go none s' = refl
    go (some timer) s' = send_packed-Exact errors env b (record s' { async_timer_hdl = some timer })

send_request-Exact :
    (errors : Errors) (env : TxEnv) (r : Cmd) (s : RpcCore)
    → Exact s ((send_request errors env r s).2)
unfolding send_request
send_request-Exact errors env r s = go env.composed env.tx_data r.rpc_rsp_cb
  where
    go :
        (composed tx_data cb : Option ℕ)
        → Exact s (
            (elim composed as (λ x. TxResult) [
              | some status ↦ (some status, none, s)
              | none ↦
                  if env.tx_len == 0 then (some errors.protobuf_encode, none, s) else elim tx_data [
                    | none ↦ (some errors.memory_failure, none, s)
                    | some b ↦ elim cb [
                      | none ↦ send_packed errors env b s
                      | some cb ↦ send_async errors env b cb r s
                    ]
                  ]
            ]).2)
    go (some status) tx_data cb = refl
    go none none cb = if-holds (λ (t : TxResult). Exact s t.2) (env.tx_len == 0) _ _ refl refl
    go none (some b) none =
        if-holds (λ (t : TxResult). Exact s t.2) (env.tx_len == 0) _ _ refl
          (send_packed-Exact errors env b s)
    go none (some b) (some cb) =
        if-holds (λ (t : TxResult). Exact s t.2) (env.tx_len == 0) _ _ refl
          (send_async-Exact errors env b cb r s)

free_tx_data-Exact : (o : Option ℕ) (s : RpcCore) → Exact s (free_tx_data o s)
free_tx_data-Exact none s = refl
free_tx_data-Exact (some b) s = refl

fail_req-Same :
    (env : TxEnv) (status : ℕ) (r : Cmd) (s : RpcCore) → After (Same s) (fail_req env status r s)
unfolding fail_req
fail_req-Same env status r s = go env.app_resp r.rpc_rsp_cb
  where
    told :
        (b : ℕ)
        → After (Same s) (
            if env.queue_ok
            then wake_waiter (failed_resp b status r) (queue_resp (failed_resp b status r) s)
            else some s)
    told b =
        let f = failed_resp b status r in
        if-After (Same s) env.queue_ok (wake_waiter f (queue_resp f s)) (some s)
          (λ e.
            weaken-After (Kept (queue_resp f s)) (Same s) (wake_waiter f (queue_resp f s))
              (wake_waiter-Kept f (queue_resp f s)) (λ s' k. both k.1 k.3))
          (λ e. refl)

    go :
        (app_resp cb : Option ℕ)
        → After (Same s) (elim app_resp as (λ x. Option RpcCore) [
          | none ↦ some s
          | some b ↦
              let f = failed_resp b status r in
              elim cb [
                | some cb ↦ run_callback (some cb) f s
                | none ↦ if env.queue_ok then wake_waiter f (queue_resp f s) else some s
              ]
        ])
    go none cb = refl
    go (some b) (some cb) = refl
    go (some b) none = told b

fail_req-Grown :
    (env : TxEnv) (status : ℕ) (r : Cmd) (s : RpcCore) → After (Grown s) (fail_req env status r s)
unfolding fail_req
fail_req-Grown env status r s = go env.app_resp r.rpc_rsp_cb
  where
    go :
        (app_resp cb : Option ℕ)
        → After (Grown s) (elim app_resp as (λ x. Option RpcCore) [
          | none ↦ some s
          | some b ↦
              let f = failed_resp b status r in
              elim cb [
                | some cb ↦ run_callback (some cb) f s
                | none ↦ if env.queue_ok then wake_waiter f (queue_resp f s) else some s
              ]
        ])
    go none cb = inl refl
    go (some b) (some cb) = inl refl
    go (some b) none =
        let f = failed_resp b status r in
        if-After (Grown s) env.queue_ok (wake_waiter f (queue_resp f s)) (some s)
          (λ e.
            weaken-After (Kept (queue_resp f s)) (Grown s) (wake_waiter f (queue_resp f s))
              (wake_waiter-Kept f (queue_resp f s)) (λ s' k. inr (f, k.4)))
          (λ e. inl refl)

pub process_rpc_tx_msg-Same :
    (errors : Errors) (env : TxEnv) (r : Cmd) (s : RpcCore)
    → After (λ p. Same s p.1) (process_rpc_tx_msg errors env r s)
unfolding process_rpc_tx_msg conclude
process_rpc_tx_msg-Same errors env r s =
    go (send_request errors env r s) (send_request-Exact errors env r s)
  where
    go : (t : TxResult) → Exact s t.2 → After (λ p. Same s p.1) (conclude env r t)
    go (none, b, s1) h = Exact-Same s (free_tx_data b s1) (free_tx_data-Exact b s1 ∙ h)
    go (some status, b, s1) h =
        then-After (Same s1) (λ p. Same s p.1) (fail_req env status r s1) _
          (fail_req-Same env status r s1)
          (λ s' k.
            Exact-Same s' (free_tx_data b s') (free_tx_data-Exact b s') ∙ k ∙ Exact-Same s s1 h)

pub process_rpc_tx_msg-Grown :
    (errors : Errors) (env : TxEnv) (r : Cmd) (s : RpcCore)
    → After (λ p. Grown s p.1) (process_rpc_tx_msg errors env r s)
unfolding process_rpc_tx_msg conclude
process_rpc_tx_msg-Grown errors env r s =
    go (send_request errors env r s) (send_request-Exact errors env r s)
  where
    freed : (o : Option ℕ) (s1 : RpcCore) → (free_tx_data o s1).rpc_rx_q ≡ s1.rpc_rx_q
    freed none s1 = refl
    freed (some b) s1 = refl

    kept : (b : Option ℕ) (s1 s' : RpcCore) → Grown s1 s' → Grown s1 (free_tx_data b s')
    kept none s1 s' g = g
    kept (some b) s1 s' g = g

    go : (t : TxResult) → Exact s t.2 → After (λ p. Grown s p.1) (conclude env r t)
    go (none, b, s1) h = Exact-Grown s s1 (free_tx_data b s1) h (inl (freed b s1))
    go (some status, b, s1) h =
        then-After (Grown s1) (λ p. Grown s p.1) (fail_req env status r s1) _
          (fail_req-Grown env status r s1)
          (λ s' k. Exact-Grown s s1 (free_tx_data b s') h (kept b s1 s' k))

pub timeout-Exact :
    (errors : Errors) (alloc : Option ℕ) (r : Cmd) (s : RpcCore)
    → After (Exact s) (rpc_async_timeout_handler errors alloc (some r) s)
unfolding rpc_async_timeout_handler
timeout-Exact errors alloc r s = go alloc r.rpc_rsp_cb
  where
    go :
        (alloc cb : Option ℕ)
        → After (Exact s) (elim cb as (λ x. Option RpcCore) [
          | none ↦ some s
          | some cb ↦ elim alloc [
            | none ↦ some s
            | some b ↦ run_callback (some cb) (failed_resp b errors.request_timeout r) s
          ]
        ])
    go alloc none = refl
    go none (some cb) = refl
    go (some b) (some cb) = refl

pub timeout-Same :
    (errors : Errors) (alloc : Option ℕ) (r : Cmd) (s : RpcCore)
    → After (Same s) (rpc_async_timeout_handler errors alloc (some r) s)
timeout-Same errors alloc r s =
    weaken-After (Exact s) (Same s) (rpc_async_timeout_handler errors alloc (some r) s)
      (timeout-Exact errors alloc r s) (λ s' e. Exact-Same s s' e)
