-- ===== src/Rpc/Core/Interleaving.antt =====
-- The steps of all threads on the state of esp-hosted/host/drivers/rpc/core/rpc_core.c, in any
-- order: a pending synchronous request stays registered, and its response reaches it.
use mathlib.Core.Bool.{true≢false}
use rt_thread_esp_hosted.Common.{
  ℕ, inl, inr, ◌≡◌, refl, sym, ◌≢◌, ◌∙◌, ap, Bool, true, false, Option, none, some, List, [], ◌∷◌,
  ◌++◌, if◌then◌else◌, leb, After, After-some, Ensures, then-After, if-holds,
}
use rt_thread_esp_hosted.Rpc.Table.{Slot, find_uid, clear_uid}
use rt_thread_esp_hosted.Rpc.{RpcCore, Cmd, not_resp, resp_id, rpc_id_resp_max}
use rt_thread_esp_hosted.Rpc.Core.{next_uid, rpc_send_req}
use rt_thread_esp_hosted.Rpc.Core.Pending.{
  Keeps, find_uid-clear_uid-other, rpc_send_req-Keeps, send-view, view,
}
use rt_thread_esp_hosted.Rpc.Core.Rx.{Proto, type_resp, process_rpc_rx_msg}
use rt_thread_esp_hosted.Rpc.Core.Rx.Ownership.{
  process_rpc_rx_msg_lem, process_rpc_rx_msg-Outcome, Outcome, Grown,
}
use rt_thread_esp_hosted.Rpc.Core.Rx.Correlation.{sync_resp_lem}
use rt_thread_esp_hosted.Rpc.Core.Tx.Kept.{
  Same, Exact, process_rpc_tx_msg-Same, process_rpc_tx_msg-Grown, timeout-Same, timeout-Exact,
}
use rt_thread_esp_hosted.Rpc.Core.Tx.{
  Errors, TxEnv, process_rpc_tx_msg, rpc_async_timeout_handler, wait_for_sync_response, take_slot,
  get_response, dequeue_resp, rpc_wait_and_parse_sync_resp,
}

-- One step of a thread while `u` is pending: another request is sent, under a number that is not
-- `u`, a request is transmitted, a message is received, a timer fires, or another request is
-- waited for.
pub data Step (u : ℕ) : RpcCore → RpcCore → Type 0 where
  send :
      {s s' : RpcCore} (created : Option ℕ) (queue_ok : Bool) (r : Cmd) {ok : Bool}
      → next_uid s.uid ≢ u
      → rpc_send_req created queue_ok (some r) s ≡ some (ok, s')
      → Step u s s'
  transmit :
      {s s' : RpcCore} (errors : Errors) (env : TxEnv) (r : Cmd) {ok : Bool}
      → process_rpc_tx_msg errors env r s ≡ some (ok, s')
      → Step u s s'
  receive :
      {s s' : RpcCore} (alloc : Option ℕ) (parse : Option Cmd) (queue_ok : Bool) (m : Proto)
      {ok : Bool}
      → process_rpc_rx_msg alloc parse queue_ok (some m) s ≡ some (ok, s')
      → Step u s s'
  timeout :
      {s s' : RpcCore} (errors : Errors) (alloc : Option ℕ) (r : Cmd)
      → rpc_async_timeout_handler errors alloc (some r) s ≡ some s'
      → Step u s s'
  wait :
      {s s' : RpcCore} (taken : Bool) (r : Cmd) {o : Option Cmd}
      → r.uid ≢ u
      → rpc_wait_and_parse_sync_resp taken r s ≡ some (o, s')
      → Step u s s'

pub data Reach (u : ℕ) : RpcCore → RpcCore → Type 0 where
  stay : {s : RpcCore} → Reach u s s
  step : {s s' s'' : RpcCore} → Step u s s' → Reach u s' s'' → Reach u s s''

wait_for-Keeps :
    (u : ℕ) (taken : Bool) (r : Cmd) (s : RpcCore)
    → u ≢ 0
    → r.uid ≢ u
    → Keeps u s ((wait_for_sync_response taken r s).1)
unfolding wait_for_sync_response
wait_for-Keeps u taken r s nz ne =
    if-holds (λ (t : Bool × RpcCore). Keeps u s t.1) (leb rpc_id_resp_max (resp_id r.msg_id)) _ _
      refl (go (find_uid r.uid s.sync_rsp_table))
  where
    go : (o : Option Slot) → Keeps u s ((take_slot taken r o s).1)
    go none = refl
    go (some x) = find_uid-clear_uid-other r.uid s.sync_rsp_table u nz ne

dequeue-Keeps :
    (u : ℕ) (s : RpcCore) (q : List Cmd) (s' : RpcCore)
    → Keeps u s s'
    → After (λ w. Keeps u s w.1) (dequeue_resp q s')
dequeue-Keeps u s [] s' h = tt
dequeue-Keeps u s (x ∷ q) s' h = h

wait-Keeps :
    (u : ℕ) (taken : Bool) (r : Cmd) (s : RpcCore)
    → u ≢ 0
    → r.uid ≢ u
    → After (λ w. Keeps u s w.1) (rpc_wait_and_parse_sync_resp taken r s)
unfolding rpc_wait_and_parse_sync_resp get_response
wait-Keeps u taken r s nz ne =
    then-After (λ w. Keeps u s w.1) (λ w. Keeps u s w.1) (get_response taken r s) _
      (go (wait_for_sync_response taken r s) (wait_for-Keeps u taken r s nz ne)) (λ w h. h)
  where
    go :
        (w : Bool × RpcCore)
        → Keeps u s (w.1)
        → After
            (λ w. Keeps u s w.1)
            (if w.0 then dequeue_resp (w.1.rpc_rx_q) (w.1) else some (none, w.1))
    go (true, s') h = dequeue-Keeps u s s'.rpc_rx_q s' h
    go (false, s') h = h

-- A step of the others keeps what the pending uid finds.
step-Keeps : {u : ℕ} {s s' : RpcCore} → u ≢ 0 → Step u s s' → Keeps u s s'
step-Keeps {u} {s} nz (send created queue_ok r ne e) =
    After-some (λ p. Keeps u s p.1) (rpc_send_req created queue_ok (some r) s)
      (rpc_send_req-Keeps u created queue_ok r s nz ne) e
step-Keeps {u} {s} nz (transmit errors env r e) =
    ap (λ x. find_uid u x.0)
      (After-some (λ p. Same s p.1) (process_rpc_tx_msg errors env r s)
        (process_rpc_tx_msg-Same errors env r s) e)
step-Keeps {u} {s} nz (receive alloc parse queue_ok m e) = ap (find_uid u) (
    (After-some _ (process_rpc_rx_msg alloc parse queue_ok (some m) s)
      (process_rpc_rx_msg_lem alloc parse queue_ok m s) e).1)
step-Keeps {u} {s} nz (timeout errors alloc r e) =
    ap (λ x. find_uid u x.0)
      (After-some (Same s) (rpc_async_timeout_handler errors alloc (some r) s)
        (timeout-Same errors alloc r s) e)
step-Keeps {u} {s} nz (wait taken r ne e) =
    After-some (λ w. Keeps u s w.1) (rpc_wait_and_parse_sync_resp taken r s)
      (wait-Keeps u taken r s nz ne) e

-- While `u`, which is not 0, is pending, whatever the threads do, in any order, for other
-- requests and with any messages, `u` finds the semaphore or nothing, as it did before.
pub Reach-Keeps :
    {u : ℕ} {s s' : RpcCore}
    → u ≢ 0
    → Reach u s s'
    → find_uid u s'.sync_rsp_table ≡ find_uid u s.sync_rsp_table
Reach-Keeps nz stay = refl
Reach-Keeps nz (step a r) = Reach-Keeps nz r ∙ step-Keeps nz a

wait_lem :
    (r x : Cmd) (sem : ℕ) (q : List Cmd) (s : RpcCore)
    → leb rpc_id_resp_max (resp_id r.msg_id) ≡ false
    → find_uid r.uid s.sync_rsp_table ≡ some (record { uid = r.uid; target = some sem })
    → s.rpc_rx_q ≡ x ∷ q
    → rpc_wait_and_parse_sync_resp true r s
      ≡ some (
        some x,
        record s {
          sync_rsp_table = clear_uid r.uid s.sync_rsp_table;
          destroyed = some sem ∷ s.destroyed;
          rpc_rx_q = q;
          heap = r.block ∷ s.heap;
        },
      )
unfolding rpc_wait_and_parse_sync_resp get_response wait_for_sync_response
wait_lem r x sem q s range reg queue = simp (range, reg, queue)

-- The step is a wait for a response.
abbrev pub is_wait : {u : ℕ} {s s' : RpcCore} → Step u s s' → Bool
is_wait (wait taken r ne e) = true
is_wait _ = false

-- Steps none of which is a wait for a response.
pub data Later (u : ℕ) : RpcCore → RpcCore → Type 0 where
  done : {s : RpcCore} → Later u s s
  later :
      {s s' s'' : RpcCore} (a : Step u s s') → is_wait a ≡ false → Later u s' s'' → Later u s s''

Later-Reach : {u : ℕ} {s s' : RpcCore} → Later u s s' → Reach u s s'
Later-Reach done = stay
Later-Reach (later a w r) = step a (Later-Reach r)

-- The response `x` is the oldest in the receive queue.
abbrev pub IsOldest : Cmd → RpcCore → Type 0
IsOldest x s = (q : List Cmd) × (s.rpc_rx_q ≡ x ∷ q)

Grown-IsOldest : (x : Cmd) (s s' : RpcCore) → Grown s s' → IsOldest x s → IsOldest x s'
Grown-IsOldest x s s' (inl e) (q, h) = (q, e ∙ h)
Grown-IsOldest x s s' (inr (y, e)) (q, h) = (q ++ y ∷ [], e ∙ ap (λ l. l ++ y ∷ []) h)

step-Grown : {u : ℕ} {s s' : RpcCore} (a : Step u s s') → is_wait a ≡ false → Grown s s'
step-Grown {u} {s} (send created queue_ok r ne e) w = inl (
    ap (λ x. x.1)
      (After-some (λ p. view p.1.uid p.1.rpc_rx_q ≡ view (next_uid s.uid) s.rpc_rx_q)
        (rpc_send_req created queue_ok (some r) s) (send-view created queue_ok r s) e))
step-Grown {u} {s} (transmit errors env r e) w =
    After-some (λ p. Grown s p.1) (process_rpc_tx_msg errors env r s)
      (process_rpc_tx_msg-Grown errors env r s) e
step-Grown {u} {s} (receive alloc parse queue_ok m e) w =
    (After-some (Outcome alloc m s) (process_rpc_rx_msg alloc parse queue_ok (some m) s)
      (process_rpc_rx_msg-Outcome alloc parse queue_ok m s) e).4
step-Grown {u} {s} (timeout errors alloc r e) w = inl (
    ap (λ x. x.2)
      (After-some (Exact s) (rpc_async_timeout_handler errors alloc (some r) s)
        (timeout-Exact errors alloc r s) e))
step-Grown (wait taken r ne e) w = absurd (true≢false w)

Later-IsOldest : (x : Cmd) {u : ℕ} {s s' : RpcCore} → Later u s s' → IsOldest x s → IsOldest x s'
Later-IsOldest x done h = h
Later-IsOldest x {s = s} (later {s' = s'} a w r) h =
    Later-IsOldest x r (Grown-IsOldest x s s' (step-Grown a w) h)

-- The state after the response `r` to a synchronous request has come in the message `m`.
abbrev pub after_resp : Cmd → Proto → ℕ → RpcCore → RpcCore
after_resp r m sem s = record s {
  async_timer_hdl = none;
  rpc_rx_q = s.rpc_rx_q ++ r ∷ [];
  posted = some sem ∷ s.posted;
  heap = m.block ∷ s.heap;
}

-- The request `req`, in the range of requests, was registered under its uid, not 0, with the
-- semaphore `sem`. After any steps of the threads for other requests, a response in the range of
-- responses with that uid, which no callback has, comes while the receive queue is empty: exactly
-- that semaphore is posted, and the response queued. Then, after any steps for other requests that
-- wait for no response, `req` is waited for: it gets that response; its place in the table is free
-- again, its semaphore destroyed, and the request freed, once each, and what has come meanwhile is
-- still queued.
pub sync_exchange :
    (req r : Cmd) (m : Proto) (b sem : ℕ) {s s' s'' : RpcCore}
    → req.uid ≢ 0
    → leb rpc_id_resp_max (resp_id req.msg_id) ≡ false
    → find_uid req.uid s.sync_rsp_table ≡ some (record { uid = req.uid; target = some sem })
    → Reach req.uid s s'
    → m.msg_type ≡ type_resp
    → not_resp r.msg_id ≡ false
    → r.uid ≡ req.uid
    → find_uid req.uid s'.async_rsp_table ≡ none
    → s'.rpc_rx_q ≡ []
    → Later req.uid (after_resp (record r { block = b }) m sem s') s''
    → (process_rpc_rx_msg (some b) (some r) true (some m) s'
        ≡ some (true, after_resp (record r { block = b }) m sem s'))
      × ((q : List Cmd) × (s''.rpc_rx_q ≡ record r { block = b } ∷ q)
          × (rpc_wait_and_parse_sync_resp true req s''
              ≡ some (
                some (record r { block = b }),
                record s'' {
                  destroyed = some sem ∷ s''.destroyed;
                  sync_rsp_table = clear_uid req.uid s''.sync_rsp_table;
                  rpc_rx_q = q;
                  heap = req.block ∷ s''.heap;
                },
              )))
sync_exchange req r m b sem {s} {s'} {s''} nz range reg steps ty resp_range same none_async empty
      more =
    let got : Cmd = record r { block = b } in
    let found = Reach-Keeps nz steps ∙ reg in
    let (q, head) = Later-IsOldest got more ([], ap (λ l. l ++ got ∷ []) empty) in
    let as_resp = λ (f : ℕ → Option Slot) (x : ℕ → Option Slot) (e : f req.uid ≡ x req.uid).
      ap f same ∙ e ∙ ap x (sym same) in
    (
      sync_resp_lem m r b sem s' ty resp_range
          (as_resp (λ u. find_uid u s'.async_rsp_table) (λ u. none) none_async)
          (as_resp (λ u. find_uid u s'.sync_rsp_table)
            (λ u. some (record { uid = u; target = some sem })) found),
      (q, head, wait_lem req got sem q s'' range (Reach-Keeps nz (Later-Reach more) ∙ found) head),
    )

-- A registered request, in the range of requests, whose semaphore was posted, while the oldest response in the
-- queue has another uid: the requester gets that response as its own, and its place is set free.
pub wrong_response :
    (req x : Cmd) (sem : ℕ) (q : List Cmd) (s : RpcCore)
    → leb rpc_id_resp_max (resp_id req.msg_id) ≡ false
    → find_uid req.uid s.sync_rsp_table ≡ some (record { uid = req.uid; target = some sem })
    → s.rpc_rx_q ≡ x ∷ q
    → x.uid ≢ req.uid
    → Ensures
        (λ w.
          (o : Cmd) × (w.0 ≡ some o)
          × (o.uid ≢ req.uid)
          × (w.1.sync_rsp_table ≡ clear_uid req.uid s.sync_rsp_table))
        (rpc_wait_and_parse_sync_resp true req s)
wrong_response req x sem q s range reg queue other =
    (_, wait_lem req x sem q s range reg queue, (x, refl, other, refl))
