-- ===== src/Rpc/Core/Invariant.antt =====
-- The table of semaphores of esp-hosted/host/drivers/rpc/core/rpc_core.c under the steps of all threads.
use rt_thread_esp_hosted.Common.{
  ℕ, ◌+◌, ◌^◌, ◌<◌, ◌≤◌, arith, ◌∙◌, weaken-After, ◌≡◌, refl, sym, ap, ◌≢◌, Bool, true, false,
  Option, none, some, List, [], ◌∷◌, if◌then◌else◌, ◌==◌, leb, After, After-some, both-After,
  if-After, then-After, if-holds,
}
use mathlib.Core.Path.{subst}
use rt_thread_esp_hosted.Rpc.Table.{Slot, find_uid, set_slot, clear_uid}
use rt_thread_esp_hosted.Rpc.Table.Laws.{Unique, Unique-set_slot, Unique-clear_uid}
use rt_thread_esp_hosted.Rpc.{RpcCore, Cmd, resp_id, rpc_id_resp_max}
use rt_thread_esp_hosted.Rpc.Core.{next_uid, rpc_send_req}
use rt_thread_esp_hosted.Rpc.Core.Pending.{send-keeps, send-view}
use rt_thread_esp_hosted.Rpc.Core.Rx.{Proto, process_rpc_rx_msg}
use rt_thread_esp_hosted.Rpc.Core.Rx.Ownership.{process_rpc_rx_msg-Outcome}
use rt_thread_esp_hosted.Rpc.Core.Tx.{
  Errors, TxEnv, process_rpc_tx_msg, rpc_async_timeout_handler, rpc_wait_and_parse_sync_resp,
  get_response, wait_for_sync_response, take_slot, dequeue_resp,
}
use rt_thread_esp_hosted.Rpc.Core.Tx.Kept.{both, Same, process_rpc_tx_msg-Same, timeout-Same}

-- Free places hold NULL, and the others a semaphore.
abbrev pub IsFilled : List Slot → Type 0
IsFilled [] = Unit {0}
IsFilled (x ∷ t) =
    ((x.uid ≡ 0 → x.target ≡ none) × (x.uid ≢ 0 → (sem : ℕ) × (x.target ≡ some sem))) × IsFilled t

-- No uid but 0 stands twice, and the places are filled as their uids say.
abbrev pub IsTable : List Slot → Type 0
IsTable t = Unique t × IsFilled t

IsFilled-set_slot :
    (uid sem : ℕ) (t : List Slot)
    → uid ≢ 0
    → IsFilled t
    → After IsFilled (set_slot (record { uid = uid; target = some sem }) t)
unfolding set_slot
IsFilled-set_slot uid sem [] nz h = tt
IsFilled-set_slot uid sem (x ∷ t) nz h =
    if-After IsFilled (x.uid == 0) _ _ (λ e. (((λ z. absurd (nz z)), (λ z. (sem, refl))), h.1))
      (λ e.
        then-After IsFilled IsFilled (set_slot (record { uid = uid; target = some sem }) t) _
          (IsFilled-set_slot uid sem t nz h.1) (λ t' k. (h.0, k)))

IsFilled-clear_uid : (u : ℕ) (t : List Slot) → IsFilled t → IsFilled (clear_uid u t)
unfolding clear_uid
IsFilled-clear_uid u [] h = tt
IsFilled-clear_uid u (x ∷ t) h =
    if-holds IsFilled (x.uid == u) _ _ (((λ z. refl), (λ z. absurd (z refl))), h.1)
      (h.0, IsFilled-clear_uid u t h.1)

-- The uids of the table are at most `n`.
abbrev pub Below : ℕ → List Slot → Type 0
Below n [] = Unit {0}
Below n (x ∷ t) = (x.uid ≤ n) × Below n t

fresh : (n : ℕ) (t : List Slot) → Below n t → find_uid (n + 1) t ≡ none
unfolding find_uid
fresh n [] h = refl
fresh n (x ∷ t) h = ground (arith, fresh n t h.1, h.0)

Below-suc : (n : ℕ) (t : List Slot) → Below n t → Below (n + 1) t
Below-suc n [] h = tt
Below-suc n (x ∷ t) h = (omega (arith, h.0), Below-suc n t h.1)

Below-set_slot :
    (n : ℕ) (new : Slot) (t : List Slot)
    → new.uid ≤ n + 1
    → Below n t
    → After (Below (n + 1)) (set_slot new t)
unfolding set_slot
Below-set_slot n new [] e h = tt
Below-set_slot n new (x ∷ t) e h =
    if-After (Below (n + 1)) (x.uid == 0) _ _ (λ _. (e, Below-suc n t h.1))
      (λ _.
        then-After (Below (n + 1)) (Below (n + 1)) (set_slot new t) _ (Below-set_slot n new t e h.1)
          (λ t' k. (omega (arith, h.0), k)))

Below-clear_uid : (n u : ℕ) (t : List Slot) → Below n t → Below n (clear_uid u t)
unfolding clear_uid
Below-clear_uid n u [] h = tt
Below-clear_uid n u (x ∷ t) h =
    if-holds (Below n) (x.uid == u) _ _ (omega arith, h.1) (h.0, Below-clear_uid n u t h.1)

-- Such a table, with no uid above the last one.
abbrev pub IsPending : ℕ → List Slot → Type 0
IsPending uid t = IsTable t × Below uid t

abbrev pub IsCore : RpcCore → Type 0
IsCore s = IsPending s.uid s.sync_rsp_table

-- A step of a thread: a request is sent while the number does not roll over, a request is
-- transmitted, a message is received, a timer fires, or a numbered request is waited for.
pub data Step : RpcCore → RpcCore → Type 0 where
  send :
      {s s' : RpcCore} (created : Option ℕ) (queue_ok : Bool) (r : Cmd) {ok : Bool}
      → s.uid + 1 < 2 ^ 32
      → rpc_send_req created queue_ok (some r) s ≡ some (ok, s')
      → Step s s'
  transmit :
      {s s' : RpcCore} (errors : Errors) (env : TxEnv) (r : Cmd) {ok : Bool}
      → process_rpc_tx_msg errors env r s ≡ some (ok, s')
      → Step s s'
  receive :
      {s s' : RpcCore} (alloc : Option ℕ) (parse : Option Cmd) (queue_ok : Bool) (m : Proto)
      {ok : Bool}
      → process_rpc_rx_msg alloc parse queue_ok (some m) s ≡ some (ok, s')
      → Step s s'
  timeout :
      {s s' : RpcCore} (errors : Errors) (alloc : Option ℕ) (r : Cmd)
      → rpc_async_timeout_handler errors alloc (some r) s ≡ some s'
      → Step s s'
  wait :
      {s s' : RpcCore} (taken : Bool) (r : Cmd) {o : Option Cmd}
      → r.uid ≢ 0
      → rpc_wait_and_parse_sync_resp taken r s ≡ some (o, s')
      → Step s s'

pub data Reach (s : RpcCore) : RpcCore → Type 0 where
  here : Reach s s
  next : {s' s'' : RpcCore} → Reach s s' → Step s' s'' → Reach s s''

next_uid-suc : (uid : ℕ) → uid + 1 < 2 ^ 32 → next_uid uid ≡ uid + 1
unfolding next_uid
next_uid-suc uid h = ground arith

send-table :
    (created : Option ℕ) (queue_ok : Bool) (r : Cmd) (s : RpcCore)
    → s.uid + 1 < 2 ^ 32
    → IsCore s
    → After
        (λ p. IsPending (s.uid + 1) p.1.sync_rsp_table)
        (rpc_send_req created queue_ok (some r) s)
send-table created queue_ok r s w h =
    send-keeps (IsPending s.uid) (IsPending (s.uid + 1)) (λ t k. (k.0, Below-suc s.uid t k.1))
      (s.uid + 1)
      (λ t sem k.
        both-After IsTable (Below (s.uid + 1))
          (set_slot (record { uid = s.uid + 1; target = some sem }) t)
          (both-After Unique IsFilled (set_slot (record { uid = s.uid + 1; target = some sem }) t)
            (Unique-set_slot (record { uid = s.uid + 1; target = some sem }) t (fresh s.uid t k.1)
              k.0.0)
            (IsFilled-set_slot (s.uid + 1) sem t (λ e. absurd (omega (arith, e))) k.0.1))
          (Below-set_slot s.uid (record { uid = s.uid + 1; target = some sem }) t (omega arith)
            k.1))
      created queue_ok r s (next_uid-suc s.uid w) h

send-IsCore :
    (created : Option ℕ) (queue_ok : Bool) (r : Cmd) (s : RpcCore)
    → s.uid + 1 < 2 ^ 32
    → IsCore s
    → After (λ p. IsCore p.1) (rpc_send_req created queue_ok (some r) s)
send-IsCore created queue_ok r s w h =
    weaken-After (λ p. IsPending (s.uid + 1) p.1.sync_rsp_table × (p.1.uid ≡ next_uid s.uid))
      (λ p. IsCore p.1) (rpc_send_req created queue_ok (some r) s)
      (both-After (λ p. IsPending (s.uid + 1) p.1.sync_rsp_table) (λ p. p.1.uid ≡ next_uid s.uid)
        (rpc_send_req created queue_ok (some r) s) (send-table created queue_ok r s w h)
        (weaken-After _ (λ p. p.1.uid ≡ next_uid s.uid) (rpc_send_req created queue_ok (some r) s)
          (send-view created queue_ok r s) (λ p k. ap (λ x. x.0) k)))
      (λ p k. subst (λ n. IsPending n p.1.sync_rsp_table) (sym (k.1 ∙ next_uid-suc s.uid w)) k.0)

wait_for-IsCore :
    (taken : Bool) (r : Cmd) (s : RpcCore)
    → r.uid ≢ 0
    → IsCore s
    → IsCore (wait_for_sync_response taken r s).1
unfolding wait_for_sync_response
wait_for-IsCore taken r s nz h =
    if-holds (λ (t : Bool × RpcCore). IsCore t.1) (leb rpc_id_resp_max (resp_id r.msg_id)) _ _ h
      (go (find_uid r.uid s.sync_rsp_table))
  where
    go : (o : Option Slot) → IsCore (take_slot taken r o s).1
    go none = h
    go (some x) = (
      (
        Unique-clear_uid r.uid s.sync_rsp_table nz h.0.0,
        IsFilled-clear_uid r.uid s.sync_rsp_table h.0.1,
      ),
      Below-clear_uid s.uid r.uid s.sync_rsp_table h.1,
    )

dequeue-IsCore :
    (q : List Cmd) (s : RpcCore) → IsCore s → After (λ w. IsCore w.1) (dequeue_resp q s)
dequeue-IsCore [] s h = tt
dequeue-IsCore (x ∷ q) s h = h

wait-IsCore :
    (taken : Bool) (r : Cmd) (s : RpcCore)
    → r.uid ≢ 0
    → IsCore s
    → After (λ w. IsCore w.1) (rpc_wait_and_parse_sync_resp taken r s)
unfolding rpc_wait_and_parse_sync_resp get_response
wait-IsCore taken r s nz h =
    then-After (λ w. IsCore w.1) (λ w. IsCore w.1) (get_response taken r s) _
      (go (wait_for_sync_response taken r s) (wait_for-IsCore taken r s nz h)) (λ w k. k)
  where
    go :
        (w : Bool × RpcCore)
        → IsCore w.1
        → After
            (λ w. IsCore w.1)
            (if w.0 then dequeue_resp (w.1.rpc_rx_q) (w.1) else some (none, w.1))
    go (true, s') k = dequeue-IsCore s'.rpc_rx_q s' k
    go (false, s') k = k

Same-IsCore : (s s' : RpcCore) → Same s s' → IsCore s → IsCore s'
Same-IsCore s s' e h = subst (λ x. IsPending x.1 x.0) (sym e) h

Step-IsCore : {s s' : RpcCore} → Step s s' → IsCore s → IsCore s'
Step-IsCore {s} (send created queue_ok r w e) h =
    After-some (λ p. IsCore p.1) (rpc_send_req created queue_ok (some r) s)
      (send-IsCore created queue_ok r s w h) e
Step-IsCore {s} {s'} (transmit errors env r e) h =
    Same-IsCore s s'
      (After-some (λ p. Same s p.1) (process_rpc_tx_msg errors env r s)
        (process_rpc_tx_msg-Same errors env r s) e)
      h
Step-IsCore {s} {s'} (receive alloc parse queue_ok m e) h =
    let k =
      After-some _ (process_rpc_rx_msg alloc parse queue_ok (some m) s)
        (process_rpc_rx_msg-Outcome alloc parse queue_ok m s) e in
    Same-IsCore s s' (both k.1 k.3) h
Step-IsCore {s} {s'} (timeout errors alloc r e) h =
    Same-IsCore s s'
      (After-some (Same s) (rpc_async_timeout_handler errors alloc (some r) s)
        (timeout-Same errors alloc r s) e)
      h
Step-IsCore {s} (wait taken r nz e) h =
    After-some (λ w. IsCore w.1) (rpc_wait_and_parse_sync_resp taken r s)
      (wait-IsCore taken r s nz h) e

-- From a state whose table of semaphores has no uid but 0 twice, NULL in its free places, a
-- semaphore in the others, and no uid above the last one, every sequence of steps of the threads
-- that sends no request at the rollover of the 32-bit number, in any order and with any answers
-- and messages, leads to such a state.
pub Reach-IsTable : {s s' : RpcCore} → Reach s s' → IsCore s → IsCore s'
Reach-IsTable here h = h
Reach-IsTable (next r st) h = Step-IsCore st (Reach-IsTable r h)
