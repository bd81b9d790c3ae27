-- ===== src/Rpc/Core/Pending.antt =====
-- A pending synchronous request among the others, esp-hosted/host/drivers/rpc/core/rpc_core.c:
-- the steps of the threads in any order.
use mathlib.Core.Path.{subst}
use rt_thread_esp_hosted.Common.{
  ℕ, ◌≡◌, refl, ◌≢◌, sym, ◌∙◌, Bool, true, false, Option, none, some, List, [], ◌∷◌, arith,
  if◌then◌else◌, ◌==◌, leb, ◌>>=◌, After, if-After, weaken-After, then-After, bind-After,
}
use rt_thread_esp_hosted.Rpc.Table.{Slot, find_uid, set_slot, clear_uid}
use rt_thread_esp_hosted.Rpc.{
  RpcCore, Cmd, Code, available, not_registered, is_available, resp_id, rpc_id_resp_max,
}
use rt_thread_esp_hosted.Rpc.Core.{
  next_uid, rpc_send_req, register_req, queue_req, set_sync_resp_sem, set_sync_slot, fail_send,
  destroy_sem,
}

find_uid-set_slot-other :
    (new : Slot) (t : List Slot) (uid : ℕ)
    → uid ≢ 0
    → new.uid ≢ uid
    → After (λ t'. find_uid uid t' ≡ find_uid uid t) (set_slot new t)
unfolding find_uid set_slot
find_uid-set_slot-other new [] uid nz ne = tt
find_uid-set_slot-other new (x ∷ t) uid nz ne =
    if-After (λ t'. find_uid uid t' ≡ find_uid uid (x ∷ t)) (x.uid == 0) _ _ (λ e. ground arith)
      (λ e.
        then-After (λ t'. find_uid uid t' ≡ find_uid uid t)
          (λ t'. find_uid uid t' ≡ find_uid uid (x ∷ t)) (set_slot new t) _
          (find_uid-set_slot-other new t uid nz ne) (λ t' h. ground arith))

pub find_uid-clear_uid-other :
    (u : ℕ) (t : List Slot) (uid : ℕ)
    → uid ≢ 0
    → u ≢ uid
    → find_uid uid (clear_uid u t) ≡ find_uid uid t
unfolding find_uid clear_uid
find_uid-clear_uid-other u [] uid nz ne = refl
find_uid-clear_uid-other u (x ∷ t) uid nz ne =
    ground (arith, find_uid-clear_uid-other u t uid nz ne)

-- Sending keeps what the registration keeps: `P` holds of the table before, and `Q` after.
module _ (P Q : List Slot → Type 0) (weaken : (t : List Slot) → P t → Q t) (uid : ℕ)
    (adds : (t : List Slot) (sem : ℕ)
      → P t
      → After Q (set_slot (record { uid = uid; target = some sem }) t)) where
  destroy_sem_lem :
      (R : List Slot → Type 0) (sem : Option ℕ) (s : RpcCore)
      → R s.sync_rsp_table
      → R (destroy_sem sem s).sync_rsp_table
  destroy_sem_lem R none s h = h
  destroy_sem_lem R (some sem) s h = h

  queue_req_lem :
      (queue_ok : Bool) (r : Cmd) (s : RpcCore)
      → Q s.sync_rsp_table
      → Q (queue_req queue_ok r s).1.sync_rsp_table
  unfolding queue_req
  queue_req_lem true r s h = h
  queue_req_lem false r s h = destroy_sem_lem Q r.rx_sem s h

  set_sync_slot_lem :
      (r : Cmd) (sem : ℕ) (s : RpcCore)
      → r.uid ≡ uid
      → P s.sync_rsp_table
      → Q (set_sync_slot r sem s).2.sync_rsp_table
  unfolding set_sync_slot
  set_sync_slot_lem r sem s e h =
      go (set_slot (record { uid = r.uid; target = some sem }) s.sync_rsp_table) (
        subst (λ u. After Q (set_slot (record { uid = u; target = some sem }) s.sync_rsp_table))
          (sym e) (adds s.sync_rsp_table sem h))
    where
      go :
          (o : Option (List Slot))
          → After Q o
          → Q (
              (elim o as (λ x. Code × Cmd × RpcCore) [
                | none ↦ (not_registered, record r { rx_sem = some sem }, s)
                | some table ↦
                    (available, record r { rx_sem = some sem }, record s { sync_rsp_table = table })
              ]).2.sync_rsp_table)
      go none k = weaken s.sync_rsp_table h
      go (some t) k = k

  set_sync_resp_sem_lem :
      (created : Option ℕ) (r : Cmd) (s : RpcCore)
      → r.uid ≡ uid
      → P s.sync_rsp_table
      → After (λ p. Q p.2.sync_rsp_table) (set_sync_resp_sem created r s)
  unfolding set_sync_resp_sem
  set_sync_resp_sem_lem created r s e h =
      if-After (λ p. Q p.2.sync_rsp_table) (leb rpc_id_resp_max (resp_id r.msg_id)) _ _ (λ e'. kept)
        (λ e'. go r.rpc_rsp_cb)
    where
      kept : Q (destroy_sem r.rx_sem s).sync_rsp_table
      kept = weaken (destroy_sem r.rx_sem s).sync_rsp_table (destroy_sem_lem P r.rx_sem s h)

      go :
          (cb : Option ℕ)
          → After
              (λ p. Q p.2.sync_rsp_table)
              (elim cb as (λ x. Option (Code × Cmd × RpcCore)) [
                | some cb ↦ some (not_registered, r, destroy_sem r.rx_sem s)
                | none ↦ created >>= λ sem. some (set_sync_slot r sem (destroy_sem r.rx_sem s))
              ])
      go (some cb) = kept
      go none =
          bind-After (λ p. Q p.2.sync_rsp_table) created _
            λ sem.
              set_sync_slot_lem r sem (destroy_sem r.rx_sem s) e (destroy_sem_lem P r.rx_sem s h)

  register_req_lem :
      (created : Option ℕ) (queue_ok : Bool) (r : Cmd) (s : RpcCore)
      → r.uid ≡ uid
      → P s.sync_rsp_table
      → After (λ p. Q p.1.sync_rsp_table) (register_req created queue_ok r s)
  unfolding register_req
  register_req_lem created queue_ok r s e h = go r.rpc_rsp_cb
    where
      go :
          (cb : Option ℕ)
          → After
              (λ p. Q p.1.sync_rsp_table)
              (elim cb as (λ x. Option (Bool × RpcCore)) [
                | some cb ↦ some (queue_req queue_ok r s)
                | none ↦ set_sync_resp_sem created r s >>= λ a.
                    if is_available a.0
                    then some (queue_req queue_ok a.1 a.2)
                    else some (false, fail_send a.1 a.2)
              ])
      go (some cb) = queue_req_lem queue_ok r s (weaken s.sync_rsp_table h)
      go none =
          then-After (λ p. Q p.2.sync_rsp_table) (λ p. Q p.1.sync_rsp_table)
            (set_sync_resp_sem created r s) _ (set_sync_resp_sem_lem created r s e h)
            λ a k.
              if-After (λ p. Q p.1.sync_rsp_table) (is_available a.0) _ _
                (λ e'. queue_req_lem queue_ok a.1 a.2 k) (λ e'. destroy_sem_lem Q a.1.rx_sem a.2 k)

  pub send-keeps :
      (created : Option ℕ) (queue_ok : Bool) (r : Cmd) (s : RpcCore)
      → next_uid s.uid ≡ uid
      → P s.sync_rsp_table
      → After (λ p. Q p.1.sync_rsp_table) (rpc_send_req created queue_ok (some r) s)
  unfolding rpc_send_req
  send-keeps created queue_ok r s e h =
      register_req_lem created queue_ok (record r { uid = next_uid s.uid })
        (record s { uid = next_uid s.uid }) e h

-- What sending leaves of the state behind the registration: the last number and the receive queue.
abbrev pub view : ℕ → List Cmd → ℕ × List Cmd
view u q = (u, q)

destroy_sem-view :
    (sem : Option ℕ) (s : RpcCore)
    → view (destroy_sem sem s).uid (destroy_sem sem s).rpc_rx_q ≡ view s.uid s.rpc_rx_q
destroy_sem-view none s = refl
destroy_sem-view (some sem) s = refl

queue_req-view :
    (queue_ok : Bool) (r : Cmd) (s : RpcCore)
    → view (queue_req queue_ok r s).1.uid (queue_req queue_ok r s).1.rpc_rx_q
      ≡ view s.uid s.rpc_rx_q
unfolding queue_req
queue_req-view true r s = refl
queue_req-view false r s = destroy_sem-view r.rx_sem s

set_sync_slot-view :
    (r : Cmd) (sem : ℕ) (s : RpcCore)
    → view (set_sync_slot r sem s).2.uid (set_sync_slot r sem s).2.rpc_rx_q ≡ view s.uid s.rpc_rx_q
unfolding set_sync_slot
set_sync_slot-view r sem s =
    go (set_slot (record { uid = r.uid; target = some sem }) s.sync_rsp_table)
  where
    go :
        (o : Option (List Slot))
        → let p = elim o as (λ x. Code × Cmd × RpcCore) [
          | none ↦ (not_registered, record r { rx_sem = some sem }, s)
          | some table ↦
              (available, record r { rx_sem = some sem }, record s { sync_rsp_table = table })
        ] in
          view p.2.uid p.2.rpc_rx_q ≡ view s.uid s.rpc_rx_q
    go none = refl
    go (some t) = refl

set_sync_resp_sem-view :
    (created : Option ℕ) (r : Cmd) (s : RpcCore)
    → After (λ p. view p.2.uid p.2.rpc_rx_q ≡ view s.uid s.rpc_rx_q) (set_sync_resp_sem created r s)
unfolding set_sync_resp_sem
set_sync_resp_sem-view created r s =
    if-After P (leb rpc_id_resp_max (resp_id r.msg_id)) _ _ (λ e'. destroy_sem-view r.rx_sem s)
      (λ e'. go r.rpc_rsp_cb)
  where
    P : Code × Cmd × RpcCore → Type 0
    P p = view p.2.uid p.2.rpc_rx_q ≡ view s.uid s.rpc_rx_q

    go :
        (cb : Option ℕ)
        → After P (elim cb as (λ x. Option (Code × Cmd × RpcCore)) [
          | some cb ↦ some (not_registered, r, destroy_sem r.rx_sem s)
          | none ↦ created >>= λ sem. some (set_sync_slot r sem (destroy_sem r.rx_sem s))
        ])
    go (some cb) = destroy_sem-view r.rx_sem s
    go none =
        bind-After P created _
          λ sem. set_sync_slot-view r sem (destroy_sem r.rx_sem s) ∙ destroy_sem-view r.rx_sem s

register_req-view :
    (created : Option ℕ) (queue_ok : Bool) (r : Cmd) (s : RpcCore)
    → After
        (λ p. view p.1.uid p.1.rpc_rx_q ≡ view s.uid s.rpc_rx_q)
        (register_req created queue_ok r s)
unfolding register_req
register_req-view created queue_ok r s = go r.rpc_rsp_cb
  where
    P : Bool × RpcCore → Type 0
    P p = view p.1.uid p.1.rpc_rx_q ≡ view s.uid s.rpc_rx_q

    go :
        (cb : Option ℕ)
        → After P (elim cb as (λ x. Option (Bool × RpcCore)) [
          | some cb ↦ some (queue_req queue_ok r s)
          | none ↦ set_sync_resp_sem created r s >>= λ a.
              if is_available a.0
              then some (queue_req queue_ok a.1 a.2)
              else some (false, fail_send a.1 a.2)
        ])
    go (some cb) = queue_req-view queue_ok r s
    go none =
        then-After (λ a. view a.2.uid a.2.rpc_rx_q ≡ view s.uid s.rpc_rx_q) P
          (set_sync_resp_sem created r s) _ (set_sync_resp_sem-view created r s)
          λ a k.
            if-After P (is_available a.0) _ _ (λ e'. queue_req-view queue_ok a.1 a.2 ∙ k)
              (λ e'. destroy_sem-view a.1.rx_sem a.2 ∙ k)

pub send-view :
    (created : Option ℕ) (queue_ok : Bool) (r : Cmd) (s : RpcCore)
    → After
        (λ p. view p.1.uid p.1.rpc_rx_q ≡ view (next_uid s.uid) s.rpc_rx_q)
        (rpc_send_req created queue_ok (some r) s)
unfolding rpc_send_req
send-view created queue_ok r s =
    register_req-view created queue_ok (record r { uid = next_uid s.uid })
      (record s { uid = next_uid s.uid })

-- The uid finds what it found.
abbrev pub Keeps : ℕ → RpcCore → RpcCore → Type 0
Keeps u s s' = find_uid u s'.sync_rsp_table ≡ find_uid u s.sync_rsp_table

pub rpc_send_req-Keeps :
    (u : ℕ) (created : Option ℕ) (queue_ok : Bool) (r : Cmd) (s : RpcCore)
    → u ≢ 0
    → next_uid s.uid ≢ u
    → After (λ p. Keeps u s p.1) (rpc_send_req created queue_ok (some r) s)
rpc_send_req-Keeps u created queue_ok r s nz ne =
    let found = λ (t : List Slot). find_uid u t ≡ find_uid u s.sync_rsp_table in
    send-keeps found found (λ t h. h) (next_uid s.uid)
      (λ t sem h.
        weaken-After (λ t'. find_uid u t' ≡ find_uid u t) found
          (set_slot (record { uid = next_uid s.uid; target = some sem }) t)
          (find_uid-set_slot-other (record { uid = next_uid s.uid; target = some sem }) t u nz ne)
          (λ t' k. k ∙ h))
      created queue_ok r s refl refl
