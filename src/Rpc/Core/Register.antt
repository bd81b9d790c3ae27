-- ===== src/Rpc/Core/Register.antt =====
-- What `rpc_send_req` registers, esp-hosted/host/drivers/rpc/core/rpc_core.c.
use rt_thread_esp_hosted.Common.{
  ℕ, ◌+◌, ◌^◌, ◌<◌, ◌≡◌, refl, ◌≢◌, ◌∙◌, Bool, true, false, none, some, List, [], ◌∷◌, ◌++◌, arith,
  if◌then◌else◌, ◌==◌, leb, Ensures, After-some, ne→==, ==_refl, if_true, if_false,
}
use rt_thread_esp_hosted.Rpc.Table.{Slot, find_uid, set_slot}
use rt_thread_esp_hosted.Rpc.Table.Laws.{
  find_uid-set_slot, set_slot-none, set_slot-Runs, Unique, Unique-set_slot,
}
use rt_thread_esp_hosted.Rpc.{RpcCore, Cmd, available, resp_id, rpc_id_resp_max}
use rt_thread_esp_hosted.Rpc.Core.{
  next_uid, rpc_send_req, register_req, queue_req, set_sync_resp_sem, set_sync_slot,
}

-- The uid after any 32-bit uid is a 32-bit uid and not 0, which means no uid; it is the next
-- number, but for the largest, which 1 follows.
pub next_uid_lem :
    (uid : ℕ)
    → uid < 2 ^ 32
    → (next_uid uid ≢ 0)
      × (next_uid uid < 2 ^ 32)
      × (next_uid uid ≡ (if uid + 1 == 2 ^ 32 then 1 else uid + 1))
unfolding next_uid
next_uid_lem uid h = (ground arith, ground arith, ground arith)

-- A request without a callback and without an old semaphore.
abbrev pub synchronous : Cmd → Cmd
synchronous r = record r { rx_sem = none; rpc_rsp_cb = none }

-- The request that is queued: with the next uid and the new semaphore.
abbrev pub numbered : ℕ → Cmd → RpcCore → Cmd
numbered sem r s = record r { uid = next_uid s.uid; rx_sem = some sem; rpc_rsp_cb = none }

set_sync_slot_lem :
    (r : Cmd) (sem : ℕ) (s : RpcCore) {t : List Slot}
    → set_slot (record { uid = r.uid; target = some sem }) s.sync_rsp_table ≡ some t
    → set_sync_slot r sem s
      ≡ (available, record r { rx_sem = some sem }, record s { sync_rsp_table = t })
unfolding set_sync_slot
set_sync_slot_lem r sem s e = rw (e, set_sync_slot)

-- The state after a synchronous request has been registered in the table `t` and queued.
abbrev pub registered : ℕ → List Slot → Cmd → RpcCore → RpcCore
registered sem t r s = record s {
  uid = next_uid s.uid;
  sync_rsp_table = t;
  rpc_tx_q = s.rpc_tx_q ++ numbered sem r s ∷ [];
  rpc_tx_sem = s.rpc_tx_sem + 1;
}

send_in_table :
    (sem : ℕ) (r : Cmd) (s : RpcCore) {t : List Slot}
    → leb rpc_id_resp_max (resp_id r.msg_id) ≡ false
    → set_slot (record { uid = next_uid s.uid; target = some sem }) s.sync_rsp_table ≡ some t
    → rpc_send_req (some sem) true (some (synchronous r)) s ≡ some (true, registered sem t r s)
unfolding rpc_send_req register_req set_sync_resp_sem queue_req
send_in_table sem r s range e = rw (
  range,
  set_sync_slot_lem (record (synchronous r) { uid = next_uid s.uid }) sem
      (record s { uid = next_uid s.uid }) e,
)

abbrev pub slot_of : ℕ → RpcCore → Slot
slot_of sem s = record { uid = next_uid s.uid; target = some sem }

-- A synchronous request in the range of requests, with a 32-bit number that is not pending, while
-- a place is free, the semaphore is created and the request queue has room: it succeeds, the
-- request is queued last with its uid and semaphore and the sending thread is called once; its
-- uid finds its semaphore, every other uid finds what it found, and still no uid stands in two
-- places.
pub rpc_send_req_lem :
    (sem : ℕ) (r : Cmd) (s : RpcCore) {x : Slot}
    → s.uid < 2 ^ 32
    → leb rpc_id_resp_max (resp_id r.msg_id) ≡ false
    → find_uid 0 s.sync_rsp_table ≡ some x
    → find_uid (next_uid s.uid) s.sync_rsp_table ≡ none
    → Unique s.sync_rsp_table
    → Ensures
        (λ p.
          (p.0 ≡ true)
          × (p.1.rpc_tx_q ≡ s.rpc_tx_q ++ numbered sem r s ∷ [])
          × (p.1.rpc_tx_sem ≡ s.rpc_tx_sem + 1)
          × (find_uid (next_uid s.uid) p.1.sync_rsp_table ≡ some (slot_of sem s))
          × ((uid : ℕ)
              → uid ≢ 0
              → next_uid s.uid ≢ uid
              → find_uid uid p.1.sync_rsp_table ≡ find_uid uid s.sync_rsp_table)
          × Unique p.1.sync_rsp_table)
        (rpc_send_req (some sem) true (some (synchronous r)) s)
rpc_send_req_lem sem r s w range place fresh unique =
    let (t, e) = set_slot-Runs (slot_of sem s) s.sync_rsp_table place in
    let found = λ (uid : ℕ) (nz : uid ≢ 0).
      After-some
        (λ t'.
          find_uid uid t'
          ≡ (if next_uid s.uid == uid then some (slot_of sem s) else find_uid uid s.sync_rsp_table))
        (set_slot (slot_of sem s) s.sync_rsp_table)
        (find_uid-set_slot (slot_of sem s) s.sync_rsp_table uid nz fresh) e in
    (
      (true, registered sem t r s),
      send_in_table sem r s range e,
      (
        refl,
        refl,
        refl,
        found (next_uid s.uid) ((next_uid_lem s.uid w).0) ∙ if_true _ _ (==_refl (next_uid s.uid)),
        (λ uid nz ne. found uid nz ∙ if_false _ _ (ne→== (next_uid s.uid) uid ne)),
        After-some Unique (set_slot (slot_of sem s) s.sync_rsp_table)
            (Unique-set_slot (slot_of sem s) s.sync_rsp_table fresh unique) e,
      ),
    )

-- A synchronous request while no place is free: it fails, the new semaphore is destroyed and the
-- request freed, once each, and nothing is registered or queued.
pub full_table :
    (queue_ok : Bool) (sem : ℕ) (r : Cmd) (s : RpcCore)
    → leb rpc_id_resp_max (resp_id r.msg_id) ≡ false
    → find_uid 0 s.sync_rsp_table ≡ none
    → rpc_send_req (some sem) queue_ok (some (synchronous r)) s
      ≡ some (
        false,
        record s {
          uid = next_uid s.uid;
          destroyed = some sem ∷ s.destroyed;
          heap = r.block ∷ s.heap;
        },
      )
unfolding rpc_send_req register_req set_sync_resp_sem set_sync_slot set_slot next_uid
full_table queue_ok sem r s range full =
    rw (range, set_slot-none (slot_of sem s) s.sync_rsp_table full)

unqueued :
    (sem : ℕ) (r : Cmd) (s : RpcCore) {t : List Slot}
    → leb rpc_id_resp_max (resp_id r.msg_id) ≡ false
    → set_slot (slot_of sem s) s.sync_rsp_table ≡ some t
    → rpc_send_req (some sem) false (some (synchronous r)) s
      ≡ some (
        false,
        record s {
          uid = next_uid s.uid;
          sync_rsp_table = t;
          destroyed = some sem ∷ s.destroyed;
          heap = r.block ∷ s.heap;
        },
      )
unfolding rpc_send_req register_req set_sync_resp_sem queue_req
unqueued sem r s range e = rw (
  range,
  set_sync_slot_lem (record (synchronous r) { uid = next_uid s.uid }) sem
      (record s { uid = next_uid s.uid }) e,
)

-- A synchronous request in the range of requests, with a 32-bit number that is not pending, while
-- a place is free, the semaphore is created and the request queue refuses it: it fails and the
-- semaphore is destroyed, and the table still answers its uid with the destroyed semaphore.
pub stale_sem :
    (sem : ℕ) (r : Cmd) (s : RpcCore) {x : Slot}
    → s.uid < 2 ^ 32
    → leb rpc_id_resp_max (resp_id r.msg_id) ≡ false
    → find_uid 0 s.sync_rsp_table ≡ some x
    → find_uid (next_uid s.uid) s.sync_rsp_table ≡ none
    → Ensures
        (λ p.
          (p.0 ≡ false)
          × (p.1.destroyed ≡ some sem ∷ s.destroyed)
          × (find_uid (next_uid s.uid) p.1.sync_rsp_table ≡ some (slot_of sem s)))
        (rpc_send_req (some sem) false (some (synchronous r)) s)
stale_sem sem r s w range place fresh =
    let (t, e) = set_slot-Runs (slot_of sem s) s.sync_rsp_table place in
    (
      _,
      unqueued sem r s range e,
      (
        refl,
        refl,
        After-some
              (λ t'. find_uid (next_uid s.uid) t' ≡ (
                if next_uid s.uid == next_uid s.uid
                then some (slot_of sem s)
                else find_uid (next_uid s.uid) s.sync_rsp_table))
              (set_slot (slot_of sem s) s.sync_rsp_table)
              (find_uid-set_slot (slot_of sem s) s.sync_rsp_table (next_uid s.uid)
                ((next_uid_lem s.uid w).0) fresh)
              e
            ∙ if_true _ _ (==_refl (next_uid s.uid)),
      ),
    )
