-- ===== src/Rpc/Core/Rx/Events.antt =====
-- Event callbacks of esp-hosted/host/drivers/rpc/core/rpc_core.c: what is set is what an event
-- runs.
use mathlib.Core.Path.{subst}
use rt_thread_esp_hosted.Common.{
  ℕ, zero, suc, ◌-◌, ◌<◌, ◌≡◌, refl, sym, true, false, Option, some, List, [], ◌∷◌, arith, length,
  load, store, Ensures,
}
use rt_thread_esp_hosted.Rpc.{RpcCore, Cmd, available, rpc_id_event_base, rpc_id_event_max}
use rt_thread_esp_hosted.Rpc.Core.Rx.{
  Proto, type_event, not_event, set_event_callback, process_rpc_rx_msg, process_event,
  is_event_callback_registered, call_event_callback,
}

-- What a write into a table reads back.
store_lem :
    (t : List (Option ℕ)) (i : ℕ) (v : Option ℕ)
    → i < length t
    → Ensures (λ t'. load t' i ≡ some v) (store t i v)
store_lem [] i v h = absurd (omega arith)
store_lem (x ∷ t) zero v h = (_, refl, refl)
store_lem (x ∷ t) (suc i) v h = let (t', e, k) = store_lem t i v (omega arith) in rw e (_, refl, k)

event_range :
    (n : ℕ) → not_event n ≡ false → n - rpc_id_event_base < rpc_id_event_max - rpc_id_event_base
event_range n h = ground arith

-- Once an event in the range of events has the callback `cb` in a table of the full size, that
-- event, when it is parsed, runs `cb` on it, once, its message is freed, and the structure made
-- for it is left to the callback.
pub set_event_callback_lem :
    (m : Proto) (e : Cmd) (b cb : ℕ) (s : RpcCore)
    → m.msg_type ≡ type_event
    → not_event m.msg_id ≡ false
    → e.msg_id ≡ m.msg_id
    → length s.rpc_evt_cb_table ≡ rpc_id_event_max - rpc_id_event_base
    → Ensures
        (λ p.
          (p.0 ≡ available)
          × (process_rpc_rx_msg (some b) (some e) true (some m) p.1
              ≡ some (
                true,
                record p.1 {
                  called = (cb, record e { block = b }) ∷ s.called;
                  heap = m.block ∷ s.heap;
                },
              )))
        (set_event_callback m.msg_id (some cb) s)
unfolding set_event_callback process_rpc_rx_msg process_event is_event_callback_registered
    call_event_callback
set_event_callback_lem m e b cb s ty range same len =
    let (t, found, k) =
      store_lem s.rpc_evt_cb_table (m.msg_id - rpc_id_event_base) (some cb)
        (subst (λ k. m.msg_id - rpc_id_event_base < k) (sym len) (event_range m.msg_id range)) in
    (
      (available, record s { rpc_evt_cb_table = t }),
      simp (range, found),
      (refl, simp (ty, range, k, same, range, k)),
    )
