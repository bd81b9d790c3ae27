-- ===== src/Tests/Rpc.antt =====
-- Runs of the RPC library at concrete states.
use rt_thread_esp_hosted.Common.{
  ℕ, ◌+◌, ◌≡◌, refl, ◌≢◌, true, false, none, some, List, [], ◌∷◌, ◌++◌, arith, Ensures, After, inr,
  ◌⊎◌, replicate,
}
use rt_thread_esp_hosted.Rpc.{RpcCore, Cmd}
use rt_thread_esp_hosted.Rpc.Table.{Slot, free_slot, find_uid, clear_uid}
use rt_thread_esp_hosted.Rpc.Table.Laws.{Unique}
use rt_thread_esp_hosted.Rpc.Core.{next_uid, rpc_send_req}
use rt_thread_esp_hosted.Rpc.Core.Register.{
  rpc_send_req_lem, full_table, stale_sem, numbered, synchronous, slot_of,
}
use rt_thread_esp_hosted.Rpc.Core.Rx.{Proto, type_resp, type_event, process_rpc_rx_msg}
use rt_thread_esp_hosted.Rpc.Core.Rx.Correlation.{sync_resp_lem, async_resp_lem, null_callback}
use rt_thread_esp_hosted.Rpc.Core.Rx.Ownership.{process_rpc_rx_msg_lem}
use rt_thread_esp_hosted.Rpc.Core.Tx.{Errors, process_rpc_tx_msg}
use rt_thread_esp_hosted.Rpc.Core.Tx.Failure.{refused, unwoken}

abbrev pub cmd : ℕ → ℕ → Cmd
cmd msg_id uid = record {
  block = 50;
  msg_id = msg_id;
  uid = uid;
  resp_event_status = 0;
  rx_sem = none;
  rpc_rsp_cb = none;
  rsp_timeout_sec = 0;
}

-- One request waits with the semaphore 30 under the uid 3, one with the callback 20 under 2.
abbrev pub state : List Slot → RpcCore
state sync = record {
  uid = 3;
  sync_rsp_table = sync;
  async_rsp_table = record { uid = 2; target = some 20 } ∷ free_slot ∷ [];
  rpc_evt_cb_table = replicate 9 none;
  rpc_tx_q = [];
  rpc_rx_q = [];
  rpc_tx_sem = 0;
  async_timer_hdl = none;
  posted = [];
  destroyed = [];
  called = [];
  heap = [];
}

abbrev pub waiting : List Slot
waiting = record { uid = 3; target = some 30 } ∷ free_slot ∷ []

abbrev full : List Slot
full = record { uid = 3; target = some 30 } ∷ []

abbrev pub resp_msg : Proto
resp_msg = record { block = 60; msg_type = type_resp; msg_id = 514 }

abbrev event_msg : Proto
event_msg = record { block = 61; msg_type = type_event; msg_id = 770 }

abbrev errors : Errors
errors = record {
  memory_failure = 1;
  protobuf_encode = 2;
  set_async_cb = 3;
  transport_send = 4;
  request_timeout = 5;
}

pub one_waits : Unique waiting
unfolding find_uid
one_waits = (λ nz. refl, (λ nz. refl, tt))

rpc_send_req_lem_example :
    Ensures
      (λ p.
        (p.0 ≡ true)
        × (p.1.rpc_tx_q ≡ [] ++ numbered 70 (cmd 258 0) (state waiting) ∷ [])
        × (p.1.rpc_tx_sem ≡ 0 + 1)
        × (find_uid (next_uid 3) p.1.sync_rsp_table ≡ some (slot_of 70 (state waiting)))
        × ((uid : ℕ)
            → uid ≢ 0
            → next_uid 3 ≢ uid
            → find_uid uid p.1.sync_rsp_table ≡ find_uid uid waiting)
        × Unique p.1.sync_rsp_table)
      (rpc_send_req (some 70) true (some (synchronous (cmd 258 0))) (state waiting))
unfolding find_uid next_uid
rpc_send_req_lem_example =
    rpc_send_req_lem 70 (cmd 258 0) (state waiting) (omega arith) refl refl refl one_waits

full_table_example :
    rpc_send_req (some 70) true (some (synchronous (cmd 258 0))) (state full)
    ≡ some
        (false, record (state full) { uid = next_uid 3; destroyed = some 70 ∷ []; heap = 50 ∷ [] })
unfolding find_uid
full_table_example = full_table true 70 (cmd 258 0) (state full) refl refl

stale_sem_example :
    Ensures
      (λ p.
        (p.0 ≡ false)
        × (p.1.destroyed ≡ some 70 ∷ [])
        × (find_uid (next_uid 3) p.1.sync_rsp_table ≡ some (slot_of 70 (state waiting))))
      (rpc_send_req (some 70) false (some (synchronous (cmd 258 0))) (state waiting))
unfolding find_uid next_uid
stale_sem_example = stale_sem 70 (cmd 258 0) (state waiting) (omega arith) refl refl refl

sync_resp_lem_example :
    process_rpc_rx_msg (some 80) (some (cmd 514 3)) true (some resp_msg) (state waiting)
    ≡ some (
      true,
      record (state waiting) {
        async_timer_hdl = none;
        rpc_rx_q = [] ++ record (cmd 514 3) { block = 80 } ∷ [];
        posted = some 30 ∷ [];
        heap = 60 ∷ [];
      },
    )
unfolding find_uid
sync_resp_lem_example = sync_resp_lem resp_msg (cmd 514 3) 80 30 (state waiting) refl refl refl refl

async_resp_lem_example :
    process_rpc_rx_msg (some 80) (some (cmd 514 2)) true (some resp_msg) (state waiting)
    ≡ some (
      true,
      record (state waiting) {
        async_timer_hdl = none;
        called = (20, record (cmd 514 2) { block = 80 }) ∷ [];
        async_rsp_table = clear_uid 2 (record { uid = 2; target = some 20 } ∷ free_slot ∷ []);
        heap = 60 ∷ [];
      },
    )
unfolding find_uid
async_resp_lem_example =
    async_resp_lem true resp_msg (cmd 514 2) 80 20 (state waiting) refl refl refl

null_callback_example :
    process_rpc_rx_msg (some 80) (some (cmd 514 0)) true (some resp_msg) (state waiting) ≡ none
unfolding find_uid
null_callback_example =
    null_callback true resp_msg (cmd 514 0) 80 (state waiting) refl refl refl refl

process_rpc_rx_msg_lem_example :
    After
      (λ p.
        ((p.1.heap ≡ 60 ∷ [])
          ⊎ ((p.0 ≡ false) × ((b : ℕ) × (some 80 ≡ some b) × (p.1.heap ≡ b ∷ 60 ∷ []))))
        × (p.1.sync_rsp_table ≡ waiting)
        × (p.1.rpc_tx_q ≡ []))
      (process_rpc_rx_msg (some 80) none true (some resp_msg) (state waiting))
process_rpc_rx_msg_lem_example = process_rpc_rx_msg_lem (some 80) none true resp_msg (state waiting)

unwoken_example :
    process_rpc_tx_msg errors
      (refused 11 81 80 none)
      (record (cmd 258 3) { rpc_rsp_cb = none })
      (state waiting)
    ≡ none
unfolding find_uid
unwoken_example = unwoken errors 11 81 80 none (cmd 258 3) (state waiting) refl (inr refl)
