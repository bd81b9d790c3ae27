-- ===== src/Tests/Interleaving.antt =====
-- Runs of the RPC library with steps of several threads.
use rt_thread_esp_hosted.Common.{◌≡◌, refl, ◌≢◌, true, none, some, List, [], ◌∷◌, arith, Ensures}
use rt_thread_esp_hosted.Rpc.{RpcCore, Cmd}
use rt_thread_esp_hosted.Rpc.Table.{find_uid, set_slot, clear_uid}
use rt_thread_esp_hosted.Rpc.Core.{
  next_uid, rpc_send_req, register_req, set_sync_resp_sem, set_sync_slot, queue_req,
}
use rt_thread_esp_hosted.Rpc.Core.Rx.{process_rpc_rx_msg}
use rt_thread_esp_hosted.Rpc.Core.Tx.{rpc_wait_and_parse_sync_resp}
use rt_thread_esp_hosted.Rpc.Core.Invariant
use rt_thread_esp_hosted.Rpc.Core.Invariant.{IsTable, IsCore, Reach-IsTable, here, next}
use rt_thread_esp_hosted.Rpc.Core.Interleaving.{
  Reach, stay, step, send, Later, later, done, after_resp, sync_exchange, Reach-Keeps,
  wrong_response,
}
use rt_thread_esp_hosted.Tests.Rpc.{cmd, state, waiting, resp_msg, one_waits}

-- Another request is sent while the one with the uid 3 waits.
abbrev two_wait : RpcCore
two_wait = record (state waiting) {
  uid = 4;
  sync_rsp_table = record { uid = 3; target = some 30 } ∷ record { uid = 4; target = some 70 } ∷ [];
  rpc_tx_q = record (cmd 258 4) { rx_sem = some 70 } ∷ [];
  rpc_tx_sem = 1;
}

another : Reach 3 (state waiting) two_wait
unfolding rpc_send_req register_req set_sync_resp_sem set_sync_slot queue_req next_uid set_slot
another = step (send (some 70) true (cmd 258 0) (λ e. absurd (omega arith)) refl) stay

-- The response has come, and then a third request is sent.
abbrev three_wait : RpcCore
three_wait = record (after_resp (record (cmd 514 3) { block = 80 }) resp_msg 30 two_wait) {
  uid = 5;
  rpc_tx_q =
      record (cmd 258 4) { rx_sem = some 70 } ∷ record (cmd 258 5) { rpc_rsp_cb = some 90 } ∷ [];
  rpc_tx_sem = 2;
}

a_third : Later 3 (after_resp (record (cmd 514 3) { block = 80 }) resp_msg 30 two_wait) three_wait
unfolding rpc_send_req register_req queue_req next_uid
a_third =
    later
      (send none true (record (cmd 258 0) { rpc_rsp_cb = some 90 }) (λ e. absurd (omega arith))
        refl)
      refl done

sync_exchange_example :
    (process_rpc_rx_msg (some 80) (some (cmd 514 3)) true (some resp_msg) two_wait
      ≡ some (true, after_resp (record (cmd 514 3) { block = 80 }) resp_msg 30 two_wait))
    × ((q : List Cmd) × (three_wait.rpc_rx_q ≡ record (cmd 514 3) { block = 80 } ∷ q)
        × (rpc_wait_and_parse_sync_resp true (cmd 258 3) three_wait
            ≡ some (
              some (record (cmd 514 3) { block = 80 }),
              record three_wait {
                destroyed = some 30 ∷ [];
                sync_rsp_table = clear_uid 3 two_wait.sync_rsp_table;
                rpc_rx_q = q;
                heap = 50 ∷ 60 ∷ [];
              },
            )))
unfolding find_uid
sync_exchange_example =
    sync_exchange (cmd 258 3) (cmd 514 3) resp_msg 80 30 {s = state waiting} {s' = two_wait}
      (λ e. absurd (omega arith)) refl refl another refl refl refl refl refl a_third

Reach-Keeps_example : find_uid 3 two_wait.sync_rsp_table ≡ find_uid 3 waiting
Reach-Keeps_example = Reach-Keeps {s = state waiting} (λ e. absurd (omega arith)) another

-- The answer to another request comes first.
abbrev crossed : RpcCore
crossed = record two_wait { rpc_rx_q = cmd 514 4 ∷ cmd 514 3 ∷ [] }

wrong_response_example :
    Ensures
      (λ w.
        (o : Cmd) × (w.0 ≡ some o)
        × (o.uid ≢ 3)
        × (w.1.sync_rsp_table ≡ clear_uid 3 two_wait.sync_rsp_table))
      (rpc_wait_and_parse_sync_resp true (cmd 258 3) crossed)
unfolding find_uid
wrong_response_example =
    wrong_response (cmd 258 3) (cmd 514 4) 30 (cmd 514 3 ∷ []) crossed refl refl refl
      (λ e. absurd (omega arith))

waiting-IsTable : IsTable waiting
waiting-IsTable = (
  one_waits,
  (
    ((λ e. absurd (omega (arith, e))), (λ e. (30, refl))),
    (((λ e. refl), (λ e. absurd (e refl))), tt),
  ),
)

waiting-IsCore : IsCore (state waiting)
waiting-IsCore = (waiting-IsTable, (omega arith, (omega arith, tt)))

sent : Invariant.Reach (state waiting) two_wait
unfolding rpc_send_req register_req set_sync_resp_sem set_sync_slot queue_req next_uid set_slot
sent = next here (Invariant.send (some 70) true (cmd 258 0) (omega arith) refl)

Reach-IsTable_example : IsCore two_wait
Reach-IsTable_example = Reach-IsTable sent waiting-IsCore
