-- ===== src/Rpc/Table.antt =====
-- `sync_rsp_table` and `async_rsp_table` of esp-hosted/host/drivers/rpc/core/rpc_core.c, and the
-- loops over them. A place holds the uid that it serves, 0 when it is free, and the number of the
-- semaphore or of the callback, `none` for NULL. Both tables have the same shape, so each loop
-- stands once.
pub mod Laws
use rt_thread_esp_hosted.Common.{ℕ, Option, none, some, List, [], ◌∷◌, if◌then◌else◌, ◌==◌, ◌>>=◌}

-- `sync_rsp_t` and `async_rsp_t`
pub record Slot : Type 0 where
  pub uid : ℕ
  pub target : Option ℕ

abbrev pub free_slot : Slot
free_slot = record { uid = 0; target = none }

-- The first place with this uid, as the loops of `is_async_resp_callback_available`,
-- `is_sync_resp_sem_available`, `call_async_resp_callback` and `post_sync_resp_sem` find it.
unfoldable pub find_uid : ℕ → List Slot → Option Slot
find_uid uid [] = none
find_uid uid (x ∷ table) = if x.uid == uid then some x else find_uid uid table

-- The loop of `set_async_resp_callback` and `set_sync_resp_sem`: the first free place is taken.
unfoldable pub set_slot : Slot → List Slot → Option (List Slot)
set_slot new [] = none
set_slot new (x ∷ table) =
    if x.uid == 0 then some (new ∷ table) else (set_slot new table >>= λ t. some (x ∷ t))

-- The loop of `clear_async_resp_callback` and the end of `wait_for_sync_response`: the first
-- place with this uid is set free.
unfoldable pub clear_uid : ℕ → List Slot → List Slot
clear_uid uid [] = []
clear_uid uid (x ∷ table) = if x.uid == uid then free_slot ∷ table else x ∷ clear_uid uid table
