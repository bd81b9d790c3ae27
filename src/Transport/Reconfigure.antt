-- ===== src/Transport/Reconfigure.antt =====
-- Waiting for the slave, `transport_drv_reconfigure` of
-- esp-hosted/host/drivers/transport/transport_drv.c. The rest of the program is an argument:
-- `arrives n` says whether the receiving task has processed a valid init event when the `n`-th
-- sleep of a second is over.
pub mod Live
pub mod Stuck
use rt_thread_esp_hosted.Common.{
  ℕ, zero, suc, ◌+◌, ◌-◌, ◌%◌, Bool, true, false, Option, none, some, if◌then◌else◌, ◌==◌, ltb, leb,
  ◌>>=◌,
}

abbrev pub max_retry_transport_active : ℕ
max_retry_transport_active = 1000

-- `transport_state`, the static `retry_slave_connection`, how often the slave was reset, and how
-- often the loop has slept.
pub record Link : Type 0 where
  pub transport_state : ℕ
  pub retry : ℕ
  pub resets : ℕ
  pub slept : ℕ

abbrev pub is_up : Link → Bool
is_up l = leb 2 l.transport_state

unfoldable pub reset_slave : Link → Link
reset_slave l = record l { resets = suc l.resets }

-- `retry_slave_connection++` and the reset in every tenth round
unfoldable pub count_retry : Link → Link
count_retry l =
    let counted = record l { retry = suc l.retry } in
    if suc l.retry % 10 == 0 then reset_slave counted else counted

unfoldable pub sleep : (ℕ → Bool) → Link → Link
sleep arrives l = record l {
  slept = suc l.slept;
  transport_state = if arrives l.slept then 2 else l.transport_state;
}

-- The loop on fuel: whether the transport is up, and the state.
unfoldable pub wait_loop : ℕ → (ℕ → Bool) → Link → Option (Bool × Link)
wait_loop zero arrives l = none
wait_loop (suc n) arrives l =
    let rest = wait_loop n arrives (sleep arrives (count_retry l)) in
    if is_up l
    then some (true, l)
    else if ltb l.retry max_retry_transport_active
    then rest
    else some (false, l)

-- `return ESP_FAIL` leaves the counter as it is.
unfoldable pub finish_reconfigure : Bool × Link → Option (Bool × Link)
finish_reconfigure (true, l) = some (true, record l { retry = 0 })
finish_reconfigure (false, l) = some (false, l)

-- `transport_drv_reconfigure`; true is ESP_OK.
unfoldable pub transport_drv_reconfigure : (ℕ → Bool) → Link → Option (Bool × Link)
transport_drv_reconfigure arrives l =
    let waiting = record (reset_slave l) { transport_state = 1 } in
    if is_up l
    then some (true, record l { retry = 0 })
    else (wait_loop (suc (max_retry_transport_active - l.retry)) arrives waiting
        >>= finish_reconfigure)
