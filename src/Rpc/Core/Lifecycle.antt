-- ===== src/Rpc/Core/Lifecycle.antt =====
-- Starting and stopping the remote calls: `rpc_core_init` and `rpc_core_deinit` of
-- esp-hosted/host/drivers/rpc/core/rpc_core.c, `transport_pserial_open` and
-- `transport_pserial_close` of esp-hosted/host/drivers/virtual_serial_if/serial_if.c, and
-- `rpc_platform_init` and `rpc_platform_deinit` of esp-hosted/host/drivers/serial/serial_drv.c.
-- What the kernel creates is a number, and `none` where it fails; what it is asked to release is
-- logged.
pub mod Restart
use rt_thread_esp_hosted.Common.{
  ℕ, Bool, true, false, not, ◌&&◌, Option, none, some, List, [], ◌∷◌, ◌++◌, if◌then◌else◌, ◌>>=◌,
}
use rt_thread_esp_hosted.Serial.Drv.{is_ok, serial_drv_open}
use rt_thread_esp_hosted.Serial.Ll.{SerialLl}
use rt_thread_esp_hosted.Serial.Ll.Lifecycle.{serial_ll_init, serial_ll_open, serial_ll_close}

-- The static variables of the three files; `ready` is `rpc_lib_ctxt.state`.
pub record RpcLib : Type 0 where
  pub ready : Bool
  pub rpc_tx_sem : Option ℕ
  pub rpc_rx_q : Option ℕ
  pub rpc_tx_q : Option ℕ
  pub rpc_rx_thread_hdl : Option ℕ
  pub rpc_tx_thread_hdl : Option ℕ
  pub async_timer_hdl : Option ℕ
  pub serial_handle : Option ℕ
  pub read_semaphore : Option ℕ
  pub serial_ll_if : Option ℕ
  pub ll : SerialLl
  pub released : List ℕ

-- What the kernel answers to the calls of `rpc_core_init`.
pub record Kernel : Type 0 where
  pub tx_sem : Option ℕ
  pub serial_drv : Option ℕ
  pub read_sem : Option ℕ
  pub serial_ll : Option ℕ
  pub ll_queue : Bool
  pub rx_q : Option ℕ
  pub tx_q : Option ℕ
  pub rx_thread : Option ℕ
  pub tx_thread : Option ℕ

abbrev pub is_some : Option ℕ → Bool
is_some none = false
is_some (some x) = true

abbrev pub listed : Option ℕ → List ℕ
listed none = []
listed (some x) = x ∷ []

-- Behind `serial_ll_init`: NULL fails an assertion.
unfoldable pub open_ll : Bool → Option ℕ × SerialLl → RpcLib → Option (Bool × RpcLib)
open_ll queue (none, ll) lib = none
open_ll queue (some i, ll) lib = serial_ll_open queue i ll >>= λ r.
    some (is_ok r.0, record lib { serial_ll_if = some i; ll = r.1 })

-- `rpc_platform_init`; true is RET_OK. A semaphore that is not created fails an assertion.
unfoldable pub rpc_platform_init : Kernel → RpcLib → Option (Bool × RpcLib)
rpc_platform_init k lib = k.read_sem >>= λ sem.
    open_ll k.ll_queue (serial_ll_init true k.serial_ll lib.ll)
      (record lib { read_semaphore = some sem })

-- `rpc_platform_deinit`, which nothing calls
unfoldable pub rpc_platform_deinit : RpcLib → Option (Bool × RpcLib)
rpc_platform_deinit lib = do
  i ← lib.serial_ll_if
  r ← serial_ll_close i lib.ll
  some (is_ok r.0, record lib { ll = r.1 })

-- `transport_pserial_close`; true is SUCCESS. Without a handle `serial_drv_close` frees what is
-- not a block, a fault.
unfoldable pub transport_pserial_close : RpcLib → Option (Bool × RpcLib)
transport_pserial_close lib = lib.serial_handle >>= λ b.
    some (true, record lib { serial_handle = none; released = b ∷ lib.released })

-- After a failure of the platform, `transport_pserial_open` closes the handle.
unfoldable pub close_failed : Bool × RpcLib → Option (Bool × RpcLib)
close_failed (true, lib) = some (true, lib)
close_failed (false, lib) = transport_pserial_close lib >>= λ r. some (false, r.1)

unfoldable pub open_platform : Kernel → Option ℕ → RpcLib → Option (Bool × RpcLib)
open_platform k none lib = some (false, record lib { serial_handle = none })
open_platform k (some b) lib =
    rpc_platform_init k (record lib { serial_handle = some b }) >>= close_failed

-- `transport_pserial_open`
unfoldable pub transport_pserial_open : Kernel → RpcLib → Option (Bool × RpcLib)
transport_pserial_open k lib =
    if is_some lib.serial_handle
    then some (true, lib)
    else open_platform k (serial_drv_open true k.serial_drv) lib

-- `cancel_rpc_threads` where the kernel cancels what it is given
unfoldable pub cancel_rpc_threads : RpcLib → RpcLib
cancel_rpc_threads lib = record lib {
  released = listed lib.rpc_tx_thread_hdl ++ (listed lib.rpc_rx_thread_hdl ++ lib.released);
}

-- The queues, the semaphore and the timer; the pointers to all but the timer stay.
unfoldable pub release_all : RpcLib → RpcLib
release_all lib = record lib {
  ready = false;
  async_timer_hdl = none;
  released =
      listed lib.async_timer_hdl
      ++ (listed lib.rpc_tx_sem ++ (listed lib.rpc_tx_q ++ (listed lib.rpc_rx_q ++ lib.released)));
}

-- `rpc_core_deinit`, where the kernel releases what it is given; true is SUCCESS.
unfoldable pub rpc_core_deinit : RpcLib → Option (Bool × RpcLib)
rpc_core_deinit lib =
    if not lib.ready
    then some (true, lib)
    else (transport_pserial_close (release_all lib) >>= λ r. some (r.0, cancel_rpc_threads r.1))

-- The label `free_bufs`
unfoldable pub fail_init : RpcLib → Option (Bool × RpcLib)
fail_init lib = rpc_core_deinit lib >>= λ r. some (false, r.1)

-- `spawn_rpc_threads`
unfoldable pub spawn_rpc_threads : Kernel → RpcLib → Bool × RpcLib
spawn_rpc_threads k lib = (
  is_some k.rx_thread && is_some k.tx_thread,
  record lib { rpc_rx_thread_hdl = k.rx_thread; rpc_tx_thread_hdl = k.tx_thread },
)

-- From the queues on.
unfoldable pub init_queues : Kernel → Bool × RpcLib → Option (Bool × RpcLib)
init_queues k (false, lib) = fail_init lib
init_queues k (true, lib) =
    let queued = record lib { rpc_rx_q = k.rx_q; rpc_tx_q = k.tx_q } in
    let spawned = spawn_rpc_threads k queued in
    if not (is_some k.rx_q && is_some k.tx_q)
    then fail_init queued
    else if not spawned.0
    then fail_init spawned.1
    else some (true, record spawned.1 { ready = true })

-- `rpc_core_init`; true is SUCCESS.
unfoldable pub rpc_core_init : Kernel → RpcLib → Option (Bool × RpcLib)
rpc_core_init k lib =
    let created = record lib { rpc_tx_sem = k.tx_sem } in
    if not (is_some k.tx_sem)
    then fail_init created
    else (transport_pserial_open k created >>= init_queues k)
