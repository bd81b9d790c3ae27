-- ===== src/Rpc/Core/Lifecycle/Restart.antt =====
-- `rpc_core_init` of esp-hosted/host/drivers/rpc/core/rpc_core.c, then `rpc_core_deinit`, then
-- `rpc_core_init` again.
use rt_thread_esp_hosted.Common.{
  ℕ, ◌≡◌, refl, ap, ◌∙◌, if_false, Bool, true, false, not, Option, none, some, List, [], ◌∷◌, ◌>>=◌,
}
use rt_thread_esp_hosted.Serial.Drv.{serial_drv_open}
use rt_thread_esp_hosted.Adapter.{esp_serial_if}
use rt_thread_esp_hosted.Serial.Ll.{SerialLl, active}
use rt_thread_esp_hosted.Serial.Ll.Lifecycle.{serial_ll_init, serial_ll_open}
use rt_thread_esp_hosted.Rpc.Core.Lifecycle.{
  is_some, RpcLib, Kernel, open_ll, rpc_platform_init, transport_pserial_close, close_failed,
  open_platform, transport_pserial_open, cancel_rpc_threads, release_all, rpc_core_deinit,
  spawn_rpc_threads, init_queues, rpc_core_init,
}

-- The static variables before the first start.
abbrev pub fresh : SerialLl → List ℕ → RpcLib
fresh ll released = record {
  ready = false;
  rpc_tx_sem = none;
  rpc_rx_q = none;
  rpc_tx_q = none;
  rpc_rx_thread_hdl = none;
  rpc_tx_thread_hdl = none;
  async_timer_hdl = none;
  serial_handle = none;
  read_semaphore = none;
  serial_ll_if = none;
  ll = record ll { conn_num = 0 };
  released = released;
}

-- A kernel that creates everything.
abbrev pub creating : ℕ → ℕ → ℕ → ℕ → ℕ → ℕ → ℕ → ℕ → Kernel
creating tx_sem drv read_sem ll rx_q tx_q rx_thread tx_thread = record {
  tx_sem = some tx_sem;
  serial_drv = some drv;
  read_sem = some read_sem;
  serial_ll = some ll;
  ll_queue = true;
  rx_q = some rx_q;
  tx_q = some tx_q;
  rx_thread = some rx_thread;
  tx_thread = some tx_thread;
}

no_handle :
    (queue : Bool) (lib : RpcLib) (block : Option ℕ) (ll : SerialLl)
    → ll.conn_num ≡ 1
    → open_ll queue (serial_ll_init true block ll) lib ≡ none
unfolding open_ll serial_ll_init
no_handle queue lib block ll e = rw e refl

no_interface : (k : Kernel) (lib : RpcLib) → lib.ll.conn_num ≡ 1 → rpc_platform_init k lib ≡ none
unfolding rpc_platform_init
no_interface k lib e = go k.read_sem
  where
    closed :
        (sem : ℕ)
        → open_ll k.ll_queue
            (serial_ll_init true k.serial_ll lib.ll)
            (record lib { read_semaphore = some sem })
          ≡ none
    closed sem =
        no_handle k.ll_queue (record lib { read_semaphore = some sem }) k.serial_ll lib.ll e

    go :
        (sem : Option ℕ)
        → (sem >>= λ x.
            open_ll k.ll_queue
              (serial_ll_init true k.serial_ll lib.ll)
              (record lib { read_semaphore = some x }))
          ≡ none
    go none = refl
    go (some x) = closed x

again :
    (k : Kernel) (lib : RpcLib) {tx_sem drv : ℕ}
    → k.tx_sem ≡ some tx_sem
    → k.serial_drv ≡ some drv
    → lib.serial_handle ≡ none
    → lib.ll.conn_num ≡ 1
    → rpc_core_init k lib ≡ none
unfolding rpc_core_init transport_pserial_open serial_drv_open open_platform
again k lib {drv = drv} e f h c =
    let created : RpcLib = record lib { rpc_tx_sem = k.tx_sem } in
    if_false {b = not (is_some k.tx_sem)} _ _ (ap (λ o. not (is_some o)) e)
    ∙ ap (λ (m : Option (Bool × RpcLib)). m >>= init_queues k)
        (if_false {b = is_some lib.serial_handle} _ _ (ap is_some h)
          ∙ ap (λ o. open_platform k o created) f
          ∙ ap (λ (m : Option (Bool × RpcLib)). m >>= close_failed)
              (no_interface k (record created { serial_handle = some drv }) c))

-- What a start, a stop and a second start give.
abbrev pub Restarts : RpcLib → Kernel → List ℕ → Type 0
Restarts lib k freed =
    (started stopped : RpcLib) × (rpc_core_init k lib ≡ some (true, started))
    × (started.ready ≡ true)
    × (rpc_core_deinit started ≡ some (true, stopped))
    × (stopped.ready ≡ false)
    × (stopped.released ≡ freed)
    × (stopped.read_semaphore ≡ k.read_sem)
    × (stopped.ll.interface0 ≡ started.ll.interface0)
    × ((stopped.ll.interface0 >>= λ h. h.queue) ≡ some [])
    × (stopped.ll.conn_num ≡ 1)
    × ((tx_sem drv : ℕ) (k' : Kernel)
        → k'.tx_sem ≡ some tx_sem
        → k'.serial_drv ≡ some drv
        → rpc_core_init k' stopped ≡ none)

-- From the static variables before the first start, with a kernel that creates everything:
-- `rpc_core_init` succeeds, and `rpc_core_deinit` after it succeeds and releases the two queues,
-- the sending thread's semaphore, the serial driver's handle and the two threads, once each, and
-- nothing else. The semaphore for reading and the handle of the serial interface with its queue
-- stay as the start has left them, and the interface stays open, so a second `rpc_core_init` fails an assertion in `rpc_platform_init`, whatever
-- else the kernel answers, once the semaphore and the handle have been created.
pub restart :
    (ll : SerialLl) (released : List ℕ) (tx_sem drv read_sem hdl rx_q tx_q rx_thread tx_thread : ℕ)
    → Restarts
        (fresh ll released)
        (creating tx_sem drv read_sem hdl rx_q tx_q rx_thread tx_thread)
        (tx_thread ∷ rx_thread ∷ drv ∷ tx_sem ∷ tx_q ∷ rx_q ∷ released)
unfolding rpc_core_init transport_pserial_open serial_drv_open open_platform rpc_platform_init
    open_ll serial_ll_init serial_ll_open close_failed init_queues spawn_rpc_threads rpc_core_deinit
    release_all transport_pserial_close cancel_rpc_threads
restart ll released tx_sem drv read_sem hdl rx_q tx_q rx_thread tx_thread =
    let stopped : RpcLib = record {
      ready = false;
      rpc_tx_sem = some tx_sem;
      rpc_rx_q = some rx_q;
      rpc_tx_q = some tx_q;
      rpc_rx_thread_hdl = some rx_thread;
      rpc_tx_thread_hdl = some tx_thread;
      async_timer_hdl = none;
      serial_handle = none;
      read_semaphore = some read_sem;
      serial_ll_if = some 0;
      ll = record ll {
        interface0 = some (record {
          block = hdl;
          queue = some [];
          if_type = esp_serial_if;
          if_num = 0;
          state = active;
          serial_rx_callback = true;
        });
        conn_num = 1;
      };
      released = tx_thread ∷ rx_thread ∷ drv ∷ tx_sem ∷ tx_q ∷ rx_q ∷ released;
    } in
    (
      _,
      stopped,
      refl,
      refl,
      refl,
      refl,
      refl,
      refl,
      refl,
      refl,
      refl,
      λ sem drv' k' e f. again k' stopped e f refl refl,
    )
