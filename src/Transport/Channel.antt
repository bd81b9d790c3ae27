-- ===== src/Transport/Channel.antt =====
-- The channels of esp-hosted/host/drivers/transport/transport_drv.c, in the build without the pool
-- of blocks, in which `mempool_create` gives NULL and a block goes back to the heap.
pub mod Network
pub mod Overrun
use rt_thread_esp_hosted.Common.{
  ℕ, ◌%◌, ◌^◌, Bool, true, false, ◌&&◌, Option, none, some, List, ◌∷◌, if◌then◌else◌, ◌==◌, ltb,
  not, ◌>>=◌, ◌>>◌, check, slice, copy_to, Buffer, Heap,
}
use rt_thread_esp_hosted.Adapter.{esp_sta_if, esp_ap_if, esp_serial_if, esp_max_if}
use rt_thread_esp_hosted.Adapter.Header.{header_size}
use rt_thread_esp_hosted.Port.{Allocator}
use rt_thread_esp_hosted.Spi.{Spi, esp_hosted_tx, max_spi_buffer_size}
use rt_thread_esp_hosted.Mempool.{mempool_alloc}

-- The functions that `tx` can point to; `no_tx` is NULL.
pub data TxFn : Type 0 where
  no_tx sta_tx ap_tx serial_tx : TxFn

-- `transport_channel_t` in the block `ident`; `rx` tells whether it is set.
pub record Channel : Type 0 where
  pub ident : ℕ
  pub api_chan : ℕ
  pub if_type : ℕ
  pub secure : Bool
  pub tx : TxFn
  pub rx : Bool

-- `chan_arr`, and the SPI driver with the heap and `wifi_tx_throttling`
pub record Net : Type 0 where
  pub chan_arr : ℕ → Option Channel
  pub spi : Spi

unfoldable pub set_chan : ℕ → Option Channel → Net → Net
set_chan i c net = record net { chan_arr = λ j. if j == i then c else net.chan_arr j }

abbrev pub h_free : ℕ → Net → Net
h_free b net = record net { spi = record net.spi { heap = b ∷ net.spi.heap } }

-- What `calloc` leaves in the block.
abbrev pub blank : ℕ → Channel
blank b = record { ident = b; api_chan = 0; if_type = 0; secure = false; tx = no_tx; rx = false }

-- The `switch` over the interface.
unfoldable pub tx_function : ℕ → Option TxFn
tx_function if_type =
    if if_type == esp_sta_if
    then some sta_tx
    else if if_type == esp_ap_if
    then some ap_tx
    else if if_type == esp_serial_if
    then some serial_tx
    else none

-- An interface without a function keeps the blank channel, and NULL is returned.
unfoldable pub fill_channel : ℕ → ℕ → Bool → ℕ → Option TxFn → Net → Option Channel × Net
fill_channel api_chan if_type secure b none net = (none, set_chan if_type (some (blank b)) net)
fill_channel api_chan if_type secure b (some tx) net =
    let channel : Channel = record {
      ident = b;
      api_chan = api_chan;
      if_type = if_type;
      secure = secure;
      tx = tx;
      rx = true;
    } in
    (some channel, set_chan if_type (some channel) net)

-- An old channel is freed.
unfoldable pub free_old : Option Channel → Net → Net
free_old none net = net
free_old (some old) net = h_free old.ident net

-- `transport_drv_add_channel`; `tx` and `rx` tell whether they are given, and NULL from calloc
-- fails an assertion, as an interface that is too large does.
unfoldable pub transport_drv_add_channel :
    Option ℕ → ℕ → ℕ → Bool → Bool → Bool → Net → Option (Option Channel × Net)
transport_drv_add_channel calloc api_chan if_type secure tx rx net =
    if not (ltb if_type esp_max_if)
    then none
    else if not (tx && rx)
    then some (none, net)
    else (calloc >>= λ b. some (
        fill_channel api_chan if_type secure b (tx_function if_type)
          (free_old (net.chan_arr if_type) net)))

-- `transport_drv_remove_channel`; true is ESP_OK.
unfoldable pub transport_drv_remove_channel : Option Channel → Net → Option (Bool × Net)
transport_drv_remove_channel none net = some (false, net)
transport_drv_remove_channel (some channel) net = do
  c ← net.chan_arr channel.if_type
  check (c.ident == channel.ident)
  some (true, h_free channel.ident (set_chan channel.if_type none net))

-- ESP_OK, the refusal while the slave throttles, and the failure of `esp_hosted_tx`
pub data TxRet : Type 0 where
  tx_ok tx_throttled tx_failed : TxRet

unfoldable pub tx_ret : Bool → TxRet
tx_ret true = tx_ok
tx_ret false = tx_failed

-- `assert(h && h==chan_arr[if_type]->api_chan)`; 0 is NULL.
unfoldable pub check_channel : ℕ → ℕ → Net → Option (Unit {0})
check_channel if_type h net = do c ← net.chan_arr if_type; check (not (h == 0) && (h == c.api_chan))

-- `esp_hosted_tx` with a length of 16 bits
unfoldable pub channel_tx : Bool → ℕ → Buffer → ℕ → Bool → Net → TxRet × Net
channel_tx queue_ok if_type b len zcopy net =
    let r = esp_hosted_tx queue_ok if_type 0 (some b) (len % 2 ^ 16) zcopy true net.spi in
    (tx_ret r.0, record net { spi = r.1 })

-- The copy of the packet behind the place for the header.
unfoldable pub copy_packet : Bool → ℕ → List ℕ → ℕ → Option Buffer → Net → Option (TxRet × Net)
copy_packet queue_ok if_type buffer len none net = none
copy_packet queue_ok if_type buffer len (some copy_buff) net = do
  src ← slice buffer 0 len
  bytes ← copy_to copy_buff.bytes header_size src
  some (channel_tx queue_ok if_type (record copy_buff { bytes = bytes }) len true net)

unfoldable pub network_tx : Bool → Allocator → ℕ → ℕ → List ℕ → ℕ → Net → Option (TxRet × Net)
network_tx queue_ok malloc if_type h buffer len net =
    check_channel if_type h net
    >> (mempool_alloc false malloc none max_spi_buffer_size true >>= λ r.
        copy_packet queue_ok if_type buffer len r.0 net)

-- `transport_drv_sta_tx`; a NULL buffer is `none`.
unfoldable pub transport_drv_sta_tx :
    Bool → Allocator → ℕ → Option (List ℕ) → ℕ → Net → Option (TxRet × Net)
transport_drv_sta_tx queue_ok malloc h none len net = some (tx_ok, net)
transport_drv_sta_tx queue_ok malloc h (some buffer) len net =
    if len == 0
    then some (tx_ok, net)
    else if not (net.spi.wifi_tx_throttling == 0)
    then some (tx_throttled, net)
    else network_tx queue_ok malloc esp_sta_if h buffer len net

-- `transport_drv_ap_tx`, which does not look at the throttling.
unfoldable pub transport_drv_ap_tx :
    Bool → Allocator → ℕ → Option (List ℕ) → ℕ → Net → Option (TxRet × Net)
transport_drv_ap_tx queue_ok malloc h none len net = some (tx_ok, net)
transport_drv_ap_tx queue_ok malloc h (some buffer) len net =
    if len == 0 then some (tx_ok, net) else network_tx queue_ok malloc esp_ap_if h buffer len net

-- `transport_drv_serial_tx`
unfoldable pub transport_drv_serial_tx : Bool → ℕ → Buffer → ℕ → Net → Option (TxRet × Net)
transport_drv_serial_tx queue_ok h buffer len net =
    check_channel esp_serial_if h net
    >> some (channel_tx queue_ok esp_serial_if buffer len false net)
