-- ===== src/Transport/Channel/Network.antt =====
-- A network packet on its way out: `transport_drv_sta_tx` and `transport_drv_ap_tx` of
-- esp-hosted/host/drivers/transport/transport_drv.c, the SPI driver's `get_next_tx_buffer`, which
-- sends the prepared buffer itself, and the receiver's check.
use mathlib.Core.Path.{subst}
use rt_thread_esp_hosted.Common.{
  ℕ, suc, ◌+◌, ◌-◌, ◌%◌, ◌^◌, ◌≤◌, ◌<◌, ◌≡◌, ◌≢◌, refl, sym, ◌∙◌, true, false, Option, none, some,
  List, ◌∷◌, ◌++◌, arith, length, take, drop, replicate, length-replicate, length-append,
  length-take, slice, slice_lem, copy_to, copy_to_lem, leb, ◌==◌, ne→==, le→ltb, if_false, not,
  Buffer,
}
use rt_thread_esp_hosted.Adapter.{BufHandle, esp_sta_if, esp_hci_if}
use rt_thread_esp_hosted.Adapter.Header.{compute_checksum, store16}
use rt_thread_esp_hosted.Port.{Allocator}
use rt_thread_esp_hosted.Mempool.{mempool_alloc, mempool_aligned, clear}
use rt_thread_esp_hosted.Spi.{
  Spi, Queues, free_handle_func, get_next_tx_buffer, send_handle, send_zcopy, form_frame,
  form_payload, dequeue, enqueue, tx_handle, esp_hosted_tx, max_spi_buffer_size,
}
use rt_thread_esp_hosted.Spi.Frame.{header, form_header-zeros, compute_checksum-some}
use rt_thread_esp_hosted.Spi.Rx.{rx_ok, process_spi_rx_buf}
use rt_thread_esp_hosted.Spi.RoundTrip.{received, after_rx, rx-header}
use rt_thread_esp_hosted.Transport.Channel.{
  Net, TxRet, tx_ok, tx_ret, check_channel, channel_tx, copy_packet, network_tx,
  transport_drv_sta_tx,
}

-- A block that begins with the zeroed place for a header.
abbrev behind_header : List ℕ → List ℕ
behind_header rest = 0 ∷ 0 ∷ 0 ∷ 0 ∷ 0 ∷ 0 ∷ 0 ∷ 0 ∷ 0 ∷ 0 ∷ 0 ∷ 0 ∷ rest

copy_behind :
    (n : ℕ) (more src : List ℕ)
    → length src ≤ n
    → copy_to
        (replicate (suc (suc (suc (suc (suc (suc (suc (suc (suc (suc (suc (suc n)))))))))))) 0
          ++ more)
        12
        src
      ≡ some (behind_header (src ++ drop (0 + length src) (replicate n 0 ++ more)))
copy_behind n more src h = rw (
    copy_to_lem (replicate n 0 ++ more) 0 src
      (omega (arith, length-append (replicate {A = ℕ} n 0) more, length-replicate {A = ℕ} n 0)))

-- The frame of a packet that is sent in its own buffer.
zcopy_frame :
    (h : BufHandle) (len : ℕ) (rest : List ℕ)
    → h.payload_zcopy ≡ true
    → h.if_type % 16 ≢ esp_hci_if
    → len ≤ 1588
    → len ≤ length rest
    → (c : ℕ) × (form_frame h len (behind_header rest) ≡ some (header h len c ++ rest, len))
      × (compute_checksum (header h len 0 ++ rest) (12 + len) ≡ some c)
      × (c < 2 ^ 16)
unfolding form_frame form_payload store16
zcopy_frame h len rest z ne small room =
    let (c, e, lt) = compute_checksum-some (header h len 0 ++ rest) (12 + len) (omega arith) in
    let whole : (12 + len) % 2 ^ 16 ≡ 12 + len = omega arith in
    (c, rw (form_header-zeros h len rest, z, whole, e), e, lt)

pub alloc_packet :
    (malloc : Allocator) (b : Buffer)
    → malloc 1664 ≡ some b
    → 1600 ≤ length b.bytes
    → mempool_alloc false malloc none max_spi_buffer_size true
      ≡ some (
        some (record {
          ident = b.ident;
          bytes = replicate 1600 0 ++ drop (0 + length {A = ℕ} (replicate 1600 0)) b.bytes;
        }),
        none,
      )
unfolding mempool_alloc mempool_aligned clear
alloc_packet malloc b e h =
    let r : length {A = ℕ} (replicate 1600 0) ≡ 1600 = length-replicate {A = ℕ} 1600 0 in
    rw (e, copy_to_lem b.bytes 0 (replicate 1600 0) (omega (arith, r)))

-- Where the channel is open, the transport may send and the queue has room.
abbrev pub IsOpen : ℕ → ℕ → Net → Type 0
IsOpen if_type h net =
    (check_channel if_type h net ≡ some tt) × (leb 2 net.spi.transport_state ≡ true)

-- What follows the header in the packet's block: the packet, then zeros and what malloc left.
abbrev behind : List ℕ → List ℕ → List ℕ
behind src more = src ++ drop (0 + length src) (replicate 1588 0 ++ more)

network_tx_lem :
    (malloc : Allocator) (b : Buffer) (if_type h len : ℕ) (buffer : List ℕ) (net : Net)
    → malloc 1664 ≡ some b
    → 1600 ≤ length b.bytes
    → IsOpen if_type h net
    → len ≢ 0
    → len ≤ 1588
    → len ≤ length buffer
    → (more : List ℕ) × (network_tx true malloc if_type h buffer len net
        ≡ some (
          tx_ok,
          record net {
            spi = record net.spi {
              to_slave_queue =
                  enqueue
                    (tx_handle if_type 0
                      (record {
                        ident = b.ident;
                        bytes = behind_header (behind (take len buffer) more);
                      })
                      len
                      true
                      true)
                    net.spi.to_slave_queue;
              sem_to_slave_queue = net.spi.sem_to_slave_queue + 1;
              spi_trans_ready_sem = net.spi.spi_trans_ready_sem + 1;
            };
          },
        ))
unfolding network_tx copy_packet channel_tx tx_ret esp_hosted_tx
network_tx_lem malloc b if_type h len buffer net e room op nz small long =
    let more = drop (0 + length {A = ℕ} (replicate 1600 0)) b.bytes in
    let l : length (take len buffer) ≡ len = length-take len buffer long in
    let src : slice buffer 0 len ≡ some (take len buffer) = slice_lem buffer 0 len (omega arith) in
    let w : len % 2 ^ 16 ≡ len = omega arith in
    (
      more,
      rw
          (
            op.0,
            alloc_packet malloc b e room,
            src,
            copy_behind 1588 more (take len buffer) (omega arith),
            w,
            ne→== len 0 nz,
            le→ltb 1588 len small,
            op.1,
          )
          refl,
    )

-- The packet's way to the receiver: the handle `w` is queued; once it is at the head of the
-- queues its block is sent as `frame`, and any receiver accepts that frame with the packet.
abbrev pub Travels : Allocator → Buffer → ℕ → List ℕ → ℕ → Net → Option (TxRet × Net) → Type 0
Travels malloc b if_type buffer len net sent =
    (w : BufHandle) × (frame padding : List ℕ) × (sent
      ≡ some (
        tx_ok,
        record net {
          spi = record net.spi {
            to_slave_queue = enqueue w net.spi.to_slave_queue;
            sem_to_slave_queue = net.spi.sem_to_slave_queue + 1;
            spi_trans_ready_sem = net.spi.spi_trans_ready_sem + 1;
          };
        },
      ))
    × (w.if_type ≡ if_type)
    × ((s : Spi) (q : Queues) (block : Option ℕ)
        → s.sem_to_slave_queue ≢ 0
        → dequeue s.to_slave_queue ≡ some (w, q)
        → get_next_tx_buffer block s
          ≡ some (
            some (record { ident = b.ident; bytes = frame }),
            true,
            free_handle_func,
            record s { sem_to_slave_queue = s.sem_to_slave_queue - 1; to_slave_queue = q },
          ))
    × ((r : Spi) (rxb : ℕ)
        → process_spi_rx_buf true (some (record { ident = rxb; bytes = frame })) r
          ≡ some (rx_ok, after_rx r (received w rxb (take len buffer ++ padding))))

network_tx-Travels :
    (malloc : Allocator) (b : Buffer) (if_type h len : ℕ) (buffer : List ℕ) (net : Net)
    → malloc 1664 ≡ some b
    → 1600 ≤ length b.bytes
    → IsOpen if_type h net
    → if_type < 8
    → if_type ≢ esp_hci_if
    → len ≢ 0
    → len ≤ 1588
    → len ≤ length buffer
    → Travels malloc b if_type buffer len net (network_tx true malloc if_type h buffer len net)
unfolding get_next_tx_buffer send_handle send_zcopy tx_handle
network_tx-Travels malloc b if_type h len buffer net e room op ty hci nz small long =
    let (more, sent) = network_tx_lem malloc b if_type h len buffer net e room op nz small long in
    let rest = behind (take len buffer) more in
    let l : length (take len buffer) ≡ len = length-take len buffer long in
    let n : len ≤ length rest = omega (
      arith,
      l,
      length-append (take len buffer)
          (drop (0 + length (take len buffer)) (replicate 1588 0 ++ more)),
    ) in
    let w =
      tx_handle if_type 0 (record { ident = b.ident; bytes = behind_header rest }) len true true in
    let (c, built, sum, lt) =
      zcopy_frame w len rest refl (λ (q : if_type % 16 ≡ 4). hci (omega arith)) small n in
    (
      w,
      header w len c ++ rest,
      drop (0 + length (take len buffer)) (replicate 1588 0 ++ more),
      sent,
      refl,
      (λ s q block sem deq. rw (ne→== s.sem_to_slave_queue 0 sem, deq, ne→== len 0 nz, built) refl),
      (λ r rxb.
          rx-header (record w { payload_zcopy = false }) c rxb rest r
            (refl, ty, hci, omega arith, nz, small, omega arith) sum lt),
    )

-- A channel of the station that is open and a driver that may send and has room, no throttling,
-- an allocator that gives a block of at least 1600 bytes, and a packet of 1 to 1588 bytes:
-- `transport_drv_sta_tx` returns ESP_OK and queues the packet in that block. Once its handle is
-- at the head of the send queues the block itself is sent, and the frame in it is accepted in any
-- receive buffer, with the packet's interface and length, and a payload that begins with the
-- packet's bytes.
pub sta_tx_lem :
    (malloc : Allocator) (b : Buffer) (h len : ℕ) (buffer : List ℕ) (net : Net)
    → malloc 1664 ≡ some b
    → 1600 ≤ length b.bytes
    → IsOpen esp_sta_if h net
    → net.spi.wifi_tx_throttling ≡ 0
    → len ≢ 0
    → len ≤ 1588
    → len ≤ length buffer
    → Travels malloc b esp_sta_if buffer len net
        (transport_drv_sta_tx true malloc h (some buffer) len net)
unfolding transport_drv_sta_tx
sta_tx_lem malloc b h len buffer net e room op free nz small long =
    subst (Travels malloc b esp_sta_if buffer len net)
      (sym (
        if_false _ _ (ne→== len 0 nz)
        ∙ if_false {b = not (net.spi.wifi_tx_throttling == 0)} _ _ (rw free refl)))
      (network_tx-Travels malloc b esp_sta_if h len buffer net e room op (omega arith)
        (λ (q : 1 ≡ 4). absurd (omega arith)) nz small long)
