-- ===== src/Transport/RxTask/Ownership.antt =====
-- The buffer of a packet that `spi_process_rx_task` of
-- esp-hosted/host/drivers/transport/spi/spi_drv.c takes.
pub mod Serial
pub mod Priv
pub mod Once
use rt_thread_esp_hosted.Common.{
  ℕ, suc, ◌≡◌, ◌≢◌, refl, sym, ap, ◌∙◌, Bool, true, false, Option, none, some, ◌∷◌, Buffer, Heap,
  frees, ne→==, ==_refl, ◌==◌, if◌then◌else◌,
}
use rt_thread_esp_hosted.Adapter.{BufHandle}
use rt_thread_esp_hosted.Spi.{free_handle}

-- The packet's buffer is `block`, and nobody else keeps it.
pub record IsOwned (block : ℕ) (h : BufHandle) : Type 0 where
  pub handle : h.priv_buffer_handle ≡ some block
  pub with_func : h.free_buf_handle ≡ true
  pub no_zcopy : h.payload_zcopy ≡ false

-- After the free at the end of the round, `block` has been freed once more than `n` times.
unfoldable pub Settled : ℕ → ℕ → BufHandle → Heap → Type 0
Settled block n h heap = (frees block (free_handle h heap).1 ≡ suc n) × (h.payload_zcopy ≡ false)

pub frees_other :
    (block x : ℕ) (heap : Heap) → x ≢ block → frees block (x ∷ heap) ≡ frees block heap
frees_other block x heap ne = rw (ne→== block x (λ (e : block ≡ x). ne (sym e)))

pub frees_same : (block : ℕ) (heap : Heap) → frees block (block ∷ heap) ≡ suc (frees block heap)
frees_same block heap = rw (==_refl block)

pub free_owned :
    (block : ℕ) (h : BufHandle) (heap : Heap)
    → IsOwned block h
    → free_handle h heap ≡ (record h { priv_buffer_handle = none }, block ∷ heap)
unfolding free_handle
free_owned block h heap o = simp (o.with_func, o.handle)

-- The handle is as it was, and the block has not been freed.
pub kept-Settled :
    (block n : ℕ) (h : BufHandle) (heap : Heap)
    → IsOwned block h
    → frees block heap ≡ n
    → Settled block n h heap
unfolding Settled
kept-Settled block n h heap o e = (
  ap (λ r. frees block r.1) (free_owned block h heap o) ∙ frees_same block heap ∙ ap suc e,
  o.no_zcopy,
)

-- The block has been freed, and the handle cleared.
pub freed-Settled :
    (block n : ℕ) (h : BufHandle) (heap : Heap)
    → IsOwned block h
    → frees block heap ≡ suc n
    → Settled block n (record h { priv_buffer_handle = none }) heap
unfolding Settled free_handle
freed-Settled block n h heap o e = (rw o.with_func e, o.no_zcopy)
