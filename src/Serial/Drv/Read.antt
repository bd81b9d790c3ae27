-- ===== src/Serial/Drv/Read.antt =====
-- `serial_drv_read`: it never reads outside the buffer that it got, frees it once on every path,
-- and gives back the data of a well-formed frame.
use rt_thread_esp_hosted.Common.{
  ℕ, suc, ◌+◌, ◌-◌, ◌^◌, ◌≤◌, ◌<◌, ◌≡◌, refl, sym, ap, ◌⊎◌, inl, inr, ◌≢◌, true, Option, none, some,
  List, [], ◌∷◌, arith, length, take, Buffer, Heap, frees, slice, slice_lem, slice_front,
  slice_back, slice-Runs, Ensures, bind-Ensures, if-Ensures, ltb, ◌==◌, ==_refl, le→ltb, ne→==,
  length-take, ◌||◌,
}
use mathlib.Core.List.{append-nil}
use mathlib.Core.Path.{subst}
use rt_thread_esp_hosted.Serial.Tlv.Safe.{parse_tlv-Runs}
use rt_thread_esp_hosted.Serial.Tlv.{parse_tlv, rpc_ep_name_rsp, rpc_ep_name_evt}
use rt_thread_esp_hosted.Serial.Tlv.RoundTrip.{tlv_prefix, tlv_frame, parse_tlv-prefix}
use rt_thread_esp_hosted.Serial.Drv.{
  SerialDrv, LlOps, serial_drv_read, read_frame, read_parsed, read_value, h_free,
}

module _ {S : Type 0} (heap : Heap) (rb : Buffer) where
  -- `rb` has been freed once more than in `heap`.
  abbrev pub Freed : Option Buffer × ℕ × SerialDrv S → Type 0
  Freed r = frees rb.ident r.2.heap ≡ suc (frees rb.ident heap)

  freed_here :
      (d : SerialDrv S)
      → frees rb.ident d.heap ≡ frees rb.ident heap
      → frees rb.ident (rb.ident ∷ d.heap) ≡ suc (frees rb.ident heap)
  freed_here d h = rw (==_refl rb.ident) (ap suc h)

  read_value-Ensures :
      (n buf_len : ℕ) (second : Option ℕ) (d : SerialDrv S)
      → 12 + buf_len ≤ length rb.bytes
      → frees rb.ident d.heap ≡ frees rb.ident heap
      → Ensures Freed (read_value rb n buf_len second d)
  unfolding read_value
  read_value-Ensures n buf_len none d h e = (_, refl, freed_here d e)
  read_value-Ensures n buf_len (some block) d h e =
      bind-Ensures Freed (slice rb.bytes 12 buf_len) _ (slice-Runs rb.bytes 12 buf_len h)
        λ v. (_, refl, freed_here d e)

  read_parsed-Ensures :
      (parsed : Option ℕ) (n block : ℕ) (second : Option ℕ) (d : SerialDrv S)
      → n ≤ length rb.bytes
      → frees rb.ident (block ∷ d.heap) ≡ frees rb.ident heap
      → Ensures Freed (read_parsed parsed rb n block second d)
  unfolding read_parsed
  read_parsed-Ensures none n block second d h e = (_, refl, freed_here (h_free block d) e)
  read_parsed-Ensures (some k) n block second d h e =
      if-Ensures Freed (k == 0 || ltb n (12 + k)) _ _
        (λ _. (_, refl, freed_here (h_free block d) e))
        λ t. read_value-Ensures n k second (h_free block d) (ground arith) e

  read_frame-Ensures :
      (n : ℕ) (first second : Option ℕ) (d : SerialDrv S)
      → n ≤ length rb.bytes
      → first ≢ some rb.ident
      → frees rb.ident d.heap ≡ frees rb.ident heap
      → Ensures Freed (read_frame rb n first second d)
  unfolding read_frame
  read_frame-Ensures n none second d h f e =
      if-Ensures Freed (ltb n 12) _ _ (λ _. (_, refl, freed_here d e))
        (λ _. (_, refl, freed_here d e))
  read_frame-Ensures n (some block) second d h f e =
      if-Ensures Freed (ltb n 12) _ _ (λ _. (_, refl, freed_here d e))
        λ t.
          let long : 12 ≤ length rb.bytes = ground arith in
          rw (slice_lem rb.bytes 0 12 long) (
            bind-Ensures Freed _ _
              (parse_tlv-Runs (take 12 rb.bytes) (omega (arith, length-take 12 rb.bytes long)))
              λ parsed.
                read_parsed-Ensures parsed n block second d h
                  (rw (ne→== rb.ident block (λ q. f (ap some (sym q)))) e))

-- Whatever bytes arrive: if the driver is up, the interface hands over a buffer with a length
-- that is not 0 and not more than it holds, and the first allocation, if it succeeds, gives a
-- block that is not that buffer, `serial_drv_read` runs without an access outside the buffer, and
-- has freed it exactly once when it returns.
pub serial_drv_read_safe :
    {S : Type 0} (d : SerialDrv S) (fops : LlOps S) (rb : Buffer) (n units out : ℕ)
    (first second : Option ℕ) (low : S) (heap : Heap)
    → d.serial_ll_if ≡ some fops
    → d.read_semaphore ≡ some units
    → fops.read d.low d.heap ≡ some (some rb, n, low, heap)
    → n ≢ 0
    → n ≤ length rb.bytes
    → first ≢ some rb.ident
    → (r : Option Buffer × ℕ × SerialDrv S) × (serial_drv_read true out first second d ≡ some r)
      × (frees rb.ident r.2.heap ≡ frees rb.ident heap + 1)
unfolding serial_drv_read
serial_drv_read_safe d fops rb n units out first second low heap l s e nz h f =
    rw (s, l, e, ne→== n 0 nz)
      (let r =
          read_frame-Ensures heap rb n first second
            (record d { read_semaphore = some (units - 1); low = low; heap = heap }) h f refl in
        (r.0, r.1, omega (arith, r.2)))

pub length-tlv_prefix :
    (name : List ℕ) (n : ℕ)
    → (name ≡ rpc_ep_name_rsp) ⊎ (name ≡ rpc_ep_name_evt)
    → length (tlv_prefix name n) ≡ 12
length-tlv_prefix name n (inl e) = rw e
length-tlv_prefix name n (inr e) = rw e

-- If the driver is up, the interface hands over a frame of either endpoint with data of a length
-- of 16 bits, and both allocations succeed, then `serial_drv_read` returns the bytes behind the
-- prefix in a block of their own, sets `*out_nbyte` to their number, and has freed the copy of
-- the prefix and then the frame.
pub serial_drv_read-frame :
    {S : Type 0} (d : SerialDrv S) (fops : LlOps S) (rb : Buffer) (name bytes : List ℕ)
    (units out b1 b2 : ℕ) (low : S) (heap : Heap)
    → (name ≡ rpc_ep_name_rsp) ⊎ (name ≡ rpc_ep_name_evt)
    → d.serial_ll_if ≡ some fops
    → d.read_semaphore ≡ some units
    → fops.read d.low d.heap ≡ some (some rb, 12 + length bytes, low, heap)
    → rb.bytes ≡ tlv_frame name bytes
    → length bytes ≢ 0
    → length bytes < 2 ^ 16
    → serial_drv_read true out (some b1) (some b2) d
      ≡ some (
        some (record { ident = b2; bytes = bytes }),
        length bytes,
        record d { read_semaphore = some (units - 1); low = low; heap = rb.ident ∷ b1 ∷ heap },
      )
unfolding serial_drv_read
serial_drv_read-frame d fops rb name bytes units out b1 b2 low heap nm l s e w nz h =
    let n = length bytes in
    let lp = length-tlv_prefix name n nm in
    let prefix : slice rb.bytes 0 12 ≡ some (tlv_prefix name n) =
      rw w (slice_front (tlv_prefix name n) bytes 12 (sym lp)) in
    let value : slice rb.bytes 12 n ≡ some bytes =
      rw w (slice_back (tlv_prefix name n) bytes 12 n (sym lp) refl) in
    let parsed : parse_tlv (tlv_prefix name n) ≡ some (some n) =
      subst (λ k. parse_tlv k ≡ some (some n)) (append-nil _) (parse_tlv-prefix name [] n nm h) in
    rw (
      s,
      l,
      e,
      ne→== (12 + n) 0 (λ (q : 12 + n ≡ 0). absurd (omega arith)),
      le→ltb (12 + n) 12 (omega arith),
      prefix,
      parsed,
      ne→== n 0 nz,
      le→ltb (12 + n) (12 + n) (omega arith),
      value,
      l,
    )
