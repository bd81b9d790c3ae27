-- ===== src/Spi/Frame.antt =====
-- The frame that `get_next_tx_buffer` builds, and that `process_spi_rx_buf` reads it back.
use rt_thread_esp_hosted.Common.{
  ℕ, zero, suc, ◌+◌, ◌*◌, ◌/◌, ◌%◌, ◌^◌, ◌≤◌, ◌<◌, ◌≡◌, refl, ◌∙◌, ap, ◌≢◌, false, some, List, [],
  ◌∷◌, ◌++◌, arith, length, take, drop, slice, slice_lem, copy_to, copy_to_lem, Runs, length-take,
  length-append, ne→==, le→ltb,
}
use rt_thread_esp_hosted.Adapter.{BufHandle, esp_hci_if}
use rt_thread_esp_hosted.Adapter.Header.{
  checksum_loop, compute_checksum, store16, store_if_type, store_if_num,
}
use rt_thread_esp_hosted.Spi.{form_frame, form_header, form_payload}

-- The header of a frame, with its checksum.
abbrev pub header : BufHandle → ℕ → ℕ → List ℕ
header h len checksum =
    (h.if_num % 16 * 16 + h.if_type % 16)
    ∷ 0
    ∷ len % 256
    ∷ (len / 256 % 256)
    ∷ 12
    ∷ 0
    ∷ checksum % 256
    ∷ (checksum / 256 % 256)
    ∷ 0
    ∷ 0
    ∷ 0
    ∷ 0
    ∷ []

checksum_loop-Runs : (buf : List ℕ) (n acc : ℕ) → n ≤ length buf → Runs (checksum_loop buf n acc)
unfolding checksum_loop
checksum_loop-Runs buf zero acc h = (acc, refl)
checksum_loop-Runs [] (suc n) acc h = absurd (omega arith)
checksum_loop-Runs (x ∷ buf) (suc n) acc h =
    checksum_loop-Runs buf n ((acc + x) % 2 ^ 16) (omega arith)

pub form_header-zeros :
    (h : BufHandle) (len : ℕ) (rest : List ℕ)
    → form_header h len (0 ∷ 0 ∷ 0 ∷ 0 ∷ 0 ∷ 0 ∷ 0 ∷ 0 ∷ 0 ∷ 0 ∷ 0 ∷ 0 ∷ rest)
      ≡ some (header h len 0 ++ rest)
unfolding form_header store16 store_if_type store_if_num
form_header-zeros h len rest =
    ap (λ k. some (k ∷ 0 ∷ len % 256 ∷ (len / 256 % 256) ∷ 12 ∷ 0 ∷ 0 ∷ 0 ∷ 0 ∷ 0 ∷ 0 ∷ 0 ∷ rest))
      (omega arith)

checksum_loop-lt :
    (buf : List ℕ) (n acc : ℕ) {c : ℕ}
    → acc < 2 ^ 16
    → checksum_loop buf n acc ≡ some c
    → c < 2 ^ 16
unfolding checksum_loop
checksum_loop-lt buf zero acc h e = ground arith
checksum_loop-lt [] (suc n) acc h e = cc
checksum_loop-lt (x ∷ buf) (suc n) acc h e =
    checksum_loop-lt buf n ((acc + x) % 2 ^ 16) (omega arith) e

pub compute_checksum-some :
    (buf : List ℕ) (n : ℕ)
    → n ≤ length buf
    → (c : ℕ) × (compute_checksum buf n ≡ some c) × (c < 2 ^ 16)
unfolding compute_checksum
compute_checksum-some buf n h =
    let (c, e) = checksum_loop-Runs buf n 0 h in (c, e, checksum_loop-lt buf n 0 (omega arith) e)

-- What follows the header: the payload, then what is left of the zeroed buffer.
abbrev pub body : List ℕ → ℕ → List ℕ → List ℕ
body payload len rest = take len payload ++ drop len rest

form_payload_lem :
    (h : BufHandle) (len : ℕ) (rest : List ℕ)
    → h.payload_zcopy ≡ false
    → h.if_type % 16 ≢ esp_hci_if
    → len ≤ 1588
    → len ≤ length h.payload
    → len ≤ length rest
    → form_payload h len (header h len 0 ++ rest)
      ≡ some (header h len 0 ++ body h.payload len rest, len)
unfolding form_payload
form_payload_lem h len rest z ne small long room =
    let l : length (take len h.payload) ≡ len = length-take len h.payload long in
    let src : slice h.payload 0 len ≡ some (take len h.payload) =
      slice_lem h.payload 0 len (omega arith) in
    let dst : copy_to rest 0 (take len h.payload) ≡ some (body h.payload len rest) =
      copy_to_lem rest 0 (take len h.payload) (omega arith)
      ∙ ap (λ k. some (take len h.payload ++ drop k rest)) (omega arith) in
    rw (z, ne→== (h.if_type % 16) 4 ne, le→ltb 1588 len small, src, dst)

-- The frame of a packet that is copied: header, payload, and the checksum of both, which has 16
-- bits.
pub form_frame_lem :
    (h : BufHandle) (len : ℕ) (rest : List ℕ)
    → h.payload_zcopy ≡ false
    → h.if_type % 16 ≢ esp_hci_if
    → len ≤ 1588
    → len ≤ length h.payload
    → len ≤ length rest
    → (c : ℕ) × (form_frame h len (0 ∷ 0 ∷ 0 ∷ 0 ∷ 0 ∷ 0 ∷ 0 ∷ 0 ∷ 0 ∷ 0 ∷ 0 ∷ 0 ∷ rest)
        ≡ some (header h len c ++ body h.payload len rest, len))
      × (compute_checksum (header h len 0 ++ body h.payload len rest) (12 + len) ≡ some c)
      × (c < 2 ^ 16)
unfolding form_frame store16
form_frame_lem h len rest z ne small long room =
    let w = header h len 0 ++ body h.payload len rest in
    let (c, e, lt) = compute_checksum-some w (12 + len) (
      omega (
        arith,
        length-append (take len h.payload) (drop len rest),
        length-take len h.payload long,
      )) in
    let whole : (12 + len) % 2 ^ 16 ≡ 12 + len = omega arith in
    (
      c,
      rw (form_header-zeros h len rest, form_payload_lem h len rest z ne small long room, whole, e),
      e,
      lt,
    )
