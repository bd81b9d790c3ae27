-- ===== src/Serial/Tlv/RoundTrip.antt =====
-- What `compose_tlv` writes, and that `parse_tlv` reads it back.
use rt_thread_esp_hosted.Common.{
  ℕ, suc, ◌+◌, ◌/◌, ◌%◌, ◌^◌, ◌<◌, ◌≡◌, refl, ◌⊎◌, some, List, [], ◌∷◌, ◌++◌, arith, length,
  replicate, length-replicate, slice_all, copy_to_all, inl, inr, ap, ◌∙◌,
}
use rt_thread_esp_hosted.Serial.Tlv.{compose_tlv, parse_tlv, rpc_ep_name_rsp, rpc_ep_name_evt}

-- The 12 bytes in front of the data: type and length and name of the endpoint, type and length of
-- the data.
abbrev pub tlv_prefix : List ℕ → ℕ → List ℕ
tlv_prefix name n = 1 ∷ 6 ∷ 0 ∷ (name ++ (2 ∷ n % 256 ∷ (n / 256 % 256) ∷ []))

abbrev pub tlv_frame : List ℕ → List ℕ → List ℕ
tlv_frame name bytes = tlv_prefix name (length bytes) ++ bytes

test_compose :
    compose_tlv (replicate 14 0) (7 ∷ 9 ∷ []) 2 ≡ some (tlv_frame rpc_ep_name_rsp (7 ∷ 9 ∷ []), 14)
unfolding compose_tlv
test_compose = refl

twelve_suc :
    (n : ℕ) → 12 + n ≡ suc (suc (suc (suc (suc (suc (suc (suc (suc (suc (suc (suc n)))))))))))
twelve_suc n = omega arith

compose_tlv-cons :
    (a b c d e f g h i j k l : ℕ) (rest bytes : List ℕ)
    → length rest ≡ length bytes
    → compose_tlv (a ∷ b ∷ c ∷ d ∷ e ∷ f ∷ g ∷ h ∷ i ∷ j ∷ k ∷ l ∷ rest) bytes (length bytes)
      ≡ some (tlv_frame rpc_ep_name_rsp bytes, (12 + length bytes) % 2 ^ 16)
unfolding compose_tlv
compose_tlv-cons a b c d e f g h i j k l rest bytes hl =
    rw (slice_all bytes (length bytes) refl, copy_to_all rest bytes hl)

-- If 12 bytes and the data have a length of 16 bits, `compose_tlv` on a zeroed buffer of that
-- length writes the frame and returns the length, without a write past the end.
pub compose_tlv_lem :
    (bytes : List ℕ)
    → 12 + length bytes < 2 ^ 16
    → compose_tlv (replicate (12 + length bytes) 0) bytes (length bytes)
      ≡ some (tlv_frame rpc_ep_name_rsp bytes, 12 + length bytes)
compose_tlv_lem bytes h = rw (twelve (length bytes)) (
    compose_tlv-cons 0 0 0 0 0 0 0 0 0 0 0 0 (replicate (length bytes) 0) bytes
      (length-replicate (length bytes) 0)
    ∙ ap (λ k. some (tlv_frame rpc_ep_name_rsp bytes, k)) (omega arith))
  where
    twelve :
        (n : ℕ)
        → replicate {A = ℕ} (12 + n) 0
          ≡ 0 ∷ 0 ∷ 0 ∷ 0 ∷ 0 ∷ 0 ∷ 0 ∷ 0 ∷ 0 ∷ 0 ∷ 0 ∷ 0 ∷ replicate n 0
    twelve n = rw (twelve_suc n)

-- From the 12 bytes of either endpoint's prefix with a data length of 16 bits, whatever follows,
-- `parse_tlv` reads that data length.
pub parse_tlv-prefix :
    (name rest : List ℕ) (n : ℕ)
    → (name ≡ rpc_ep_name_rsp) ⊎ (name ≡ rpc_ep_name_evt)
    → n < 2 ^ 16
    → parse_tlv (tlv_prefix name n ++ rest) ≡ some (some n)
unfolding parse_tlv
parse_tlv-prefix name rest n (inl e) h = rw e (ap (λ k. some (some k)) (omega arith))
parse_tlv-prefix name rest n (inr e) h = rw e (ap (λ k. some (some k)) (omega arith))
