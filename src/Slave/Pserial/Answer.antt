-- ===== src/Slave/Pserial/Answer.antt =====
-- The slave's `rpc_req_handler` of esp-hosted/slave/main/protocomm_pserial.c reads what the
-- host's `compose_tlv` wrote, and answers in the envelope that the host reads.
use rt_thread_esp_hosted.Common.{
  ℕ, suc, ◌+◌, ◌-◌, ◌*◌, ◌/◌, ◌%◌, ◌^◌, ◌<◌, ◌≡◌, refl, ◌≢◌, ap, ◌∙◌, Bool, true, false,
  if◌then◌else◌, ◌>>=◌, Option, none, some, List, ◌∷◌, ◌++◌, arith, length, drop, replicate,
  length-replicate, slice_all, slice_front, copy_to_all, ne→==,
}
use rt_thread_esp_hosted.Adapter.Header.{load16}
use rt_thread_esp_hosted.Serial.Tlv.{rpc_ep_name_rsp, put_byte}
use rt_thread_esp_hosted.Serial.Tlv.RoundTrip.{tlv_frame}
use rt_thread_esp_hosted.Slave.Pserial.{
  parse_tlv, take_tlv, parse_loop, write_tlv, compose_tlv, Services, Reply, send_answer, answer,
  handle_parsed, rpc_req_handler,
}

name_tlv :
    (rest : List ℕ) (n : ℕ)
    → n < 2 ^ 16
    → parse_tlv (1 ∷ 6 ∷ 0 ∷ rest) (12 + n)
      ≡ some (some (record { kind = 1; len = 6; ptr = rest; buf = drop 6 rest; total_len = 3 + n }))
unfolding parse_tlv load16
name_tlv rest n h =
    let left : (12 + n + 4294967296 - 9) % 4294967296 ≡ 3 + n = omega arith in
    rw (ne→== (12 + n) 0 (λ (e : 12 + n ≡ 0). absurd (omega arith)), left)

data_tlv :
    (bytes : List ℕ) (n : ℕ)
    → n < 2 ^ 16
    → (buf : List ℕ) × (parse_tlv (2 ∷ n % 256 ∷ (n / 256 % 256) ∷ bytes) (3 + n)
        ≡ some (some (record { kind = 2; len = n; ptr = bytes; buf = buf; total_len = 0 })))
unfolding parse_tlv load16
data_tlv bytes n h =
    let len : n % 256 + n / 256 % 256 * 256 ≡ n = omega arith in
    let left : (3 + n + 4294967296 - (n + 3)) % 4294967296 ≡ 0 = omega arith in
    (
      drop (3 + n) (2 ∷ n % 256 ∷ (n / 256 % 256) ∷ bytes),
      rw (ne→== (3 + n) 0 (λ (e : 3 + n ≡ 0). absurd (omega arith)), len, left),
    )

zeros :
    (n : ℕ)
    → replicate {A = ℕ} (12 + n) 0 ≡ 0 ∷ 0 ∷ 0 ∷ 0 ∷ 0 ∷ 0 ∷ 0 ∷ 0 ∷ 0 ∷ 0 ∷ 0 ∷ 0 ∷ replicate n 0
zeros n = ap (λ k. replicate {A = ℕ} k 0) (twelve_suc n)
  where
    twelve_suc :
        (n : ℕ) → 12 + n ≡ suc (suc (suc (suc (suc (suc (suc (suc (suc (suc (suc (suc n)))))))))))
    twelve_suc n = omega arith

write_tlv_lem :
    (out : List ℕ)
    → write_tlv rpc_ep_name_rsp out (length out)
      ≡ some (tlv_frame rpc_ep_name_rsp out, 12 + length out)
unfolding write_tlv put_byte
write_tlv_lem out = rw (
  zeros (length out),
  slice_all out (length out) refl,
  copy_to_all (replicate (length out) 0) out (length-replicate {A = ℕ} (length out) 0),
)

end_tlv : (b : List ℕ) → parse_tlv b 0 ≡ some none
unfolding parse_tlv
end_tlv b = refl

compose_lem :
    (alloc : Bool) (out : List ℕ)
    → compose_tlv alloc rpc_ep_name_rsp out (length out)
      ≡ some (if alloc then some (tlv_frame rpc_ep_name_rsp out, 12 + length out) else none)
unfolding compose_tlv
compose_lem true out = rw (write_tlv_lem out)
compose_lem false out = refl

-- The reply for what the protocol answers: the answer in the envelope is transmitted if there is
-- memory for the envelope, and the result is that of the transmission.
abbrev pub reply : Services → Option (List ℕ) → Reply
reply env none = (false, none)
reply env (some out) =
    if env.calloc (12 + length out)
    then (env.xmit (tlv_frame rpc_ep_name_rsp out), some (tlv_frame rpc_ep_name_rsp out))
    else (false, none)

answer_lem : (env : Services) (o : Option (List ℕ)) → answer env o ≡ some (reply env o)
unfolding answer
answer_lem env none = refl
answer_lem env (some out) =
    ap (λ m. m >>= λ r. some (send_answer env r)) (compose_lem (env.calloc (12 + length out)) out)
    ∙ go (env.calloc (12 + length out))
  where
    go :
        (b : Bool)
        → some (
            send_answer env
              (if b then some (tlv_frame rpc_ep_name_rsp out, 12 + length out) else none))
          ≡ some (
              if b
              then (env.xmit (tlv_frame rpc_ep_name_rsp out), some (tlv_frame rpc_ep_name_rsp out))
              else (false, none))
    go true = refl
    go false = refl

-- A request with data of a length of 16 bits that is not 0, in the envelope of the host's
-- `compose_tlv`: the slave passes the endpoint's name and exactly the data to the protocol. If the
-- protocol fails, or `calloc` gives no block for the envelope, nothing is transmitted and the
-- result is ESP_FAIL; otherwise the answer is transmitted in the same kind of envelope, once, and
-- the result is ESP_OK if and only if `xmit` returns it.
pub rpc_req_handler_lem :
    (env : Services) (bytes : List ℕ)
    → length bytes ≢ 0
    → length bytes < 2 ^ 16
    → rpc_req_handler env (tlv_frame rpc_ep_name_rsp bytes) (12 + length bytes)
      ≡ some (elim (env.req_handle rpc_ep_name_rsp bytes) [
        | none ↦ (false, none)
        | some out ↦
            if env.calloc (12 + length out)
            then (env.xmit (tlv_frame rpc_ep_name_rsp out), some (tlv_frame rpc_ep_name_rsp out))
            else (false, none)
      ])
unfolding rpc_req_handler parse_loop take_tlv handle_parsed
rpc_req_handler_lem env bytes nz h =
    let (buf, second) = data_tlv bytes (length bytes) h in
    let tail : List ℕ = 2 ∷ length bytes % 256 ∷ (length bytes / 256 % 256) ∷ bytes in
    rw
      (
        name_tlv (rpc_ep_name_rsp ++ tail) (length bytes) h,
        slice_front rpc_ep_name_rsp tail 6 refl,
        second,
        end_tlv buf,
        ne→== (length bytes) 0 nz,
        slice_all bytes (length bytes) refl,
      )
      (answer_lem env (env.req_handle rpc_ep_name_rsp bytes))
