-- ===== src/Slave/Pserial/Overrun.antt =====
-- A length field that says more than a request holds, in `rpc_req_handler` of
-- esp-hosted/slave/main/protocomm_pserial.c.
use rt_thread_esp_hosted.Common.{
  ℕ, ◌+◌, ◌-◌, ◌*◌, ◌%◌, ◌<◌, ◌≡◌, ◌≢◌, none, some, List, [], ◌∷◌, arith, length, drop_all, ne→==,
}
use rt_thread_esp_hosted.Adapter.Header.{load16}
use rt_thread_esp_hosted.Slave.Pserial.{parse_tlv, take_tlv, parse_loop, Services, rpc_req_handler}

long_tlv :
    (lo hi : ℕ) (rest : List ℕ)
    → lo < 256
    → hi < 256
    → length rest < lo + hi * 256
    → (left : ℕ) × (left ≢ 0)
      × (parse_tlv (2 ∷ lo ∷ hi ∷ rest) (3 + length rest)
          ≡ some (
              some
                (record { kind = 2; len = lo + hi * 256; ptr = rest; buf = []; total_len = left })))
unfolding parse_tlv load16
long_tlv lo hi rest l h long =
    let len = lo + hi * 256 in
    (
      (3 + length rest + 4294967296 - (len + 3)) % 4294967296,
      (λ e. absurd (omega (arith, e))),
      rw (
        ne→== (3 + length rest) 0 (λ (e : 3 + length rest ≡ 0). absurd (omega arith)),
        drop_all (2 ∷ lo ∷ hi ∷ rest) (3 + len) (omega arith),
      ),
    )

past_end : (left : ℕ) → left ≢ 0 → parse_tlv [] left ≡ none
unfolding parse_tlv
past_end left nz = rw (ne→== left 0 nz)

-- A request that begins with a data field whose length says more than the request holds: the
-- count of the bytes that are left wraps round below 0, and the loop goes on to read behind the
-- request.
pub overrun :
    (env : Services) (lo hi : ℕ) (rest : List ℕ)
    → lo < 256
    → hi < 256
    → length rest < lo + hi * 256
    → rpc_req_handler env (2 ∷ lo ∷ hi ∷ rest) (3 + length rest) ≡ none
unfolding rpc_req_handler parse_loop take_tlv
overrun env lo hi rest l h long =
    let (left, nz, e) = long_tlv lo hi rest l h long in rw (e, past_end left nz)
