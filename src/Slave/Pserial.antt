-- ===== src/Slave/Pserial.antt =====
-- The slave's RPC requests, esp-hosted/slave/main/protocomm_pserial.c: the TLV parser, the
-- envelope of the answer, and `rpc_req_handler`. `protocomm_req_handle` of ESP-IDF is a
-- parameter: its answer for an endpoint and its data. So are the answers of `calloc` and `xmit`. A `size_t` has 32 bits on these chips.
pub mod Answer
pub mod Overrun
pub mod Fuel
use rt_thread_esp_hosted.Common.{
  ℕ, zero, suc, ◌+◌, ◌-◌, ◌/◌, ◌%◌, ◌^◌, Bool, true, false, Option, none, some, List, [], ◌∷◌,
  if◌then◌else◌, ◌==◌, ◌||◌, leb, ◌>>=◌, load, slice, copy_to, replicate, length, drop,
}
use rt_thread_esp_hosted.Adapter.Header.{load16}
use rt_thread_esp_hosted.Serial.Tlv.{
  proto_pser_tlv_t_epname, proto_pser_tlv_t_data, rpc_ep_name_rsp, put_byte,
}

abbrev pub epname_max : ℕ
epname_max = 16

-- `*type`, `*len`, what `*ptr` points to, `*buf` and `*total_len` after a call that returns
-- ESP_OK.
pub record Tlv : Type 0 where
  pub kind : ℕ
  pub len : ℕ
  pub ptr : List ℕ
  pub buf : List ℕ
  pub total_len : ℕ

-- `parse_tlv`: the inner `none` is ESP_FAIL. A pointer is what it points to.
unfoldable pub parse_tlv : List ℕ → ℕ → Option (Option Tlv)
parse_tlv b total_len = if total_len == 0 then some none else (do
  kind ← load b 0
  len ← load16 b 1
  some (
      some (record {
        kind = kind;
        len = len;
        ptr = drop 3 b;
        buf = drop (3 + len) b;
        total_len = (total_len + 2 ^ 32 - (len + 3)) % 2 ^ 32;
      })))

-- The variables that the loop of `rpc_req_handler` sets.
pub record Parsed : Type 0 where
  pub epname : List ℕ
  pub tlv_data : Option (List ℕ)
  pub data_len : ℕ

-- The body of the loop; the inner `none` is the return of ESP_FAIL.
unfoldable pub take_tlv : Tlv → Parsed → Option (Option Parsed)
take_tlv t p =
    if t.kind == proto_pser_tlv_t_epname
    then if leb (epname_max - 1) t.len then some none else (do
      src ← slice t.ptr 0 t.len
      epname ← copy_to p.epname 0 src
      some (some (record p { epname = epname })))
    else if t.kind == proto_pser_tlv_t_data
    then some (some (record p { tlv_data = some t.ptr; data_len = t.len }))
    else some none

-- How a run of the loop ends: without fuel, or with the variables, in which `some none` is the
-- return of ESP_FAIL and `none` a fault.
pub data LoopEnd : Type 0 where
  out_of_fuel : LoopEnd
  ended : Option (Option Parsed) → LoopEnd

-- What a round of the loop goes on with, or the result.
abbrev pub next_round : (Tlv → Parsed → LoopEnd) → Tlv → Option (Option Parsed) → LoopEnd
next_round go_on t none = ended none
next_round go_on t (some none) = ended (some none)
next_round go_on t (some (some p)) = go_on t p

abbrev pub one_round : (Tlv → Parsed → LoopEnd) → Parsed → Option (Option Tlv) → LoopEnd
one_round go_on p none = ended none
one_round go_on p (some none) = ended (some (some p))
one_round go_on p (some (some t)) = next_round go_on t (take_tlv t p)

-- The loop, on fuel.
unfoldable pub parse_loop : ℕ → List ℕ → ℕ → Parsed → LoopEnd
parse_loop zero b total_len p = out_of_fuel
parse_loop (suc n) b total_len p =
    one_round (λ t p'. parse_loop n t.buf t.total_len p') p (parse_tlv b total_len)

-- The C string in a buffer: up to the first zero.
abbrev pub string_of : List ℕ → List ℕ
string_of [] = []
string_of (c ∷ buf) = let rest = string_of buf in if c == 0 then [] else c ∷ rest

abbrev pub is_empty : List ℕ → Bool
is_empty [] = true
is_empty (c ∷ s) = false

-- The bytes that `compose_tlv` writes into its zeroed block, and `*outlen`.
unfoldable pub write_tlv : List ℕ → List ℕ → ℕ → Option (List ℕ × ℕ)
unfolding put_byte
write_tlv epname out outlen = do
  c ← put_byte proto_pser_tlv_t_epname (replicate (1 + 2 + length epname + 1 + 2 + outlen) 0, 0)
  c ← put_byte (length epname % 256) c
  c ← put_byte (length epname / 2 ^ 8 % 256) c
  b ← copy_to c.0 c.1 epname
  c ← put_byte proto_pser_tlv_t_data (b, (c.1 + length epname) % 2 ^ 16)
  c ← put_byte (outlen % 256) c
  c ← put_byte (outlen / 2 ^ 8 % 256) c
  src ← slice out 0 outlen
  b ← copy_to c.0 c.1 src
  some (b, c.1 + outlen)

-- `compose_tlv`: `*out` and `*outlen` after it, the inner `none` is ESP_FAIL. `alloc` says whether
-- `calloc` gives a block.
unfoldable pub compose_tlv : Bool → List ℕ → List ℕ → ℕ → Option (Option (List ℕ × ℕ))
unfolding write_tlv
compose_tlv alloc epname out outlen =
    if alloc then (write_tlv epname out outlen >>= λ r. some (some r)) else some none

-- What `rpc_req_handler` meets outside: `protocomm_req_handle` for an endpoint and data, `none` for
-- a failure; whether `calloc` gives a block of a length; and whether `xmit` returns ESP_OK.
pub record Services : Type 0 where
  pub req_handle : List ℕ → List ℕ → Option (List ℕ)
  pub calloc : ℕ → Bool
  pub xmit : List ℕ → Bool

-- The result: true is ESP_OK, and what `xmit` has been called with.
abbrev pub Reply : Type 0
Reply = Bool × Option (List ℕ)

-- From the test of `compose_tlv` on.
abbrev pub send_answer : Services → Option (List ℕ × ℕ) → Reply
send_answer env none = (false, none)
send_answer env (some r) = (env.xmit r.0, some r.0)

-- The answer is composed and transmitted.
unfoldable pub answer : Services → Option (List ℕ) → Option Reply
unfolding compose_tlv
answer env none = some (false, none)
answer env (some out) =
    compose_tlv (env.calloc (1 + 2 + length rpc_ep_name_rsp + 1 + 2 + length out)) rpc_ep_name_rsp
      out (length out)
    >>= λ r. some (send_answer env r)

-- After the loop.
unfoldable pub handle_parsed : Services → Parsed → Option Reply
handle_parsed env p = elim p.tlv_data [
  | none ↦ some (false, none)
  | some ptr ↦
      if p.data_len == 0 || is_empty (string_of p.epname)
      then some (false, none)
      else (slice ptr 0 p.data_len >>= λ bytes.
          answer env (env.req_handle (string_of p.epname) bytes))
]

-- What follows the end of the loop.
abbrev pub after_loop : Services → LoopEnd → Option Reply
after_loop env out_of_fuel = none
after_loop env (ended none) = none
after_loop env (ended (some none)) = some (false, none)
after_loop env (ended (some (some p))) = handle_parsed env p

-- `rpc_req_handler` on the buffer `input`.
unfoldable pub rpc_req_handler : Services → List ℕ → ℕ → Option Reply
rpc_req_handler env input in_len = after_loop env (
    parse_loop (suc (length input)) input in_len
      (record { epname = replicate epname_max 0; tlv_data = none; data_len = 0 }))
