-- ===== src/Serial/Tlv.antt =====
-- `compose_tlv` and `parse_tlv` of esp-hosted/host/drivers/virtual_serial_if/serial_if.c: the
-- envelope that carries an RPC message between host and slave.
pub mod RoundTrip
pub mod Safe
use rt_thread_esp_hosted.Common.{
  ℕ, ◌+◌, ◌*◌, ◌/◌, ◌%◌, ◌^◌, Bool, true, false, Option, none, some, List, [], ◌∷◌, if◌then◌else◌,
  ◌==◌, ◌&&◌, ◌>>=◌, load, store, slice, copy_to,
}

-- The characters of "RPCRsp" and "RPCEvt".
abbrev pub rpc_ep_name_rsp : List ℕ
rpc_ep_name_rsp = 82 ∷ 80 ∷ 67 ∷ 82 ∷ 115 ∷ 112 ∷ []

abbrev pub rpc_ep_name_evt : List ℕ
rpc_ep_name_evt = 82 ∷ 80 ∷ 67 ∷ 69 ∷ 118 ∷ 116 ∷ []

-- `strlen` of either name
abbrev pub ep_length : ℕ
ep_length = 6

abbrev pub proto_pser_tlv_t_epname : ℕ
proto_pser_tlv_t_epname = 1

abbrev pub proto_pser_tlv_t_data : ℕ
proto_pser_tlv_t_data = 2

-- The buffer that is written, with the `uint16_t count` of bytes so far.
abbrev pub Cursor : Type 0
Cursor = List ℕ × ℕ

-- `buf[count] = v; count++;`
unfoldable pub put_byte : ℕ → Cursor → Option Cursor
put_byte v (buf, count) = store buf count v >>= λ b. some (b, (count + 1) % 2 ^ 16)

-- The loop that copies the endpoint's name.
unfoldable pub put_bytes : List ℕ → Cursor → Option Cursor
put_bytes [] c = some c
put_bytes (x ∷ xs) c = put_byte x c >>= λ c'. put_bytes xs c'

-- The buffer after the call and the `count` that it returns.
unfoldable pub compose_tlv : List ℕ → List ℕ → ℕ → Option Cursor
unfolding put_byte put_bytes
compose_tlv buf bytes data_length = do
  c ← put_byte proto_pser_tlv_t_epname (buf, 0)
  c ← put_byte (ep_length % 256) c
  c ← put_byte (ep_length / 2 ^ 8 % 256) c
  c ← put_bytes rpc_ep_name_rsp c
  c ← put_byte proto_pser_tlv_t_data c
  c ← put_byte (data_length % 256) c
  c ← put_byte (data_length / 2 ^ 8 % 256) c
  src ← slice bytes 0 data_length
  b ← copy_to c.0 c.1 src
  some (b, (c.1 + data_length) % 2 ^ 16)

-- `strncmp(buf + off, name, strlen(name)) == 0` for a name with no zero in it: it reads up to the
-- first difference.
unfoldable pub strncmp_eq : List ℕ → ℕ → List ℕ → Option Bool
strncmp_eq buf off [] = some true
strncmp_eq buf off (c ∷ name) = do
  x ← load buf off
  if x == c then strncmp_eq buf (off + 1) name else some false

-- `val_len = buf[off]; val_len = (buf[off + 1] << 8) + val_len;` in 16 bits
unfoldable pub load_len : List ℕ → ℕ → Option ℕ
load_len buf off = do lo ← load buf off; hi ← load buf (off + 1); some ((hi * 2 ^ 8 + lo) % 2 ^ 16)

-- The tail of `parse_tlv`, after the endpoint's name: the data's type and length.
unfoldable pub parse_data : List ℕ → ℕ → Option (Option ℕ)
unfolding load_len
parse_data buf len = do
  t ← load buf len
  if t == proto_pser_tlv_t_data
      then (load_len buf (len + 1) >>= λ val_len. some (some val_len))
      else some none

-- The inner option is `*pro_len` on SUCCESS, and `none` on FAILURE.
unfoldable pub parse_tlv : List ℕ → Option (Option ℕ)
unfolding load_len strncmp_eq parse_data
parse_tlv buf = do
  t ← load buf 0
  val_len ← if t == proto_pser_tlv_t_epname then load_len buf 1 else some 0
  if t == proto_pser_tlv_t_epname && val_len == ep_length
      then (do
        is_rsp ← strncmp_eq buf 3 rpc_ep_name_rsp
        known ← if is_rsp then some true else strncmp_eq buf 3 rpc_ep_name_evt
        if known then parse_data buf (3 + ep_length) else some none)
      else some none
