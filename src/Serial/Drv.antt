-- ===== src/Serial/Drv.antt =====
-- The serial driver, esp-hosted/host/drivers/serial/serial_drv.c. The interface under it is
-- reached through its table of functions, `serial_ll_operations` of serial_ll_if.h, which is a
-- parameter. A `calloc` answers with a block, or with `none` when there is no memory; the answers
-- are arguments. Freed blocks are logged in the `Heap`.
pub mod Read
use rt_thread_esp_hosted.Common.{
  ℕ, ◌+◌, ◌-◌, Bool, true, false, Option, none, some, List, [], ◌∷◌, if◌then◌else◌, ◌==◌, ◌||◌, not,
  ltb, ◌>>=◌, check, slice, Buffer, Heap,
}
use rt_thread_esp_hosted.Serial.Tlv.{ep_length, parse_tlv}

pub data Ret : Type 0 where
  ret_ok ret_fail ret_invalid : Ret

abbrev pub is_ok : Ret → Bool
is_ok ret_ok = true
is_ok _ = false

-- `write` takes a buffer and its length; `read` gives a buffer and `*rlen`.
pub record LlOps (S : Type 0) : Type 0 where
  pub write : Buffer → ℕ → S → Heap → Option (Ret × S × Heap)
  pub read : S → Heap → Option (Option Buffer × ℕ × S × Heap)

-- The static variables: `serial_ll_if_g` with its `fops`, `readSemaphore` by its value, and what
-- lies behind the functions.
pub record SerialDrv (S : Type 0) : Type 0 where
  pub serial_ll_if : Option (LlOps S)
  pub read_semaphore : Option ℕ
  pub low : S
  pub heap : Heap

-- `serial_drv_open`: a transport name is given or not, and the allocation's answer.
unfoldable pub serial_drv_open : Bool → Option ℕ → Option ℕ
serial_drv_open transport block = if transport then block else none

-- 1 + 2 + the endpoint's name + 1 + 2
abbrev pub init_read_len : ℕ
init_read_len = 1 + 2 + ep_length + 1 + 2

module _ {S : Type 0} where
  -- `HOSTED_FREE` of a pointer that is not NULL
  abbrev pub h_free : ℕ → SerialDrv S → SerialDrv S
  h_free b d = record d { heap = b ∷ d.heap }

  -- The result, `*out_count`, which starts as `out`, and the state.
  unfoldable pub serial_drv_write :
      Bool → Option Buffer → ℕ → ℕ → SerialDrv S → Option (Ret × ℕ × SerialDrv S)
  serial_drv_write handle none in_count out d = some (ret_invalid, out, d)
  serial_drv_write handle (some buf) in_count out d =
      if not handle || in_count == 0 then some (ret_invalid, out, d) else elim d.serial_ll_if [
        | none ↦ some (ret_invalid, out, d)
        | some fops ↦ fops.write buf in_count d.low d.heap >>= λ r.
            if is_ok r.0
            then some (ret_ok, in_count, record d { low = r.1; heap = r.2 })
            else some (ret_fail, 0, record d { low = r.1; heap = r.2 })
      ]

  -- The second step of the read: the data behind a prefix that announces `buf_len` bytes.
  unfoldable pub read_value :
      Buffer → ℕ → ℕ → Option ℕ → SerialDrv S → Option (Option Buffer × ℕ × SerialDrv S)
  read_value read_buf rx_buf_len buf_len none d = some (none, 0, h_free read_buf.ident d)
  read_value read_buf rx_buf_len buf_len (some block) d = do
    value ← slice read_buf.bytes init_read_len buf_len
    some (some (record { ident = block; bytes = value }), buf_len, h_free read_buf.ident d)

  -- From the `parse_tlv` of the copied prefix on.
  unfoldable pub read_parsed :
      Option ℕ → Buffer → ℕ → ℕ → Option ℕ → SerialDrv S → Option (Option Buffer × ℕ × SerialDrv S)
  unfolding read_value
  read_parsed none read_buf rx_buf_len block second d =
      some (none, 0, h_free read_buf.ident (h_free block d))
  read_parsed (some buf_len) read_buf rx_buf_len block second d =
      if buf_len == 0 || ltb rx_buf_len (init_read_len + buf_len)
      then some (none, 0, h_free read_buf.ident (h_free block d))
      else read_value read_buf rx_buf_len buf_len second (h_free block d)

  -- From the allocation of the prefix's copy on.
  unfoldable pub read_prefix :
      Option ℕ → Buffer → ℕ → Option ℕ → SerialDrv S → Option (Option Buffer × ℕ × SerialDrv S)
  unfolding read_parsed
  read_prefix none read_buf rx_buf_len second d = some (none, 0, h_free read_buf.ident d)
  read_prefix (some block) read_buf rx_buf_len second d = do
    prefix ← slice read_buf.bytes 0 init_read_len
    parsed ← parse_tlv prefix
    read_parsed parsed read_buf rx_buf_len block second d

  -- From the check of `rx_buf_len` on. `first` and `second` answer the two allocations.
  unfoldable pub read_frame :
      Buffer → ℕ → Option ℕ → Option ℕ → SerialDrv S → Option (Option Buffer × ℕ × SerialDrv S)
  unfolding read_prefix
  read_frame read_buf rx_buf_len first second d =
      if ltb rx_buf_len init_read_len
      then some (none, 0, h_free read_buf.ident d)
      else read_prefix first read_buf rx_buf_len second d

  -- What `fops->read` gave.
  unfoldable pub read_answer :
      Option Buffer
      → ℕ
      → Option ℕ
      → Option ℕ
      → SerialDrv S
      → Option (Option Buffer × ℕ × SerialDrv S)
  unfolding read_frame
  read_answer none rx_buf_len first second d = some (none, 0, d)
  read_answer (some read_buf) rx_buf_len first second d =
      if rx_buf_len == 0 then some (none, 0, d) else read_frame read_buf rx_buf_len first second d

  -- The buffer, `*out_nbyte`, which starts as `out`, and the state. The wait for the semaphore
  -- takes one unit, or ends with none to take.
  unfoldable pub serial_drv_read :
      Bool → ℕ → Option ℕ → Option ℕ → SerialDrv S → Option (Option Buffer × ℕ × SerialDrv S)
  unfolding read_answer
  serial_drv_read handle out first second d =
      if not handle then some (none, out, d) else elim d.read_semaphore [
        | none ↦ some (none, 0, d)
        | some units ↦ elim d.serial_ll_if [
          | none ↦ some (none, 0, record d { read_semaphore = some (units - 1) })
          | some fops ↦ fops.read d.low d.heap >>= λ r.
              read_answer r.0 r.1 first second
                (record d { read_semaphore = some (units - 1); low = r.2; heap = r.3 })
        ]
      ]

  -- `*serial_drv_handle` by its block; the new handle is the last part. A NULL
  -- `serial_drv_handle` is `none`; freeing the address of the handle where it holds NULL is the
  -- free of block `self`.
  unfoldable pub serial_drv_close :
      Option (Option ℕ) → ℕ → SerialDrv S → Ret × Option ℕ × SerialDrv S
  serial_drv_close none self d = (ret_invalid, none, d)
  serial_drv_close (some none) self d = (ret_invalid, none, h_free self d)
  serial_drv_close (some (some block)) self d = (ret_ok, none, h_free block d)

  -- `rpc_rx_indication`, the callback that a received message runs.
  unfoldable pub rpc_rx_indication : SerialDrv S → SerialDrv S
  rpc_rx_indication d = elim d.read_semaphore [
    | none ↦ d
    | some units ↦ record d { read_semaphore = some (units + 1) }
  ]
