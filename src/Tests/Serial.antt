-- ===== src/Tests/Serial.antt =====
-- The serial path: an RPC answer in two packets.
use rt_thread_esp_hosted.Common.{
  ℕ, ◌^◌, ◌≤◌, ◌≡◌, refl, inl, inr, Bool, true, false, Option, none, some, List, [], ◌∷◌, arith,
  length, replicate, length-replicate, sym, ap, ◌∙◌, Buffer, Heap, frees,
}
use rt_thread_esp_hosted.Adapter.{BufHandle}
use rt_thread_esp_hosted.Port.{Allocator, IsAllocator}
use rt_thread_esp_hosted.Serial.Tlv.{rpc_ep_name_rsp, rpc_ep_name_evt}
use rt_thread_esp_hosted.Serial.Tlv.RoundTrip.{tlv_frame}
use rt_thread_esp_hosted.Serial.Drv.{SerialDrv, LlOps, Ret, ret_ok, serial_drv_read}
use rt_thread_esp_hosted.Serial.Drv.Read.{serial_drv_read_safe, serial_drv_read-frame}
use rt_thread_esp_hosted.Serial.Ll.{
  SerialLl, SerialLlHandle, null, live, active, get_serial_ll_handle, serial_ll_rx_handler,
  serial_msg_handle,
}
use rt_thread_esp_hosted.Serial.Ll.Reassembly.{receive_lem}
use rt_thread_esp_hosted.Serial.Ll.Fragment.{receive, delivered}
use rt_thread_esp_hosted.Serial.Ll.Failure.{stale_r_data, after_failure}
use rt_thread_esp_hosted.Serial.Ll.Lifecycle.{serial_ll_fops}
use rt_thread_esp_hosted.Serial.Ll.Delivery.{delivery}

-- An allocator that never fails.
abbrev malloc : Allocator
malloc n = some (record { ident = 7; bytes = replicate n 0 })

abbrev size_of : Option Buffer → ℕ
size_of none = 0
size_of (some b) = length b.bytes

malloc-IsAllocator : IsAllocator malloc
malloc-IsAllocator = record {
  sized = λ n b e. sym (ap {B = ℕ} size_of e) ∙ length-replicate {A = ℕ} n 0;
}

malloc_enough : (n : ℕ) → (b : Buffer) × (malloc n ≡ some b)
malloc_enough n = (_, refl)

-- The memory behind a block.
beyond : List ℕ
beyond = replicate (2 ^ 16) 0

beyond_readable : 2 ^ 16 ≤ length beyond
unfolding beyond
beyond_readable = omega (arith, length-replicate {A = ℕ} (2 ^ 16) 0)

abbrev packet : ℕ → List ℕ → BufHandle
packet flag bytes = record {
  priv_buffer_handle = some 3;
  if_type = 3;
  if_num = 0;
  payload = bytes;
  flag = flag;
  payload_len = length bytes;
  seq_num = 0;
  payload_zcopy = false;
  free_buf_handle = true;
}

abbrev answer : List ℕ
answer = 9 ∷ 8 ∷ []

abbrev first : BufHandle
first = packet 1 (1 ∷ 6 ∷ 0 ∷ 82 ∷ 80 ∷ [])

abbrev second : BufHandle
second = packet 0 (67 ∷ 82 ∷ 115 ∷ 112 ∷ 2 ∷ 2 ∷ 0 ∷ 9 ∷ 8 ∷ [])

abbrev handle : SerialLlHandle
handle = record {
  block = 1;
  queue = some [];
  if_type = 3;
  if_num = 0;
  state = active;
  serial_rx_callback = true;
}

abbrev idle : SerialLl
idle = record {
  interface0 = some handle;
  interface1 = none;
  conn_num = 1;
  r_len = 0;
  r_data = null;
  heap = [];
  callbacks = 0;
}

-- A transport that takes everything.
abbrev tx : ℕ → ℕ → Buffer → ℕ → Bool → Unit {0} → Heap → Option (Ret × Unit {0} × Heap)
tx ty num b n z t h = some (ret_ok, tt, h)

abbrev driver : SerialDrv (SerialLl × Unit {0})
driver = record {
  serial_ll_if = some (serial_ll_fops tx 0);
  read_semaphore = some 1;
  low = (idle, tt);
  heap = [];
}

receive_lem_example :
    (block : ℕ) × (heap : Heap) × (receive malloc beyond (first ∷ second ∷ []) idle
      ≡ some (
          delivered idle handle []
            (serial_msg_handle second
              (record { ident = block; bytes = tlv_frame rpc_ep_name_rsp answer })
              14)
            heap))
receive_lem_example =
    receive_lem malloc beyond malloc-IsAllocator malloc_enough beyond_readable (first ∷ []) second
      handle [] idle ((omega arith, refl, refl), tt) (omega arith) refl refl
      (refl, refl, refl, refl) refl refl

delivery_example :
    (s' : SerialLl) × (d' : SerialDrv (SerialLl × Unit {0})) × (receive malloc beyond
        (first ∷ second ∷ [])
        idle
      ≡ some s')
    × (serial_drv_read true 0 (some 11) (some 12) (record driver { low = (s', tt) })
        ≡ some (some (record { ident = 12; bytes = answer }), 2, d'))
    × (s'.callbacks ≡ 1)
delivery_example =
    delivery tx malloc beyond (first ∷ []) second handle idle tt driver rpc_ep_name_rsp answer 1 0
      11 12 malloc-IsAllocator malloc_enough beyond_readable ((omega arith, refl, refl), tt)
      (omega arith) refl refl (refl, refl, refl, refl) refl refl (inl refl) refl (omega arith)
      (omega arith) refl refl

-- A packet for interface 1, which is not there.
abbrev stray : BufHandle
stray = record second { if_num = 1 }

stale_r_data_example :
    let s = record idle { r_data = live (record { ident = 7; bytes = 1 ∷ [] }); r_len = 1 } in
    (serial_ll_rx_handler malloc [] true (some stray) s
      ≡ some (
        false,
        record stray { priv_buffer_handle = none },
        after_failure s stray (record { ident = 7; bytes = 1 ∷ [] }),
      ))
    × (serial_ll_rx_handler malloc [] true
          (some second)
          (after_failure s stray (record { ident = 7; bytes = 1 ∷ [] }))
        ≡ none)
unfolding get_serial_ll_handle
stale_r_data_example =
    stale_r_data malloc malloc [] [] true true stray second handle _ _ (omega arith) refl refl
      (omega arith) refl

serial_drv_read_safe_example :
    (r : Option Buffer × ℕ × SerialDrv (List ℕ)) × (serial_drv_read true 0
        (some 2)
        (some 3)
        (record {
          serial_ll_if = some (record {
            write = λ b n s h. some (ret_ok, s, h);
            read = λ s h. some (some (record { ident = 1; bytes = s }), 3, s, h);
          });
          read_semaphore = some 1;
          low = 1 ∷ 2 ∷ 3 ∷ [];
          heap = [];
        })
      ≡ some r)
    × (frees 1 r.2.heap ≡ 1)
serial_drv_read_safe_example =
    serial_drv_read_safe _ _ (record { ident = 1; bytes = 1 ∷ 2 ∷ 3 ∷ [] }) 3 1 0 (some 2) (some 3)
      _ [] refl refl refl (omega arith) (omega arith) (λ e. cc)

-- A driver over an interface that gives its state as the next buffer.
abbrev echo : LlOps (List ℕ)
echo = record {
  write = λ b n s h. some (ret_ok, s, h);
  read = λ s h. some (some (record { ident = 1; bytes = s }), 14, s, h);
}

abbrev framed : SerialDrv (List ℕ)
framed = record {
  serial_ll_if = some echo;
  read_semaphore = some 1;
  low = tlv_frame rpc_ep_name_evt answer;
  heap = [];
}

serial_drv_read-frame_example :
    serial_drv_read true 0 (some 2) (some 3) framed
    ≡ some (
      some (record { ident = 3; bytes = answer }),
      2,
      record framed {
        read_semaphore = some 0;
        low = tlv_frame rpc_ep_name_evt answer;
        heap = 1 ∷ 2 ∷ [];
      },
    )
serial_drv_read-frame_example =
    serial_drv_read-frame framed echo
      (record { ident = 1; bytes = tlv_frame rpc_ep_name_evt answer }) rpc_ep_name_evt answer 1 0 2
      3 (tlv_frame rpc_ep_name_evt answer) [] (inr refl) refl refl refl refl (omega arith)
      (omega arith)
