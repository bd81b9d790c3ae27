-- ===== src/Serial/Ll/Failure.antt =====
-- What the cleanup of `serial_ll_rx_handler` leaves behind.
use rt_thread_esp_hosted.Common.{ℕ, ◌≡◌, ◌≢◌, Bool, false, none, some, List, ◌∷◌, Buffer, ne→==}
use rt_thread_esp_hosted.Adapter.{BufHandle}
use rt_thread_esp_hosted.Port.{Allocator}
use rt_thread_esp_hosted.Serial.Ll.{
  SerialLl, SerialLlHandle, live, dangling, serial_ll_rx_handler, serial_buff_cleanup, rx_fragment,
  serial_alloc_realloc_rdata, get_serial_ll_handle, free_with_func,
}

-- The state after the failed call: nothing is pending, and `r.data` points to the freed block.
abbrev pub after_failure : SerialLl → BufHandle → Buffer → SerialLl
after_failure s h b = record s {
  r_len = 0;
  r_data = dangling b.ident;
  heap = b.ident ∷ (free_with_func h s.heap).1;
}

-- A packet with a payload for an interface that is not up, which arrives while fragments of another
-- message are pending, is refused and the pending block is freed, but `r.data` keeps its address:
-- for the next packet, if it has a payload and its interface is up, the handler reallocates the
-- freed block, a fault.
pub stale_r_data :
    (malloc malloc' : Allocator) (beyond beyond' : List ℕ) (queue_ok queue_ok' : Bool)
    (h h' : BufHandle) (hdl : SerialLlHandle) (b : Buffer) (s : SerialLl)
    → h.payload_len ≢ 0
    → get_serial_ll_handle s h.if_num ≡ none
    → s.r_data ≡ live b
    → h'.payload_len ≢ 0
    → get_serial_ll_handle (after_failure s h b) h'.if_num ≡ some hdl
    → (serial_ll_rx_handler malloc beyond queue_ok (some h) s
        ≡ some (false, (free_with_func h s.heap).0, after_failure s h b))
      × (serial_ll_rx_handler malloc' beyond' queue_ok' (some h') (after_failure s h b) ≡ none)
unfolding serial_ll_rx_handler serial_buff_cleanup rx_fragment serial_alloc_realloc_rdata
stale_r_data malloc malloc' beyond beyond' queue_ok queue_ok' h h' hdl b s full down live_b nz up =
    (simp (ne→== h.payload_len 0 full, down, live_b), rw (ne→== h'.payload_len 0 nz, up))
