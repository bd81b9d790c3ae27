-- ===== src/Tests/Util.antt =====
-- Addresses in text form, and buffers that are compared.
use rt_thread_esp_hosted.Common.{ℕ, ◌≡◌, refl, false, some, none, List, [], ◌∷◌, arith, take}
use rt_thread_esp_hosted.Util.{hton_long}
use rt_thread_esp_hosted.Util.Compare.{is_same_buff, same_bytes, Agrees, is_same_buff_lem}
use rt_thread_esp_hosted.Util.Ipv4.{
  accumulate, digits_loop, radix, read_number, parts_loop, concoct, finish_numbers, ipv4_addr_aton,
  get_ipaddr_from_str, byte_digits, emit, emit_all, ntoa_loop, end_string, memory_bytes,
  ipv4_addr_ntoa,
}
use rt_thread_esp_hosted.Util.Ipv4.RoundTrip.{ipv4_roundtrip}

-- 10.0.0.1
abbrev address : ℕ
address = 0x0a000001

abbrev address_text : List ℕ
address_text = 49 ∷ 48 ∷ 46 ∷ 48 ∷ 46 ∷ 48 ∷ 46 ∷ 49 ∷ 0 ∷ []

prints : ipv4_addr_ntoa address 9 ≡ some address_text
unfolding ipv4_addr_ntoa hton_long ntoa_loop byte_digits emit emit_all end_string memory_bytes
prints = refl

-- One byte less is too small.
too_small : ipv4_addr_ntoa address 8 ≡ none
unfolding ipv4_addr_ntoa hton_long ntoa_loop byte_digits emit emit_all end_string memory_bytes
too_small = refl

-- "0xa.1", a part in base 16 and a last part of 24 bits
reads_hex : get_ipaddr_from_str (48 ∷ 120 ∷ 97 ∷ 46 ∷ 49 ∷ 0 ∷ []) ≡ some (some address)
unfolding get_ipaddr_from_str ipv4_addr_aton hton_long parts_loop read_number radix digits_loop
    accumulate finish_numbers concoct
reads_hex = refl

-- "300.1" and "1x" are refused.
refuses_part : get_ipaddr_from_str (51 ∷ 48 ∷ 48 ∷ 46 ∷ 49 ∷ 0 ∷ []) ≡ some none
unfolding get_ipaddr_from_str ipv4_addr_aton hton_long parts_loop read_number radix digits_loop
    accumulate finish_numbers concoct
refuses_part = refl

refuses_tail : get_ipaddr_from_str (49 ∷ 120 ∷ 0 ∷ []) ≡ some none
unfolding get_ipaddr_from_str ipv4_addr_aton hton_long parts_loop read_number radix digits_loop
    accumulate finish_numbers concoct
refuses_tail = refl

ipv4_roundtrip_example :
    (s : List ℕ) × (ipv4_addr_ntoa address 16 ≡ some s)
    × (get_ipaddr_from_str s ≡ some (some address))
ipv4_roundtrip_example = ipv4_roundtrip address 16 (omega arith) (omega arith)

differs : is_same_buff (some (1 ∷ 2 ∷ 3 ∷ [])) (some (1 ∷ 2 ∷ 4 ∷ [])) 3 ≡ some false
unfolding is_same_buff same_bytes
differs = refl

is_same_buff_example :
    Agrees
      (is_same_buff (some (1 ∷ 2 ∷ 3 ∷ [])) (some (1 ∷ 2 ∷ 4 ∷ [])) 2)
      (take 2 (1 ∷ 2 ∷ 3 ∷ []))
      (take 2 (1 ∷ 2 ∷ 4 ∷ []))
is_same_buff_example =
    is_same_buff_lem (1 ∷ 2 ∷ 3 ∷ []) (1 ∷ 2 ∷ 4 ∷ []) 2 (omega arith) (omega arith)
