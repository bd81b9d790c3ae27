-- ===== src/Util/Ipv4.antt =====
-- IPv4 addresses in text form, `ipv4_addr_aton`, `get_ipaddr_from_str` and `ipv4_addr_ntoa` of
-- esp-hosted/host/utils/util.c. A character is its ASCII code, a string its bytes with the zero
-- at the end; `none` is a read behind the string. `u_long` has 32 bits.
pub mod Digits
pub mod RoundTrip
use rt_thread_esp_hosted.Common.{
  ℕ, zero, suc, ◌+◌, ◌-◌, ◌*◌, ◌/◌, ◌%◌, ◌^◌, Bool, true, false, ◌&&◌, ◌||◌, not, Option, none,
  some, List, [], ◌∷◌, ◌++◌, ◌>>=◌, load, length, drop, if◌then◌else◌, ◌==◌, ltb, leb,
}
use rt_thread_esp_hosted.Util.{hton_long}

abbrev pub is_digit : ℕ → Bool
is_digit c = leb 48 c && leb c 57

abbrev pub is_lower : ℕ → Bool
is_lower c = leb 97 c && leb c 122

abbrev pub is_xdigit : ℕ → Bool
is_xdigit c = is_digit c || (leb 65 c && leb c 70) || (leb 97 c && leb c 102)

abbrev pub is_space : ℕ → Bool
is_space c = (c == 32) || (leb 9 c && leb c 13)

-- The body of the inner loop: the new value, or `none` where it breaks off.
unfoldable pub accumulate : ℕ → ℕ → ℕ → Option ℕ
accumulate base val c =
    if is_digit c
    then some ((val * base + (c - 48)) % 2 ^ 32)
    else if (base == 16) && is_xdigit c
    then some ((val * 2 ^ 4 + (c + 10 - (if is_lower c then 97 else 65))) % 2 ^ 32)
    else none

-- The inner loop, from a value on: the number, and where it ends.
unfoldable pub digits_loop : ℕ → ℕ → List ℕ → Option (ℕ × List ℕ)
digits_loop base val [] = none
digits_loop base val (c ∷ cp) = elim (accumulate base val c) [
  | none ↦ some (val, c ∷ cp)
  | some v ↦ digits_loop base v cp
]

-- After a leading `0`: `x` or `X` for 16, else 8.
unfoldable pub radix : List ℕ → Option (ℕ × List ℕ)
radix [] = none
radix (c ∷ cp) = if (c == 120) || (c == 88) then some (16, cp) else some (8, c ∷ cp)

unfoldable pub read_number : List ℕ → Option (ℕ × List ℕ)
read_number [] = none
read_number (c ∷ cp) =
    if c == 48 then (radix cp >>= λ r. digits_loop r.0 0 r.1) else digits_loop 10 0 (c ∷ cp)

-- What the outer loop ends with: the parts before the last dot, the last number, and where it
-- ends.
abbrev pub Numbers : Type 0
Numbers = List ℕ × ℕ × List ℕ

-- The outer loop with `free` of the three places of `parts` left; the inner `none` is `return 0`.
unfoldable pub parts_loop : ℕ → List ℕ → List ℕ → Option (Option Numbers)
parts_loop zero parts cp = do
  n ← read_number cp
  c ← load n.1 0
  if c == 46 then some none else some (some (parts, n.0, n.1))
parts_loop (suc free) parts cp = do
  n ← read_number cp
  c ← load n.1 0
  let rest = parts_loop free (parts ++ n.0 ∷ []) (drop 1 n.1)
  if c == 46 then (if ltb 255 n.0 then some none else rest) else some (some (parts, n.0, n.1))

-- The final `switch`. A part before the last is at most 255 and the last is within its bits, so
-- `|` joins them as the sum.
unfoldable pub concoct : List ℕ → ℕ → Option ℕ
concoct [] val = some val
concoct (a ∷ []) val = if ltb 0xffffff val then none else some (a * 2 ^ 24 + val)
concoct (a ∷ b ∷ []) val = if ltb 0xffff val then none else some (a * 2 ^ 24 + b * 2 ^ 16 + val)
concoct (a ∷ b ∷ c ∷ more) val =
    if ltb 0xff val then none else some (a * 2 ^ 24 + b * 2 ^ 16 + c * 2 ^ 8 + val)

-- The check of the character behind the last number, and the `switch`.
unfoldable pub finish_numbers : Option Numbers → Option (Option ℕ)
finish_numbers none = some none
finish_numbers (some (parts, val, cp)) = do
  c ← load cp 0
  if not (c == 0) && (leb 128 c || not (is_space c))
      then some none
      else some (elim (concoct parts val) [ none ↦ none | some v ↦ some (hton_long v) ])

-- `ipv4_addr_aton`: the address that is stored where 1 is returned.
unfoldable pub ipv4_addr_aton : List ℕ → Option (Option ℕ)
ipv4_addr_aton cp = parts_loop 3 [] cp >>= finish_numbers

-- `get_ipaddr_from_str`; the inner `none` is STM_FAIL.
unfoldable pub get_ipaddr_from_str : List ℕ → Option (Option ℕ)
unfolding ipv4_addr_aton
get_ipaddr_from_str ip_s = ipv4_addr_aton ip_s >>= λ r. elim r [
  | none ↦ some none
  | some ip_nw ↦ some (some (hton_long ip_nw))
]

-- The `do` loop of `ipv4_addr_ntoa` that takes a byte's digits; `inv`, last digit first here, has
-- `room` places left.
unfoldable pub byte_digits : ℕ → ℕ → List ℕ → Option (List ℕ)
byte_digits zero ap inv = none
byte_digits (suc room) ap inv =
    let rest = byte_digits room (ap / 10) ((48 + ap % 10) ∷ inv) in
    if ap / 10 == 0 then some ((48 + ap % 10) ∷ inv) else rest

-- `*rp++ = c` behind the test of the length; `none` is `return NULL`.
unfoldable pub emit : ℕ → List ℕ → ℕ → Option (List ℕ)
emit buflen out c = if leb buflen (length out) then none else some (out ++ c ∷ [])

unfoldable pub emit_all : ℕ → List ℕ → List ℕ → Option (List ℕ)
emit_all buflen out [] = some out
emit_all buflen out (c ∷ cs) = emit buflen out c >>= λ o. emit_all buflen o cs

-- The outer loop, over the bytes in memory.
unfoldable pub ntoa_loop : ℕ → List ℕ → List ℕ → Option (List ℕ)
ntoa_loop buflen out [] = some out
ntoa_loop buflen out (ap ∷ bytes) = do
  inv ← byte_digits 3 ap []
  o ← emit_all buflen out inv
  o ← emit buflen o 46
  ntoa_loop buflen o bytes

-- `*--rp = 0`
unfoldable pub end_string : List ℕ → List ℕ
end_string [] = []
end_string (c ∷ []) = 0 ∷ []
end_string (c ∷ d ∷ cs) = c ∷ end_string (d ∷ cs)

-- The bytes of a `uint32_t` in memory.
unfoldable pub memory_bytes : ℕ → List ℕ
memory_bytes x = x % 256 ∷ x / 2 ^ 8 % 256 ∷ x / 2 ^ 16 % 256 ∷ x / 2 ^ 24 % 256 ∷ []

-- `ipv4_addr_ntoa` into a buffer of `buflen` bytes; `none` is NULL.
unfoldable pub ipv4_addr_ntoa : ℕ → ℕ → Option (List ℕ)
ipv4_addr_ntoa addr buflen =
    ntoa_loop buflen [] (memory_bytes (hton_long addr)) >>= λ out. some (end_string out)
