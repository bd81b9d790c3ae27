-- ===== src/Util/Ipv4/RoundTrip.antt =====
-- What `ipv4_addr_ntoa` of esp-hosted/host/utils/util.c prints, `get_ipaddr_from_str` reads.
use mathlib.Core.List.{append-nil, append_assoc}
use rt_thread_esp_hosted.Common.{
  ℕ, suc, ◌+◌, ◌*◌, ◌/◌, ◌%◌, ◌^◌, ◌≤◌, ◌<◌, ◌≡◌, refl, ap, ◌∙◌, sym, inl, inr, Option, some, List,
  [], ◌∷◌, ◌++◌, arith, ◌>>=◌, length, length-append, le→ltb, if_false, leb, false,
}
use rt_thread_esp_hosted.Util.{hton_long}
use rt_thread_esp_hosted.Util.Ipv4.{
  parts_loop, concoct, finish_numbers, ipv4_addr_aton, get_ipaddr_from_str, emit, emit_all,
  ntoa_loop, end_string, memory_bytes, ipv4_addr_ntoa,
}
use rt_thread_esp_hosted.Util.Ipv4.Digits.{Printed, print_byte}

leb-gt : (a b : ℕ) → b < a → leb a b ≡ false
leb-gt a b h = ground arith

emit_all-lem :
    (buflen : ℕ) (out cs : List ℕ)
    → length out + length cs ≤ buflen
    → emit_all buflen out cs ≡ some (out ++ cs)
unfolding emit_all emit
emit_all-lem buflen out [] h = ap some (sym (append-nil out))
emit_all-lem buflen out (c ∷ cs) h = rw (leb-gt buflen (length out) (omega arith)) (
    emit_all-lem buflen (out ++ c ∷ []) cs (omega (arith, length-append out (c ∷ [])))
    ∙ ap some (append_assoc out (c ∷ []) cs))

emit-lem :
    (buflen : ℕ) (out : List ℕ) (c : ℕ)
    → length out < buflen
    → emit buflen out c ≡ some (out ++ c ∷ [])
unfolding emit
emit-lem buflen out c h = rw (leb-gt buflen (length out) h)

-- One round of the outer loop prints the byte's digits and a dot.
ntoa_loop-lem :
    (buflen n : ℕ) (out ds bytes : List ℕ)
    → Printed n ds
    → length out + 4 ≤ buflen
    → ntoa_loop buflen out (n ∷ bytes) ≡ ntoa_loop buflen (out ++ (ds ++ 46 ∷ [])) bytes
unfolding ntoa_loop
ntoa_loop-lem buflen n out ds bytes p h =
    let short : length ds ≤ 3 = p.short in
    rw
      (
        p.printed,
        emit_all-lem buflen out ds (omega arith),
        emit-lem buflen (out ++ ds) 46 (omega (arith, length-append out ds)),
        append_assoc out ds (46 ∷ []),
      )
      refl

end_string-lem : (xs : List ℕ) (c : ℕ) → end_string (xs ++ c ∷ []) ≡ xs ++ 0 ∷ []
unfolding end_string
end_string-lem [] c = refl
end_string-lem (x ∷ []) c = refl
end_string-lem (x ∷ y ∷ xs) c = ap (◌∷◌ x) (end_string-lem (y ∷ xs) c)

parts_loop-dot :
    (free n : ℕ) (parts ds rest : List ℕ)
    → Printed n ds
    → n < 256
    → parts_loop (suc free) parts (ds ++ 46 ∷ rest) ≡ parts_loop free (parts ++ n ∷ []) rest
unfolding parts_loop
parts_loop-dot free n parts ds rest p h =
    rw (p.read 46 rest (inr refl)) (if_false _ _ (le→ltb 255 n (omega arith)))

parts_loop-end :
    (n : ℕ) (parts ds : List ℕ)
    → Printed n ds
    → parts_loop 0 parts (ds ++ 0 ∷ []) ≡ some (some (parts, n, 0 ∷ []))
unfolding parts_loop
parts_loop-end n parts ds p = rw (p.read 0 [] (inl refl)) refl

-- Four printed bytes with dots between them, and the zero.
abbrev text : List ℕ → List ℕ → List ℕ → List ℕ → List ℕ
text da db dc dd = da ++ 46 ∷ (db ++ 46 ∷ (dc ++ 46 ∷ (dd ++ 0 ∷ [])))

module _ {a b c d : ℕ} {da db dc dd : List ℕ} (pa : Printed a da) (pb : Printed b db)
    (pc : Printed c dc) (pd : Printed d dd) where
  print_text :
      (buflen : ℕ)
      → 16 ≤ buflen
      → (ntoa_loop buflen [] (a ∷ b ∷ c ∷ d ∷ []) >>= λ out. some (end_string out))
        ≡ some (text da db dc dd)
  unfolding ntoa_loop
  print_text buflen h =
      let sa : length da ≤ 3 = pa.short in
      let sb : length db ≤ 3 = pb.short in
      let sc : length dc ≤ 3 = pc.short in
      let o1 = da ++ 46 ∷ [] in
      let o2 = o1 ++ (db ++ 46 ∷ []) in
      let o3 = o2 ++ (dc ++ 46 ∷ []) in
      let l1 : length o1 ≤ 4 = omega (arith, length-append da (46 ∷ [])) in
      let l2 : length o2 ≤ 8 =
        omega (arith, length-append o1 (db ++ 46 ∷ []), length-append db (46 ∷ [])) in
      let l3 : length o3 ≤ 12 =
        omega (arith, length-append o2 (dc ++ 46 ∷ []), length-append dc (46 ∷ [])) in
      ap (λ (m : Option (List ℕ)). m >>= λ out. some (end_string out))
        (ntoa_loop-lem buflen a [] da (b ∷ c ∷ d ∷ []) pa (omega arith)
          ∙ ntoa_loop-lem buflen b o1 db (c ∷ d ∷ []) pb (omega arith)
          ∙ ntoa_loop-lem buflen c o2 dc (d ∷ []) pc (omega arith)
          ∙ ntoa_loop-lem buflen d o3 dd [] pd (omega arith))
      ∙ ap some (
          ap end_string (sym (append_assoc o3 dd (46 ∷ [])))
          ∙ end_string-lem (o3 ++ dd) 46
          ∙ simp append_assoc refl)

  read_text :
      a < 256
      → b < 256
      → c < 256
      → ipv4_addr_aton (text da db dc dd) ≡ finish_numbers (some (a ∷ b ∷ c ∷ [], d, 0 ∷ []))
  unfolding ipv4_addr_aton
  read_text ha hb hc =
      rw
        (
          parts_loop-dot 2 a [] da (db ++ 46 ∷ (dc ++ 46 ∷ (dd ++ 0 ∷ []))) pa ha,
          parts_loop-dot 1 b (a ∷ []) db (dc ++ 46 ∷ (dd ++ 0 ∷ [])) pb hb,
          parts_loop-dot 0 c (a ∷ b ∷ []) dc (dd ++ 0 ∷ []) pc hc,
          parts_loop-end d (a ∷ b ∷ c ∷ []) dd pd,
        )
        refl

finish_four :
    (a b c d : ℕ)
    → d < 256
    → finish_numbers (some (a ∷ b ∷ c ∷ [], d, 0 ∷ []))
      ≡ some (some (hton_long (a * 2 ^ 24 + b * 2 ^ 16 + c * 2 ^ 8 + d)))
unfolding finish_numbers concoct
finish_four a b c d h = rw (le→ltb 255 d (omega arith)) refl

hton_long-hton_long : (x : ℕ) → x < 2 ^ 32 → hton_long (hton_long x) ≡ x
unfolding hton_long
hton_long-hton_long x h = omega arith

host_order :
    (addr : ℕ)
    → addr < 2 ^ 32
    → hton_long addr % 256 * 2 ^ 24
        + hton_long addr / 2 ^ 8 % 256 * 2 ^ 16
        + hton_long addr / 2 ^ 16 % 256 * 2 ^ 8
        + hton_long addr / 2 ^ 24 % 256
      ≡ addr
unfolding hton_long
host_order addr h = omega arith

-- For every 32-bit address and every buffer of at least 16 bytes, `ipv4_addr_ntoa` returns a
-- string, and `get_ipaddr_from_str` reads it to its end and gives the address back.
pub ipv4_roundtrip :
    (addr buflen : ℕ)
    → addr < 2 ^ 32
    → 16 ≤ buflen
    → (s : List ℕ) × (ipv4_addr_ntoa addr buflen ≡ some s)
      × (get_ipaddr_from_str s ≡ some (some addr))
unfolding ipv4_addr_ntoa memory_bytes get_ipaddr_from_str
ipv4_roundtrip addr buflen h k =
    let x = hton_long addr in
    let (da, pa) = print_byte (x % 256) (omega arith) in
    let (db, pb) = print_byte (x / 2 ^ 8 % 256) (omega arith) in
    let (dc, pc) = print_byte (x / 2 ^ 16 % 256) (omega arith) in
    let (dd, pd) = print_byte (x / 2 ^ 24 % 256) (omega arith) in
    (
      text da db dc dd,
      print_text pa pb pc pd buflen k,
      rw
          (
            read_text pa pb pc pd (omega arith) (omega arith) (omega arith),
            finish_four (x % 256) (x / 2 ^ 8 % 256) (x / 2 ^ 16 % 256) (x / 2 ^ 24 % 256)
                (omega arith),
          )
          (ap (λ v. some (some v)) (hton_long-hton_long _ (omega arith) ∙ host_order addr h)),
    )
