-- ===== src/Util/Ipv4/Digits.antt =====
-- The digits of a byte in the text form of an address, esp-hosted/host/utils/util.c: what
-- `ipv4_addr_ntoa` prints, and how `ipv4_addr_aton` reads it as a number.
use rt_thread_esp_hosted.Common.{
  ℕ, zero, suc, ◌+◌, ◌*◌, ◌/◌, ◌%◌, ◌^◌, ◌≤◌, ◌<◌, ◌≡◌, refl, ap, ◌∙◌, ◌⊎◌, inl, inr, none, some,
  List, [], ◌∷◌, ◌++◌, arith, length, if_false, ne→==, ◌≢◌, Bool-cases, ltb, ltb→lt,
}
use rt_thread_esp_hosted.Util.Ipv4.{accumulate, digits_loop, radix, read_number, byte_digits}

-- A character that ends a number.
abbrev pub Ends : ℕ → Type 0
Ends c = (c ≡ 0) ⊎ (c ≡ 46)

accumulate-digit :
    (base val d : ℕ) → d < 10 → accumulate base val (48 + d) ≡ some ((val * base + d) % 2 ^ 32)
unfolding accumulate
accumulate-digit base val d h = ground arith

accumulate-end : (base val c : ℕ) → Ends c → accumulate base val c ≡ none
unfolding accumulate
accumulate-end base val c (inl e) = ground arith
accumulate-end base val c (inr e) = ground arith

digits_loop-end :
    (base val c : ℕ) (cp : List ℕ) → Ends c → digits_loop base val (c ∷ cp) ≡ some (val, c ∷ cp)
unfolding digits_loop
digits_loop-end base val c cp e = rw (accumulate-end base val c e, digits_loop)

digits_loop-digit :
    (base val d : ℕ) (cp : List ℕ)
    → d < 10
    → digits_loop base val ((48 + d) ∷ cp) ≡ digits_loop base ((val * base + d) % 2 ^ 32) cp
unfolding digits_loop
digits_loop-digit base val d cp h = rw (accumulate-digit base val d h, digits_loop)

read_number-decimal :
    (d : ℕ) (cp : List ℕ) → d < 10 → d ≢ 0 → read_number ((48 + d) ∷ cp) ≡ digits_loop 10 d cp
unfolding read_number
read_number-decimal d cp h nz =
    if_false _ _ (ne→== (48 + d) 48 (λ (e : 48 + d ≡ 48). nz (omega arith)))
    ∙ digits_loop-digit 10 0 d cp h
    ∙ ap (λ v. digits_loop 10 v cp) (let e : (0 * 10 + d) % 2 ^ 32 ≡ d = omega arith in e)

read_number-zero : (c : ℕ) (cp : List ℕ) → Ends c → read_number (48 ∷ c ∷ cp) ≡ some (0, c ∷ cp)
unfolding read_number radix
read_number-zero c cp (inl e) = rw e (digits_loop-end 8 0 0 cp (inl refl))
read_number-zero c cp (inr e) = rw e (digits_loop-end 8 0 46 cp (inr refl))

-- The digits of a byte, as `byte_digits` leaves them and `read_number` takes them.
pub record Printed (n : ℕ) (ds : List ℕ) : Type 0 where
  pub printed : byte_digits 3 n [] ≡ some ds
  pub short : length ds ≤ 3
  pub read : (c : ℕ) (rest : List ℕ) → Ends c → read_number (ds ++ c ∷ rest) ≡ some (n, c ∷ rest)

read_one :
    (n c : ℕ) (rest : List ℕ)
    → n < 10
    → Ends c
    → read_number ((48 + n) ∷ c ∷ rest) ≡ some (n, c ∷ rest)
read_one zero c rest h e = read_number-zero c rest e
read_one (suc n) c rest h e =
    read_number-decimal (suc n) (c ∷ rest) h (λ (z : suc n ≡ 0). absurd (omega arith))
    ∙ digits_loop-end 10 (suc n) c rest e

one_digit : (n : ℕ) → n < 10 → Printed n ((48 + n) ∷ [])
unfolding byte_digits
one_digit n h = record {
  printed = ground arith;
  short = omega arith;
  read = λ c rest e. read_one n c rest h e;
}

read_two :
    (t u c : ℕ) (rest : List ℕ)
    → t < 10
    → t ≢ 0
    → u < 10
    → Ends c
    → read_number ((48 + t) ∷ (48 + u) ∷ c ∷ rest) ≡ some (t * 10 + u, c ∷ rest)
read_two t u c rest ht nz hu e =
    read_number-decimal t ((48 + u) ∷ c ∷ rest) ht nz
    ∙ digits_loop-digit 10 t u (c ∷ rest) hu
    ∙ digits_loop-end 10 ((t * 10 + u) % 2 ^ 32) c rest e
    ∙ ap (λ v. some (v, c ∷ rest)) (omega arith)

two_digits : (n : ℕ) → 10 ≤ n → n < 100 → Printed n ((48 + n / 10) ∷ (48 + n % 10) ∷ [])
unfolding byte_digits
two_digits n h k = record {
  printed = ground arith;
  short = omega arith;
  read = λ c rest e.
      read_two (n / 10) (n % 10) c rest (omega arith) (λ (z : n / 10 ≡ 0). absurd (omega arith))
        (omega arith) e
      ∙ ap (λ v. some (v, c ∷ rest)) (omega arith);
}

three_digits :
    (n : ℕ)
    → 100 ≤ n
    → n < 256
    → Printed n ((48 + n / 100) ∷ (48 + n / 10 % 10) ∷ (48 + n % 10) ∷ [])
unfolding byte_digits
three_digits n h k = record {
  printed = ground arith;
  short = omega arith;
  read = λ c rest e.
      read_number-decimal (n / 100) ((48 + n / 10 % 10) ∷ (48 + n % 10) ∷ c ∷ rest) (omega arith)
        (λ (z : n / 100 ≡ 0). absurd (omega arith))
      ∙ digits_loop-digit 10 (n / 100) (n / 10 % 10) ((48 + n % 10) ∷ c ∷ rest) (omega arith)
      ∙ digits_loop-digit 10 ((n / 100 * 10 + n / 10 % 10) % 2 ^ 32) (n % 10) (c ∷ rest)
          (omega arith)
      ∙ digits_loop-end 10 (((n / 100 * 10 + n / 10 % 10) % 2 ^ 32 * 10 + n % 10) % 2 ^ 32) c rest e
      ∙ ap (λ v. some (v, c ∷ rest)) (omega arith);
}

-- Every byte is printed.
pub print_byte : (n : ℕ) → n < 256 → (ds : List ℕ) × Printed n ds
print_byte n h = elim (Bool-cases (ltb n 10)) [
  | inl e ↦ ((48 + n) ∷ [], one_digit n (ltb→lt n 10 e))
  | inr e ↦ elim (Bool-cases (ltb n 100)) [
    | inl k ↦ ((48 + n / 10) ∷ (48 + n % 10) ∷ [], two_digits n (ground arith) (ltb→lt n 100 k))
    | inr k ↦
        ((48 + n / 100) ∷ (48 + n / 10 % 10) ∷ (48 + n % 10) ∷ [], three_digits n (ground arith) h)
  ]
]
