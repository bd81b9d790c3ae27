-- ===== src/Util/Compare.antt =====
-- `is_same_buff` of esp-hosted/host/utils/util.c.
use rt_thread_esp_hosted.Common.{
  ℕ, zero, suc, ◌≤◌, ◌≡◌, ◌≢◌, ◌⊎◌, inl, inr, ap, Bool-cases, drop, refl, Bool, true, false, Option,
  none, some, List, [], ◌∷◌, arith, ◌==◌, length, take, if◌then◌else◌,
}

-- The loop of `is_same_buff` over the `len` bytes that are left of both; `none` is a read past a
-- buffer's end.
unfoldable pub same_bytes : List ℕ → List ℕ → ℕ → Option Bool
same_bytes buff1 buff2 zero = some true
same_bytes [] buff2 (suc len) = none
same_bytes (b1 ∷ buff1) [] (suc len) = none
same_bytes (b1 ∷ buff1) (b2 ∷ buff2) (suc len) =
    let rest = same_bytes buff1 buff2 len in if b1 == b2 then rest else some false

-- `is_same_buff`; a NULL buffer is `none`.
unfoldable pub is_same_buff : Option (List ℕ) → Option (List ℕ) → ℕ → Option Bool
is_same_buff none none len = if len == 0 then some true else some false
is_same_buff none (some buff2) len = some false
is_same_buff (some buff1) none len = some false
is_same_buff (some buff1) (some buff2) len = same_bytes buff1 buff2 len

-- What a comparison of two lists has to answer.
unfoldable pub Agrees : Option Bool → List ℕ → List ℕ → Type 0
Agrees r xs ys = ((r ≡ some true) × (xs ≡ ys)) ⊎ ((r ≡ some false) × (xs ≢ ys))

abbrev first_or : ℕ → List ℕ → ℕ
first_or d [] = d
first_or d (x ∷ xs) = x

same_bytes-Agrees :
    (buff1 buff2 : List ℕ) (len : ℕ)
    → len ≤ length buff1
    → len ≤ length buff2
    → Agrees (same_bytes buff1 buff2 len) (take len buff1) (take len buff2)
unfolding same_bytes Agrees
same_bytes-Agrees buff1 buff2 zero h k = inl (refl, refl)
same_bytes-Agrees [] buff2 (suc len) h k = absurd (omega arith)
same_bytes-Agrees (b1 ∷ buff1) [] (suc len) h k = absurd (omega arith)
same_bytes-Agrees (b1 ∷ buff1) (b2 ∷ buff2) (suc len) h k = elim (Bool-cases (b1 == b2)) [
  | inl e ↦
      let b : b1 ≡ b2 = ground arith in
      elim (same_bytes-Agrees buff1 buff2 len (omega arith) (omega arith)) [
        | inl (r, q) ↦ inl (rw (e, r), cc)
        | inr (r, q) ↦ inr (rw (e, r), λ w. q (ap (drop 1) w))
      ]
  | inr e ↦ inr (rw e, λ w. let h' : b1 ≡ b2 = ap (first_or b1) w in absurd (ground arith))
]

-- For two buffers of at least `len` bytes, `is_same_buff` runs without a read past an end. It
-- answers true exactly when the first `len` bytes of the two are the same list, and false
-- exactly when they differ.
pub is_same_buff_lem :
    (buff1 buff2 : List ℕ) (len : ℕ)
    → len ≤ length buff1
    → len ≤ length buff2
    → Agrees (is_same_buff (some buff1) (some buff2) len) (take len buff1) (take len buff2)
unfolding is_same_buff
is_same_buff_lem = same_bytes-Agrees
