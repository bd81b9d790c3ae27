-- ===== src/Mempool/Ownership/Counts.antt =====
-- How often a block is in the pool and with the clients of
-- esp-hosted/host/drivers/mempool/mempool.c, when it is taken and given back.
use mathlib.Core.Path.{subst}
use rt_thread_esp_hosted.Common.{
  ℕ, suc, ◌+◌, ◌≤◌, ◌≡◌, ap, ◌∙◌, sym, false, List, [], ◌∷◌, ◌==◌, if◌then◌else◌, frees, arith,
  Bool-cases, inl, inr,
}
use rt_thread_esp_hosted.Mempool.Ownership.{Held, give_back}

pub swap_count :
    (a x : ℕ) (held : Held)
    → frees a held + (if a == x then 1 else 0)
      ≡ (if a == x then suc (frees a held) else frees a held)
swap_count a x held = ground arith

pub count_cons :
    (a x b : ℕ) (xs ys : Held)
    → frees a xs + (if a == b then 1 else 0) ≡ frees a ys
    → frees a (x ∷ xs) + (if a == b then 1 else 0) ≡ frees a (x ∷ ys)
count_cons a x b xs ys e = elim (Bool-cases (a == x)) [
  | inl f ↦ rw f (omega (arith, e))
  | inr f ↦ rw f e
]

pub frees-give_back :
    (a b : ℕ) (held : Held)
    → frees b held ≡ 1
    → frees a (give_back b held) + (if a == b then 1 else 0) ≡ frees a held
unfolding give_back
frees-give_back a b [] h = absurd (omega (arith, h))
frees-give_back a b (x ∷ held) h = elim (Bool-cases (b == x)) [
  | inl e ↦ let s : b ≡ x = ground arith in rw (e, s) (swap_count a x held)
  | inr e ↦ rw e (count_cons a x b (give_back b held) held (frees-give_back a b held (out e)))
]
  where
    out : (b == x) ≡ false → frees b held ≡ 1
    out e = sym (ap (λ t. if t then suc (frees b held) else frees b held) e) ∙ h

pub less : (x y p t : ℕ) → x + t ≡ y → p + y ≤ 1 → p + x ≤ 1
less x y p t e u = omega (arith, e)

pub moved :
    (a b : ℕ) (pool xs ys : Held)
    → frees a xs + (if a == b then 1 else 0) ≡ frees a ys
    → frees a pool + frees a ys ≤ 1
    → frees a (b ∷ pool) + frees a xs ≤ 1
moved a b pool xs ys e u = elim (Bool-cases (a == b)) [
  | inl f ↦
      let e' : frees a xs + 1 ≡ frees a ys =
        subst (λ t. frees a xs + (if t then 1 else 0) ≡ frees a ys) f e in
      rw f (omega (arith, e'))
  | inr f ↦
      let e' : frees a xs + 0 ≡ frees a ys =
        subst (λ t. frees a xs + (if t then 1 else 0) ≡ frees a ys) f e in
      rw f (omega (arith, e'))
]

pub move_count :
    (a b : ℕ) (pool : List ℕ) (held : Held)
    → frees a (b ∷ pool) + frees a held ≤ 1
    → frees a pool + frees a (b ∷ held) ≤ 1
move_count a b pool held u = ground arith

pub alone :
    (b : ℕ) (pool : List ℕ) (held : Held) → frees b (b ∷ pool) + frees b held ≤ 1 → frees b held ≡ 0
alone b pool held u = ground arith

pub fresh_count :
    (a b : ℕ) (pool : List ℕ) (held : Held)
    → frees b pool ≡ 0
    → frees b held ≡ 0
    → frees a pool + frees a held ≤ 1
    → frees a pool + frees a (b ∷ held) ≤ 1
fresh_count a b pool held p q u = elim (Bool-cases (a == b)) [
  | inl e ↦
      let s : a ≡ b = ground arith in
      let p' : frees a pool ≡ 0 = rw s p in
      let q' : frees a held ≡ 0 = rw s q in rw e (omega (arith, p', q'))
  | inr e ↦ rw e u
]
