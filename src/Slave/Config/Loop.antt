-- ===== src/Slave/Config/Loop.antt =====
-- The loop of `host_to_slave_reconfig` in esp-hosted/slave/main/app_main.c: every round passes
-- two bytes at least, and a field that is longer than the event takes it past the end.
use rt_thread_esp_hosted.Common.{
  ℕ, zero, suc, ◌+◌, ◌-◌, ◌%◌, ◌≤◌, ◌<◌, ◌≡◌, refl, ◌≢◌, ap, Option, none, some, List, [], ◌∷◌,
  arith, ◌>>=◌, if◌then◌else◌, ◌==◌, length, drop, drop_all, length-drop, ne→==, le→ltb,
}
use rt_thread_esp_hosted.Slave.Config.{SlvConfig, take_field, reconfig_loop, host_to_slave_reconfig}

bind_eq {ℓ κ} :
    {A : Type ℓ} {B : Type κ} (o : Option A) (f g : A → Option B)
    → ((a : A) → f a ≡ g a)
    → (o >>= f) ≡ (o >>= g)
bind_eq none f g h = refl
bind_eq (some a) f g h = h a

-- Any two amounts of fuel above a buffer's length give the same result, so the loop in
-- `host_to_slave_reconfig`, which has one more than the buffer's length, does not run out of it.
pub reconfig_loop-fuel :
    (m n : ℕ) (pos : List ℕ) (len_left : ℕ) (c : SlvConfig)
    → length pos < m
    → length pos < n
    → reconfig_loop m pos len_left c ≡ reconfig_loop n pos len_left c
unfolding reconfig_loop
reconfig_loop-fuel zero n pos len_left c h k = absurd (omega arith)
reconfig_loop-fuel (suc m) zero pos len_left c h k = absurd (omega arith)
reconfig_loop-fuel (suc m) (suc n) [] len_left c h k = refl
reconfig_loop-fuel (suc m) (suc n) (x ∷ []) len_left c h k = refl
reconfig_loop-fuel (suc m) (suc n) (x ∷ y ∷ pos) len_left c h k =
    ap (λ r. if len_left == 0 then some c else r)
      (bind_eq (take_field (x ∷ y ∷ pos) x c) _ _ λ c'.
        reconfig_loop-fuel m n (drop (y + 2) (x ∷ y ∷ pos)) ((len_left + 512 - (y + 2)) % 256) c'
          (omega (arith, length-drop (y + 2) (x ∷ y ∷ pos)))
          (omega (arith, length-drop (y + 2) (x ∷ y ∷ pos))))

bind_none {ℓ κ} :
    {A : Type ℓ} {B : Type κ} (o : Option A) (f : A → Option B)
    → ((a : A) → f a ≡ none)
    → (o >>= f) ≡ none
bind_none none f h = refl
bind_none (some a) f h = h a

past_end : (n left : ℕ) (c : SlvConfig) → left ≢ 0 → reconfig_loop (suc n) [] left c ≡ none
unfolding reconfig_loop
past_end n left c nz = rw (ne→== left 0 nz)

-- An event of at most 64 bytes that begins with a field, of any kind, whose length says more than
-- the event holds: the 8-bit count of the bytes that are left wraps round, and the loop reads
-- behind the event.
pub reconfig_overrun :
    (tag tag_len : ℕ) (rest : List ℕ) (c : SlvConfig)
    → 2 + length rest ≤ 64
    → length rest < tag_len
    → tag_len < 256
    → host_to_slave_reconfig (tag ∷ tag_len ∷ rest) (2 + length rest) c ≡ none
unfolding host_to_slave_reconfig reconfig_loop
reconfig_overrun tag tag_len rest c fits long byte =
    let len : (2 + length rest) % 256 ≡ 2 + length rest = omega arith in
    rw
      (
        le→ltb 64 (2 + length rest) fits,
        len,
        ne→== (2 + length rest) 0 (λ (e : 2 + length rest ≡ 0). absurd (omega arith)),
        drop_all (tag ∷ tag_len ∷ rest) (tag_len + 2) (omega arith),
      )
      (bind_none (take_field (tag ∷ tag_len ∷ rest) tag c) _ λ c'.
        past_end (suc (length rest)) ((2 + length rest + 512 - (tag_len + 2)) % 256) c'
          (λ e. absurd (omega (arith, e))))
