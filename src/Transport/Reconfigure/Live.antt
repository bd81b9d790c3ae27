-- ===== src/Transport/Reconfigure/Live.antt =====
-- `transport_drv_reconfigure` of esp-hosted/host/drivers/transport/transport_drv.c ends, and what
-- it ends with.
use mathlib.Core.Bool.{true≢false, false≢true}
use rt_thread_esp_hosted.Common.{
  ℕ, zero, suc, ◌+◌, ◌-◌, ◌%◌, ◌≤◌, ◌<◌, ◌≡◌, refl, sym, ap, ◌∙◌, inl, inr, Bool, true, false, some,
  ◌==◌, ltb, ◌>>=◌, arith, Ensures, Bool-cases, ltb→lt, if_true, if_false, if-holds,
}
use rt_thread_esp_hosted.Transport.Reconfigure.{
  Link, is_up, reset_slave, count_retry, sleep, wait_loop, finish_reconfigure,
  transport_drv_reconfigure,
}

-- What the loop does from the state `l` on: an arrival in one of the rounds that are left brings
-- the transport up, and without one the rounds are used up.
unfoldable pub Outcome : (ℕ → Bool) → Link → Bool × Link → Type 0
Outcome arrives l r =
    ((k : ℕ)
      → k + l.retry < 1000
      → arrives (l.slept + k) ≡ true
      → (r.0 ≡ true) × (2 ≤ r.1.transport_state))
    × (l.transport_state < 2
        → ((k : ℕ) → k + l.retry < 1000 → arrives (l.slept + k) ≡ false)
        → (r.0 ≡ false)
          × (r.1.transport_state < 2)
          × (1000 ≤ r.1.retry)
          × (r.1.slept + l.retry ≡ l.slept + r.1.retry))

counted :
    (l : Link)
    → ((count_retry l).retry ≡ suc l.retry)
      × ((count_retry l).slept ≡ l.slept)
      × ((count_retry l).transport_state ≡ l.transport_state)
unfolding count_retry reset_slave
counted l =
    if-holds
      (λ (c : Link).
        (c.retry ≡ suc l.retry) × (c.slept ≡ l.slept) × (c.transport_state ≡ l.transport_state))
      (suc l.retry % 10 == 0) _ _ (refl, refl, refl) (refl, refl, refl)

-- The round that follows `l`.
round_after : (ℕ → Bool) → Link → Link
round_after arrives l = sleep arrives (count_retry l)

next_retry : (arrives : ℕ → Bool) (l : Link) → (round_after arrives l).retry ≡ suc l.retry
unfolding round_after sleep
next_retry arrives l = (counted l).0

next_slept : (arrives : ℕ → Bool) (l : Link) → (round_after arrives l).slept ≡ suc l.slept
unfolding round_after sleep
next_slept arrives l = ap suc (counted l).1

next_arrived :
    (arrives : ℕ → Bool) (l : Link)
    → arrives l.slept ≡ true
    → (round_after arrives l).transport_state ≡ 2
unfolding round_after sleep
next_arrived arrives l e = if_true _ _ (ap arrives (counted l).1 ∙ e)

next_silent :
    (arrives : ℕ → Bool) (l : Link)
    → arrives l.slept ≡ false
    → (round_after arrives l).transport_state ≡ l.transport_state
unfolding round_after sleep
next_silent arrives l e = if_false _ _ (ap arrives (counted l).1 ∙ e) ∙ (counted l).2

up_first :
    (n : ℕ) (arrives : ℕ → Bool) (l : Link)
    → l.transport_state ≡ 2
    → wait_loop (suc n) arrives l ≡ some (true, l)
unfolding wait_loop
up_first n arrives l e = if_true {b = is_up l} _ _ (ground arith)

later :
    (arrives : ℕ → Bool) (l : Link) (k : ℕ) (b : Bool)
    → arrives (l.slept + suc k) ≡ b
    → arrives ((round_after arrives l).slept + k) ≡ b
later arrives l k b e = ap arrives (let s = next_slept arrives l in omega (arith, s)) ∙ e

after_round-Outcome :
    (n : ℕ) (arrives : ℕ → Bool) (l : Link)
    → l.retry < 1000
    → Ensures
        (Outcome arrives (round_after arrives l))
        (wait_loop (suc n) arrives (round_after arrives l))
    → Ensures (Outcome arrives l) (wait_loop (suc n) arrives (round_after arrives l))
unfolding Outcome
after_round-Outcome n arrives l lt (r, e, (p, q)) = go (arrives l.slept) refl
  where
    l' : Link
    l' = round_after arrives l

    here : arrives (l.slept + 0) ≡ arrives l.slept
    here = ap arrives (omega arith)

    go :
        (b : Bool)
        → arrives l.slept ≡ b
        → Ensures (Outcome arrives l) (wait_loop (suc n) arrives (round_after arrives l))
    go true a = (
      (true, l'),
      up_first n arrives l' (next_arrived arrives l a),
      (
        λ k b c. (refl, let s = next_arrived arrives l a in omega (arith, s)),
        λ d f. absurd (true≢false (sym (here ∙ a) ∙ f 0 (omega arith))),
      ),
    )
    go false a = (r, e, (arrival, silence))
      where
        t : l'.retry ≡ suc l.retry
        t = next_retry arrives l

        s : l'.slept ≡ suc l.slept
        s = next_slept arrives l

        arrival :
            (k : ℕ)
            → k + l.retry < 1000
            → arrives (l.slept + k) ≡ true
            → (r.0 ≡ true) × (2 ≤ r.1.transport_state)
        arrival zero b c = absurd (true≢false (sym c ∙ here ∙ a))
        arrival (suc k) b c = p k (omega (arith, t)) (later arrives l k true c)

        silence :
            l.transport_state < 2
            → ((k : ℕ) → k + l.retry < 1000 → arrives (l.slept + k) ≡ false)
            → (r.0 ≡ false)
              × (r.1.transport_state < 2)
              × (1000 ≤ r.1.retry)
              × (r.1.slept + l.retry ≡ l.slept + r.1.retry)
        silence d f =
            let st = next_silent arrives l a in
            let (g, u, v, w) =
              q (omega (arith, st, d))
                (λ k b. later arrives l k false (f (suc k) (omega (arith, t)))) in
            (g, u, v, omega (arith, w, t, s))

module _ (arrives : ℕ → Bool) (l : Link) where
  up-Outcome : (m : ℕ) → is_up l ≡ true → Ensures (Outcome arrives l) (wait_loop (suc m) arrives l)
  unfolding wait_loop Outcome
  up-Outcome m u = (
    (true, l),
    if_true {b = is_up l} _ _ u,
    (λ k b a. (refl, ground arith), λ d f. absurd (ground arith)),
  )

  spent-Outcome :
      (m : ℕ)
      → is_up l ≡ false
      → ltb l.retry 1000 ≡ false
      → Ensures (Outcome arrives l) (wait_loop (suc m) arrives l)
  unfolding wait_loop Outcome
  spent-Outcome m u t = (
    (false, l),
    if_false {b = is_up l} _ _ u ∙ if_false {b = ltb l.retry 1000} _ _ t,
    (λ k b a. absurd (ground arith), λ d f. (refl, d, ground arith, refl)),
  )

  step-Outcome :
      (m : ℕ)
      → Ensures
          (Outcome arrives (round_after arrives l))
          (wait_loop (suc m) arrives (round_after arrives l))
      → Ensures (Outcome arrives l) (wait_loop (suc (suc m)) arrives l)
  unfolding wait_loop round_after
  step-Outcome m ih = elim (Bool-cases (is_up l)) [
    | inl u ↦ up-Outcome (suc m) u
    | inr u ↦ elim (Bool-cases (ltb l.retry 1000)) [
      | inr t ↦ spent-Outcome (suc m) u t
      | inl t ↦
          (let (r, e, o) = after_round-Outcome m arrives l (ltb→lt l.retry 1000 t) ih in
            (r, if_false {b = is_up l} _ _ u ∙ if_true {b = ltb l.retry 1000} _ _ t ∙ e, o))
    ]
  ]

wait_loop-Outcome :
    (n : ℕ) (arrives : ℕ → Bool) (l : Link)
    → 1000 ≤ n + l.retry
    → Ensures (Outcome arrives l) (wait_loop (suc n) arrives l)
wait_loop-Outcome zero arrives l h = elim (Bool-cases (is_up l)) [
  | inl u ↦ up-Outcome arrives l zero u
  | inr u ↦ spent-Outcome arrives l zero u (ground arith)
]
wait_loop-Outcome (suc n) arrives l h = step-Outcome arrives l n (
    wait_loop-Outcome n arrives (round_after arrives l)
      (let t = next_retry arrives l in omega (arith, t)))

-- What a call from the state `l` on ends with.
abbrev pub Waits : (ℕ → Bool) → Link → Bool × Link → Type 0
Waits arrives l r =
    ((k : ℕ)
      → k + l.retry < 1000
      → arrives (l.slept + k) ≡ true
      → (r.0 ≡ true) × (2 ≤ r.1.transport_state) × (r.1.retry ≡ 0))
    × (((k : ℕ) → k + l.retry < 1000 → arrives (l.slept + k) ≡ false)
        → (r.0 ≡ false)
          × (r.1.transport_state < 2)
          × (1000 ≤ r.1.retry)
          × (r.1.slept + l.retry ≡ l.slept + r.1.retry))

-- A call that finds the transport not up, with the retry counter at `l.retry`, always returns. If
-- the init event arrives during one of the rounds up to the thousandth, the call returns ESP_OK
-- with the transport up and the counter at zero. If it arrives in none of them, the call returns
-- ESP_FAIL after all of them, with the transport not up and the counter at a thousand or more.
pub reconfigure_live :
    (arrives : ℕ → Bool) (l : Link)
    → l.transport_state < 2
    → Ensures (Waits arrives l) (transport_drv_reconfigure arrives l)
unfolding transport_drv_reconfigure reset_slave Outcome finish_reconfigure
reconfigure_live arrives l down =
    let (r, e, o) = wait_loop-Outcome (1000 - l.retry) arrives waiting (omega arith) in
    let (r', e', o') = finished r o in
    (r', if_false {b = is_up l} _ _ (ground arith) ∙ ap (λ m. m >>= finish_reconfigure) e ∙ e', o')
  where
    waiting : Link
    waiting = record l { resets = suc l.resets; transport_state = 1 }

    finished :
        (r : Bool × Link)
        → Outcome arrives waiting r
        → Ensures (Waits arrives l) (finish_reconfigure r)
    finished (true, l') (p, q) = (
      (true, record l' { retry = 0 }),
      refl,
      (λ k b a. (refl, (p k b a).1, refl), λ f. absurd (true≢false (q (omega arith) f).0)),
    )
    finished (false, l') (p, q) =
        ((false, l'), refl, (λ k b a. absurd (false≢true (p k b a).0), λ f. q (omega arith) f))
