-- ===== src/Transport/Reconfigure/Stuck.antt =====
-- The retry counter of `transport_drv_reconfigure` in
-- esp-hosted/host/drivers/transport/transport_drv.c after a failure.
use mathlib.Core.Bool.{true≢false}
use rt_thread_esp_hosted.Common.{
  ℕ, zero, suc, ◌+◌, ◌-◌, Option, List, [], ◌∷◌, length, replicate, Ensures, ◌≤◌, ◌<◌, ◌≡◌, refl,
  ap, ◌∙◌, Bool, true, false, some, ltb, ◌>>=◌, arith, After, if-After, then-After, After-some,
  if_false,
}
use rt_thread_esp_hosted.Transport.Reconfigure.{
  Link, is_up, reset_slave, count_retry, sleep, wait_loop, finish_reconfigure,
  transport_drv_reconfigure,
}

-- What a failed wait leaves.
Failed : Bool × Link → Type 0
Failed r = r.0 ≡ false → (r.1.transport_state < 2) × (1000 ≤ r.1.retry)

wait_loop-Failed : (n : ℕ) (arrives : ℕ → Bool) (l : Link) → After Failed (wait_loop n arrives l)
unfolding wait_loop Failed
wait_loop-Failed zero arrives l = tt
wait_loop-Failed (suc n) arrives l =
    if-After Failed (is_up l) (some (true, l)) _ (λ u e. absurd (true≢false e))
      λ u.
        if-After Failed (ltb l.retry 1000) (wait_loop n arrives (sleep arrives (count_retry l)))
          (some (false, l)) (λ t. wait_loop-Failed n arrives (sleep arrives (count_retry l)))
          (λ t e. (ground arith, ground arith))

finish-Failed : (r : Bool × Link) → Failed r → After Failed (finish_reconfigure r)
unfolding Failed finish_reconfigure
finish-Failed (true, l) f = λ e. absurd (true≢false e)
finish-Failed (false, l) f = f

reconfigure-Failed :
    (arrives : ℕ → Bool) (l : Link) → After Failed (transport_drv_reconfigure arrives l)
unfolding transport_drv_reconfigure Failed
reconfigure-Failed arrives l =
    if-After Failed (is_up l) (some (true, record l { retry = 0 })) _ (λ u e. absurd (true≢false e))
      λ u.
        then-After Failed Failed
          (wait_loop (suc (1000 - l.retry)) arrives
            (record (reset_slave l) { transport_state = 1 }))
          finish_reconfigure
          (wait_loop-Failed (suc (1000 - l.retry)) arrives
            (record (reset_slave l) { transport_state = 1 }))
          finish-Failed

stuck :
    (arrives : ℕ → Bool) (l : Link)
    → l.transport_state < 2
    → 1000 ≤ l.retry
    → transport_drv_reconfigure arrives l
      ≡ some (false, record l { resets = suc l.resets; transport_state = 1 })
unfolding transport_drv_reconfigure reset_slave wait_loop finish_reconfigure
stuck arrives l down spent =
    if_false {b = is_up l} _ _ (ground arith)
    ∙ ap (λ m. m >>= finish_reconfigure) (if_false {b = ltb l.retry 1000} _ _ (ground arith))

-- The results of calls one after the other, and the state after them; for each call, whether the
-- init event comes in its rounds.
abbrev pub calls : List (ℕ → Bool) → Link → Option (List Bool × Link)
calls [] l = some ([], l)
calls (arrives ∷ more) l =
    transport_drv_reconfigure arrives l >>= λ r. calls more r.1 >>= λ rs. some (r.0 ∷ rs.0, rs.1)

-- `n` calls that all fail: one reset each, and the counter where it was.
abbrev pub AllFail : ℕ → Link → List Bool × Link → Type 0
AllFail n l r = (r.0 ≡ replicate n false) × (r.1.resets ≡ l.resets + n) × (r.1.retry ≡ l.retry)

calls-AllFail :
    (more : List (ℕ → Bool)) (l : Link)
    → l.transport_state < 2
    → 1000 ≤ l.retry
    → Ensures (AllFail (length more) l) (calls more l)
calls-AllFail [] l down spent = (([], l), refl, (refl, omega arith, refl))
calls-AllFail (arrives ∷ more) l down spent =
    let l1 : Link = record l { resets = suc l.resets; transport_state = 1 } in
    let (r, e, p) = calls-AllFail more l1 (omega arith) spent in
    (
      (false ∷ r.0, r.1),
      ap (λ m. m >>= λ r. calls more r.1 >>= λ rs. some (r.0 ∷ rs.0, rs.1))
            (stuck arrives l down spent)
          ∙ ap (λ m. m >>= λ rs. some (false ∷ rs.0, rs.1)) e,
      (ap (λ t. false ∷ t) p.0, p.1 ∙ omega arith, p.2),
    )

-- After a call that has failed, any number of further calls, between which no init event is
-- handled, all fail, whatever would come in the rounds of a wait: each resets the slave, and ends
-- before the first round, since the retry counter stays at its limit.
pub retry_stuck :
    (arrives : ℕ → Bool) (more : List (ℕ → Bool)) (l l' : Link)
    → transport_drv_reconfigure arrives l ≡ some (false, l')
    → Ensures
        (λ r.
          (r.0 ≡ replicate (length more) false)
          × (r.1.resets ≡ l'.resets + length more)
          × (r.1.retry ≡ l'.retry))
        (calls more l')
unfolding Failed
retry_stuck arrives more l l' e =
    let f =
      After-some Failed (transport_drv_reconfigure arrives l) (reconfigure-Failed arrives l) e in
    calls-AllFail more l' (f refl).0 (f refl).1
