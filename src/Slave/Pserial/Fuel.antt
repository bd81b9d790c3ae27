-- ===== src/Slave/Pserial/Fuel.antt =====
-- The fuel of the loop of `rpc_req_handler` in esp-hosted/slave/main/protocomm_pserial.c: every
-- round reads 3 bytes or ends it.
use rt_thread_esp_hosted.Common.{
  ℕ, zero, suc, ◌+◌, ◌<◌, ◌≡◌, refl, Option, none, some, List, [], ◌∷◌, arith, ◌==◌, length,
  length-drop, After, if-After, bind-After,
}
use rt_thread_esp_hosted.Adapter.Header.{load16}
use rt_thread_esp_hosted.Slave.Pserial.{
  Tlv, Parsed, LoopEnd, ended, parse_tlv, take_tlv, parse_loop, next_round, one_round,
}

-- The rest of a buffer behind a field is shorter.
abbrev Shorter : List ℕ → Option Tlv → Type 0
Shorter b none = Unit {0}
Shorter b (some t) = length t.buf < length b

parse_tlv-Shorter : (b : List ℕ) (total_len : ℕ) → After (Shorter b) (parse_tlv b total_len)
unfolding parse_tlv
parse_tlv-Shorter [] total_len = if-After (Shorter []) (total_len == 0) _ none (λ e. tt) (λ e. tt)
parse_tlv-Shorter (x ∷ b) total_len =
    if-After (Shorter (x ∷ b)) (total_len == 0) _ _ (λ e. tt)
      (λ e.
        bind-After (Shorter (x ∷ b)) (load16 (x ∷ b) 1) _
          λ len. omega (arith, length-drop (3 + len) (x ∷ b)))

-- It ends, and not for want of fuel.
abbrev pub Ends : LoopEnd → Type 0
Ends e = (r : Option (Option Parsed)) × (e ≡ ended r)

-- A round ends if what goes on with a shorter buffer does.
module _ (b : List ℕ) (f : Tlv → Parsed → LoopEnd)
    (ends : (t : Tlv) (q : Parsed) → length t.buf < length b → Ends (f t q)) where
  after_field :
      (t : Tlv) (o : Option (Option Parsed)) → length t.buf < length b → Ends (next_round f t o)
  after_field t none s = (none, refl)
  after_field t (some none) s = (some none, refl)
  after_field t (some (some q)) s = ends t q s

  round_lem : (p : Parsed) (o : Option (Option Tlv)) → After (Shorter b) o → Ends (one_round f p o)
  round_lem p none s = (none, refl)
  round_lem p (some none) s = (some (some p), refl)
  round_lem p (some (some t)) s = after_field t (take_tlv t p) s

-- On any buffer, count and variables, with more fuel than the buffer has bytes, the loop ends and
-- does not run out of fuel: it gives its variables, an ESP_FAIL, or a read outside the buffer. In
-- `rpc_req_handler` it has one unit more than the request has bytes.
pub parse_loop-ended :
    (n : ℕ) (b : List ℕ) (total_len : ℕ) (p : Parsed)
    → length b < n
    → (r : Option (Option Parsed)) × (parse_loop n b total_len p ≡ ended r)
unfolding parse_loop
parse_loop-ended zero b total_len p h = absurd (omega arith)
parse_loop-ended (suc n) b total_len p h =
    round_lem b (λ t q. parse_loop n t.buf t.total_len q)
      (λ t q s. parse_loop-ended n t.buf t.total_len q (omega (arith, s))) p (parse_tlv b total_len)
      (parse_tlv-Shorter b total_len)
