-- ===== src/Serial/Tlv/Safe.antt =====
-- `parse_tlv` stays inside the 12 bytes that it is given, whatever they hold.
use rt_thread_esp_hosted.Common.{
  ℕ, ◌+◌, ◌*◌, ◌^◌, ◌%◌, ◌≤◌, true, false, none, some, List, [], ◌∷◌, arith, length, Runs,
  bind-Runs, if-Runs, load-Runs, refl, ◌==◌, ◌&&◌,
}
use rt_thread_esp_hosted.Serial.Tlv.{
  strncmp_eq, load_len, parse_data, parse_tlv, rpc_ep_name_rsp, rpc_ep_name_evt,
}

strncmp_eq-Runs :
    (buf : List ℕ) (off : ℕ) (name : List ℕ)
    → off + length name ≤ length buf
    → Runs (strncmp_eq buf off name)
unfolding strncmp_eq
strncmp_eq-Runs buf off [] h = (true, refl)
strncmp_eq-Runs buf off (c ∷ name) h =
    bind-Runs _ _ (load-Runs buf off (omega arith))
      λ x. if-Runs (x == c) _ _ (strncmp_eq-Runs buf (off + 1) name (omega arith)) (false, refl)

load_len-Runs : (buf : List ℕ) (off : ℕ) → off + 2 ≤ length buf → Runs (load_len buf off)
unfolding load_len
load_len-Runs buf off h = bind-Runs _ _ (load-Runs buf off (omega arith)) λ lo.
    bind-Runs _ _ (load-Runs buf (off + 1) (omega arith)) λ hi. ((hi * 2 ^ 8 + lo) % 2 ^ 16, refl)

parse_data-Runs : (buf : List ℕ) (off : ℕ) → off + 3 ≤ length buf → Runs (parse_data buf off)
unfolding parse_data
parse_data-Runs buf off h = bind-Runs _ _ (load-Runs buf off (omega arith)) λ t.
    if-Runs _ _ _ (bind-Runs _ _ (load_len-Runs buf (off + 1) (omega arith)) λ n. (some n, refl))
      (none, refl)

-- On a buffer of at least 12 bytes, whatever they are, `parse_tlv` ends without a read outside
-- it.
pub parse_tlv-Runs : (buf : List ℕ) → 12 ≤ length buf → Runs (parse_tlv buf)
unfolding parse_tlv
parse_tlv-Runs buf h = bind-Runs _ _ (load-Runs buf 0 (omega arith)) λ t.
    bind-Runs _ _ (if-Runs (t == 1) _ _ (load_len-Runs buf 1 (omega arith)) (0, refl)) λ n.
      if-Runs (t == 1 && n == 6) _ _
        (bind-Runs _ _ (strncmp_eq-Runs buf 3 rpc_ep_name_rsp (omega arith)) λ r.
          bind-Runs _ _
            (if-Runs r _ _ (true, refl) (strncmp_eq-Runs buf 3 rpc_ep_name_evt (omega arith)))
            λ k. if-Runs k _ _ (parse_data-Runs buf 9 (omega arith)) (none, refl))
        (none, refl)
