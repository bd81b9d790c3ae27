-- ===== src/Rpc/Table/Laws.antt =====
-- The laws of the response tables: a table is a finite map from the uids that are not 0.
use rt_thread_esp_hosted.Common.{
  ℕ, ◌≡◌, refl, ◌≢◌, none, some, List, [], ◌∷◌, arith, if◌then◌else◌, ◌==◌, After, if-After,
  then-After, both-After, Bool-cases, inl, inr, Runs, bind-Runs,
}
use rt_thread_esp_hosted.Rpc.Table.{Slot, find_uid, set_slot, clear_uid}

-- No uid but 0 stands in two places.
abbrev pub Unique : List Slot → Type 0
Unique [] = Unit {0}
Unique (x ∷ table) = (x.uid ≢ 0 → find_uid x.uid table ≡ none) × Unique table

-- A registered request is found under its uid, and the others as before.
pub find_uid-set_slot :
    (new : Slot) (t : List Slot) (uid : ℕ)
    → uid ≢ 0
    → find_uid new.uid t ≡ none
    → After
        (λ t'. find_uid uid t' ≡ (if new.uid == uid then some new else find_uid uid t))
        (set_slot new t)
unfolding find_uid set_slot
find_uid-set_slot new [] uid nz f = tt
find_uid-set_slot new (x ∷ t) uid nz f =
    if-After _ (x.uid == 0) _ _ (λ e. ground arith)
      (λ e.
        then-After (λ t'. find_uid uid t' ≡ (if new.uid == uid then some new else find_uid uid t)) _
          (set_slot new t) _ (find_uid-set_slot new t uid nz (ground arith)) (λ t' h. ground arith))

-- After a request has been taken off, nothing is found under its uid, and the others as before.
pub find_uid-clear_uid :
    (u : ℕ) (t : List Slot) (uid : ℕ)
    → uid ≢ 0
    → u ≢ 0
    → Unique t
    → find_uid uid (clear_uid u t) ≡ (if u == uid then none else find_uid uid t)
unfolding find_uid clear_uid
find_uid-clear_uid u [] uid nz nu h = ground arith
find_uid-clear_uid u (x ∷ t) uid nz nu h = ground (arith, find_uid-clear_uid u t uid nz nu h.1, h.0)

pub Unique-set_slot :
    (new : Slot) (t : List Slot)
    → find_uid new.uid t ≡ none
    → Unique t
    → After Unique (set_slot new t)
unfolding find_uid set_slot
Unique-set_slot new [] f h = tt
Unique-set_slot new (x ∷ t) f h =
    if-After Unique (x.uid == 0) _ _ (λ e. (λ nz. ground arith, h.1))
      (λ e.
        then-After
          (λ t'.
            (find_uid x.uid t' ≡ (if new.uid == x.uid then some new else find_uid x.uid t))
            × Unique t')
          Unique (set_slot new t) _
          (both-After _ _ (set_slot new t)
            (find_uid-set_slot new t x.uid (ground arith) (ground arith))
            (Unique-set_slot new t (ground arith) h.1))
          (λ t' k. (λ nz. ground (arith, h.0 nz), k.1)))

pub Unique-clear_uid : (u : ℕ) (t : List Slot) → u ≢ 0 → Unique t → Unique (clear_uid u t)
unfolding clear_uid
Unique-clear_uid u [] nu h = tt
Unique-clear_uid u (x ∷ t) nu h = elim (Bool-cases (x.uid == u)) [
  | inl e ↦ rw e (λ nz. absurd (nz refl), h.1)
  | inr e ↦ rw e (
    λ nz. ground (arith, find_uid-clear_uid u t x.uid nz nu h.1, h.0 nz),
    Unique-clear_uid u t nu h.1,
  )
]

-- A place is found exactly when one is free.
pub set_slot-none : (new : Slot) (t : List Slot) → find_uid 0 t ≡ none → set_slot new t ≡ none
unfolding find_uid set_slot
set_slot-none new [] h = refl
set_slot-none new (x ∷ t) h = ground (arith, set_slot-none new t)

pub set_slot-Runs :
    (new : Slot) (t : List Slot) {x : Slot} → find_uid 0 t ≡ some x → Runs (set_slot new t)
unfolding find_uid set_slot
set_slot-Runs new [] h = cc
set_slot-Runs new (x ∷ t) h = elim (Bool-cases (x.uid == 0)) [
  | inl e ↦ rw e (_, refl)
  | inr e ↦ rw e (bind-Runs _ _ (set_slot-Runs new t (rw e at h)) λ t'. (_, refl))
]
