-- ===== src/Mempool/Ownership.antt =====
-- Who has the blocks of the pool of esp-hosted/host/drivers/mempool/mempool.c. The specification
-- forgets the pool: its state is what the clients hold.
pub mod Counts
pub mod Refines
use mathlib.Core.Path.{subst}
use rt_thread_esp_hosted.Common.{
  ℕ, suc, ◌+◌, ◌≤◌, ◌≡◌, refl, ap, ◌∙◌, sym, Bool, true, false, Option, none, some, List, [], ◌∷◌,
  ◌>>=◌, ltb, ◌==◌, if◌then◌else◌, Buffer, Heap, frees, arith, After, if-After, After-some,
  bind-After, then-After, copy_to, replicate, Bool-cases, inl, inr, ◌⊎◌,
}
use rt_thread_esp_hosted.Port.{Allocator}
use rt_thread_esp_hosted.Mempool.{
  Mempool, init_mempool, mempool_create, mempool_aligned, take_block, clear, mempool_alloc,
  insert_head, mempool_free,
}

-- Blocks are counted by `frees`, which counts a number in a list.
abbrev pub Held : Type 0
Held = List ℕ

unfoldable pub give_back : ℕ → Held → Held
give_back b [] = []
give_back b (x ∷ held) = let rest = give_back b held in if b == x then held else x ∷ rest

-- What a memory manager promises: a request takes a block that nobody holds, or fails and
-- changes nothing; a block that is freed is no longer held.
pub data Spec : Held → Held → Type 0 where
  take : (held : Held) (b : ℕ) → frees b held ≡ 0 → Spec held (b ∷ held)
  refuse : (held : Held) → Spec held held
  give : (held : Held) (b : ℕ) → frees b held ≡ 1 → Spec held (give_back b held)

-- The pool, the blocks that its clients hold, and the heap.
pub record World : Type 0 where
  pub mp : Option Mempool
  pub held : Held
  pub heap : Heap

unfoldable pub idents : List Buffer → List ℕ
idents [] = []
idents (b ∷ head) = b.ident ∷ idents head

unfoldable pub free_blocks : Option Mempool → List ℕ
free_blocks none = []
free_blocks (some mp) = idents mp.head

-- A block that malloc gives is not in the pool and not held.
abbrev pub IsFresh : Allocator → Option Mempool → Held → Type 0
IsFresh malloc mp held =
    (n : ℕ) (b : Buffer)
    → malloc n ≡ some b
    → (frees b.ident (free_blocks mp) ≡ 0) × (frees b.ident held ≡ 0)

unfoldable pub hold : Option Buffer → Held → Held
hold none held = held
hold (some b) held = b.ident ∷ held

-- A client's calls: any request, and freeing a block that it holds.
pub data Step (use_mempool : Bool) : World → World → Type 0 where
  alloc :
      (w : World) (malloc : Allocator) (nbytes : ℕ) (need_memset : Bool)
      (r : Option Buffer × Option Mempool)
      → IsFresh malloc w.mp w.held
      → mempool_alloc use_mempool malloc w.mp nbytes need_memset ≡ some r
      → Step use_mempool w (record w { mp = r.1; held = hold r.0 w.held })
  free :
      (w : World) (link : List ℕ) (b : Buffer) (r : Option Mempool × Heap)
      → frees b.ident w.held ≡ 1
      → mempool_free use_mempool link w.mp (some b) w.heap ≡ some r
      → Step use_mempool w (record { mp = r.0; held = give_back b.ident w.held; heap = r.1 })

unfoldable pub IsApart : List ℕ → Held → Type 0
IsApart pool held = (b : ℕ) → frees b pool + frees b held ≤ 1

-- No block is at two places.
unfoldable pub IsUnique : World → Type 0
unfolding IsApart
IsUnique w = IsApart (free_blocks w.mp) w.held

-- Any sequence of calls, and of steps of the specification.
pub data Reach (use_mempool : Bool) (w₀ : World) : World → Type 0 where
  here : Reach use_mempool w₀ w₀
  next : {w w' : World} → Reach use_mempool w₀ w → Step use_mempool w w' → Reach use_mempool w₀ w'

pub data SpecReach (held₀ : Held) : Held → Type 0 where
  start : SpecReach held₀ held₀
  after : {held held' : Held} → SpecReach held₀ held → Spec held held' → SpecReach held₀ held'

-- The pool as `mempool_create` leaves it, before any call.
unfoldable pub created : Bool → Allocator → Allocator → ℕ → Heap → World
created use_mempool malloc malloc' block_size heap =
    let r = mempool_create use_mempool malloc malloc' block_size heap in
    record { mp = r.0; held = []; heap = r.1 }
