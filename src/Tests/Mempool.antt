-- ===== src/Tests/Mempool.antt =====
-- A pool of small blocks: a block is taken, given back and taken again.
use mathlib.Core.Option.{none-ne-some}
use rt_thread_esp_hosted.Common.{
  ℕ, ◌≡◌, refl, true, false, some, none, Option, List, [], ◌∷◌, arith, Ensures, Buffer, replicate,
  length-replicate, length, sym, ap, ◌∙◌,
}
use rt_thread_esp_hosted.Port.{Allocator, IsAllocator}
use rt_thread_esp_hosted.Mempool.{
  Mempool, mempool_aligned, aligned_block, init_mempool, mempool_create, mempool_destroy,
  destroy_loop, take_block, clear, mempool_alloc, insert_head, mempool_free,
}
use rt_thread_esp_hosted.Mempool.Memset.{
  Fits, FitsPool, AllocOk, mempool_alloc_lem, Belongs, mempool_free-FitsPool,
}
use rt_thread_esp_hosted.Mempool.Ownership.{
  Held, SpecReach, World, IsUnique, Reach, here, next, alloc, free, created, hold, give_back,
  idents, free_blocks,
}
use rt_thread_esp_hosted.Mempool.Ownership.Refines.{mempool_refines}

-- An allocator that gives a block of nines at an address.
abbrev block_at : ℕ → Allocator
block_at a n = some (record { ident = a; bytes = replicate n 9 })

size_of : Option Buffer → ℕ
size_of none = 0
size_of (some b) = length b.bytes

nines-IsAllocator : (a : ℕ) → IsAllocator (block_at a)
unfolding size_of
nines-IsAllocator a = record {
  sized = λ n b e. sym (ap {B = ℕ} size_of e) ∙ length-replicate {A = ℕ} n 9;
}

abbrev pool : Mempool
pool = record { ident = 4096; head = []; block_size = 64 }

-- A pool for blocks of 8 bytes.
creates : mempool_create true (block_at 4096) (block_at 0) 8 [] ≡ (some pool, [])
unfolding mempool_create aligned_block init_mempool mempool_aligned
creates = refl

-- A block at an address that is not aligned is exchanged.
creates_again : mempool_create true (block_at 100) (block_at 4096) 8 [] ≡ (some pool, 100 ∷ [])
unfolding mempool_create aligned_block init_mempool mempool_aligned
creates_again = refl

pool-FitsPool : FitsPool (some pool)
unfolding FitsPool Fits
pool-FitsPool = (omega arith, tt)

mempool_alloc_lem_example :
    Ensures (AllocOk 20 true) (mempool_alloc true (block_at 8192) (some pool) 20 true)
mempool_alloc_lem_example =
    mempool_alloc_lem true (block_at 8192) (some pool) 20 true (nines-IsAllocator 8192)
      (omega arith) pool-FitsPool

abbrev block : Buffer
block = record { ident = 8192; bytes = replicate 128 9 }

-- The block while it is in the pool, after the pointer has been written into it.
abbrev free_block : Buffer
free_block = record { ident = 8192; bytes = 0 ∷ 0 ∷ 0 ∷ 0 ∷ replicate 124 9 }

abbrev no_link : List ℕ
no_link = 0 ∷ 0 ∷ 0 ∷ 0 ∷ []

belongs : Belongs (some pool) (some block)
unfolding Belongs
belongs = (omega arith, omega arith)

mempool_free-FitsPool_example :
    Ensures (λ r. FitsPool r.0) (mempool_free true no_link (some pool) (some block) [])
mempool_free-FitsPool_example =
    mempool_free-FitsPool true no_link (some pool) (some block) [] refl pool-FitsPool belongs

abbrev pool_after : Mempool
pool_after = record pool { head = free_block ∷ [] }

-- The freed block is given again, and the pool is destroyed with it.
reuses :
    mempool_alloc true (λ n. none) (some pool_after) 64 false ≡ some (some free_block, some pool)
unfolding mempool_alloc take_block clear
reuses = refl

destroys : mempool_destroy true (some pool_after) [] ≡ 4096 ∷ 8192 ∷ []
unfolding mempool_destroy destroy_loop
destroys = refl

abbrev world : Option Mempool → Held → World
world mp held = record { mp = mp; held = held; heap = [] }

calls : Reach true (created true (block_at 4096) (block_at 0) 8 []) (world (some pool) (8192 ∷ []))
unfolding created mempool_create aligned_block init_mempool mempool_aligned mempool_alloc take_block
    clear mempool_free insert_head free_blocks idents hold give_back
calls =
    next
      (next
        (next here (
          alloc (world (some pool) []) (block_at 8192) 10 false (some block, some pool)
            (λ n b e. (refl, refl)) refl))
        (free (world (some pool) (8192 ∷ [])) no_link block (some pool_after, []) refl refl))
      (alloc (world (some pool_after) []) (λ n. none) 64 false (some free_block, some pool)
        (λ n b e. absurd (none-ne-some _ e)) refl)

mempool_refines_example : IsUnique (world (some pool) (8192 ∷ [])) × SpecReach [] (8192 ∷ [])
mempool_refines_example =
    mempool_refines true (block_at 4096) (block_at 0) 8 [] (world (some pool) (8192 ∷ [])) calls
