-- ===== src/Mempool/Memset.antt =====
-- Sizes and contents of the blocks of esp-hosted/host/drivers/mempool/mempool.c.
use mathlib.Core.Bool.{false≢true}
use rt_thread_esp_hosted.Common.{
  sym, length-append, length-drop, if-Ensures, Ensures, ℕ, ◌+◌, ◌^◌, ◌≤◌, ◌<◌, ◌≡◌, refl, Bool,
  true, false, Option, none, some, List, [], ◌∷◌, ◌++◌, ◌>>=◌, ltb, Buffer, Heap, copy_to,
  copy_to_lem, replicate, length, length-replicate, take, take-append, drop, arith,
}
use rt_thread_esp_hosted.Port.{Allocator, IsAllocator}
use rt_thread_esp_hosted.Mempool.{
  Mempool, mempool_aligned, take_block, clear, mempool_alloc, insert_head, mempool_free,
}

-- Every block of the pool has room for `block_size` bytes.
unfoldable pub Fits : ℕ → List Buffer → Type 0
Fits n [] = Unit {0}
Fits n (b ∷ head) = (n ≤ length b.bytes) × Fits n head

pub mempool_aligned-gt : (n : ℕ) → n + 64 < 2 ^ 32 → n < mempool_aligned n
unfolding mempool_aligned
mempool_aligned-gt n h = omega arith

-- What a caller of `mempool_alloc` gets: NULL, or `n` bytes at least, which are zero if it asked
-- for that.
unfoldable pub IsCleared : ℕ → Bool → Option Buffer → Type 0
IsCleared n need_memset none = Unit {0}
IsCleared n need_memset (some b) =
    (n ≤ length b.bytes) × (need_memset ≡ true → take n b.bytes ≡ replicate n 0)

unfoldable pub FitsPool : Option Mempool → Type 0
FitsPool none = Unit {0}
FitsPool (some mp) = (mp.block_size + 64 < 2 ^ 32) × Fits mp.block_size mp.head

Roomy : ℕ → Option Buffer → Type 0
Roomy n none = Unit {0}
Roomy n (some b) = n ≤ length b.bytes

malloc-Roomy : (malloc : Allocator) (a : IsAllocator malloc) (m n : ℕ) → m ≤ n → Roomy m (malloc n)
unfolding Roomy
malloc-Roomy malloc a m n h = go (malloc n) (λ b e. a.sized n b e)
  where
    go : (o : Option Buffer) → ((b : Buffer) → o ≡ some b → length b.bytes ≡ n) → Roomy m o
    go none f = tt
    go (some b) f = let e : length b.bytes ≡ n = f b refl in omega (arith, e)

cleared : (n : ℕ) (xs : List ℕ) → take n (replicate n 0 ++ xs) ≡ replicate n 0
cleared n xs = take-append (replicate n 0) xs n (sym (length-replicate n 0))

clear-IsCleared :
    (need_memset : Bool) (n : ℕ) (buf : Option Buffer)
    → Roomy n buf
    → Ensures (IsCleared n need_memset) (clear need_memset n buf)
unfolding clear IsCleared Roomy
clear-IsCleared need_memset n none h = (none, refl, tt)
clear-IsCleared false n (some b) h =
    (some b, refl, (h, λ (e : false ≡ true). absurd (false≢true e)))
clear-IsCleared true n (some b) h =
    let r : length {A = ℕ} (replicate n 0) ≡ n = length-replicate n 0 in
    let rest = drop (0 + length {A = ℕ} (replicate n 0)) b.bytes in
    (
      some (record { ident = b.ident; bytes = replicate n 0 ++ rest }),
      rw (copy_to_lem b.bytes 0 (replicate n 0) (omega (arith, r))) refl,
      (omega (arith, length-append (replicate n 0) rest, r), λ e. cleared n rest),
    )

take_block-Roomy :
    (malloc : Allocator) (a : IsAllocator malloc) (mp : Mempool) (head : List Buffer)
    → mp.block_size + 64 < 2 ^ 32
    → Fits mp.block_size head
    → Roomy mp.block_size (take_block malloc head mp).0
unfolding take_block Fits Roomy
take_block-Roomy malloc a mp [] s f =
    malloc-Roomy malloc a mp.block_size (mempool_aligned mp.block_size)
      (let l = mempool_aligned-gt mp.block_size s in omega arith)
take_block-Roomy malloc a mp (b ∷ head) s f = f.0

take_block-FitsPool :
    (malloc : Allocator) (mp : Mempool) (head : List Buffer)
    → mp.block_size + 64 < 2 ^ 32
    → Fits mp.block_size head
    → Fits mp.block_size mp.head
    → FitsPool (some (take_block malloc head mp).1)
unfolding take_block Fits FitsPool
take_block-FitsPool malloc mp [] s f g = (s, g)
take_block-FitsPool malloc mp (b ∷ head) s f g = (s, f.1)

Roomy-le : (m n : ℕ) (o : Option Buffer) → m ≤ n → Roomy n o → Roomy m o
unfolding Roomy
Roomy-le m n none h r = tt
Roomy-le m n (some b) h r = omega arith

none-IsCleared : (n : ℕ) (need_memset : Bool) → IsCleared n need_memset none
unfolding IsCleared
none-IsCleared n need_memset = tt

FitsPool-some :
    (mp : Mempool) → FitsPool (some mp) → (mp.block_size + 64 < 2 ^ 32) × Fits mp.block_size mp.head
unfolding FitsPool
FitsPool-some mp f = f

-- What `mempool_alloc` ensures.
abbrev pub AllocOk : ℕ → Bool → Option Buffer × Option Mempool → Type 0
AllocOk nbytes need_memset r = IsCleared nbytes need_memset r.0 × FitsPool r.1

then-AllocOk :
    (need_memset : Bool) (nbytes : ℕ) (buf : Option Buffer) (mp : Option Mempool)
    → Roomy nbytes buf
    → FitsPool mp
    → Ensures (AllocOk nbytes need_memset) (clear need_memset nbytes buf >>= λ b. some (b, mp))
then-AllocOk need_memset nbytes buf mp r f =
    let (b, e, c) = clear-IsCleared need_memset nbytes buf r in ((b, mp), rw e refl, (c, f))

-- In both builds and on every branch, with a pool whose blocks all have room for its block size
-- and an allocator whose blocks have the size that was asked for: `mempool_alloc` runs without a
-- write past a block's end, what it returns is NULL or a block of at least `nbytes` bytes, all
-- zero if that was asked for, and the pool keeps its blocks' room.
pub mempool_alloc_lem :
    (use_mempool : Bool) (malloc : Allocator) (mp : Option Mempool) (nbytes : ℕ)
    (need_memset : Bool)
    → IsAllocator malloc
    → nbytes + 64 < 2 ^ 32
    → FitsPool mp
    → Ensures (AllocOk nbytes need_memset) (mempool_alloc use_mempool malloc mp nbytes need_memset)
unfolding mempool_alloc
mempool_alloc_lem false malloc mp nbytes need_memset a n f =
    then-AllocOk need_memset nbytes _ mp
      (malloc-Roomy malloc a nbytes (mempool_aligned nbytes)
        (let l = mempool_aligned-gt nbytes n in omega arith))
      f
mempool_alloc_lem true malloc none nbytes need_memset a n f =
    ((none, none), refl, (none-IsCleared nbytes need_memset, f))
mempool_alloc_lem true malloc (some mp) nbytes need_memset a n f =
    if-Ensures (AllocOk nbytes need_memset) (ltb mp.block_size nbytes) (some (none, some mp))
      (clear need_memset nbytes got.0 >>= λ buf. some (buf, some got.1))
      (λ e. ((none, some mp), refl, (none-IsCleared nbytes need_memset, f)))
      λ e.
        then-AllocOk need_memset nbytes got.0 (some got.1)
          (Roomy-le nbytes mp.block_size got.0 (ground arith)
            (take_block-Roomy malloc a mp mp.head (FitsPool-some mp f).0 (FitsPool-some mp f).1))
          (take_block-FitsPool malloc mp mp.head (FitsPool-some mp f).0 (FitsPool-some mp f).1
            (FitsPool-some mp f).1)
  where
    got : Option Buffer × Mempool
    got = take_block malloc mp.head mp

-- A block that may be given to the pool has room for its block size and for a pointer.
unfoldable pub Belongs : Option Mempool → Option Buffer → Type 0
Belongs none mem = Unit {0}
Belongs (some mp) none = Unit {0}
Belongs (some mp) (some b) = (4 ≤ length b.bytes) × (mp.block_size ≤ length b.bytes)

linked :
    (xs link : List ℕ)
    → length link ≡ 4
    → 4 ≤ length xs
    → Ensures (λ ys. length ys ≡ length xs) (copy_to xs 0 link)
linked xs link l h =
    let rest = drop (0 + length link) xs in
    (
      link ++ rest,
      copy_to_lem xs 0 link (omega arith),
      omega (arith, length-append link rest, length-drop (0 + length link) xs),
    )

-- In both builds, `mempool_free` of NULL or of a block that belongs to the pool runs, and the
-- pool's blocks keep their room.
pub mempool_free-FitsPool :
    (use_mempool : Bool) (link : List ℕ) (mp : Option Mempool) (mem : Option Buffer) (heap : Heap)
    → length link ≡ 4
    → FitsPool mp
    → Belongs mp mem
    → Ensures (λ r. FitsPool r.0) (mempool_free use_mempool link mp mem heap)
unfolding mempool_free insert_head Belongs FitsPool Fits
mempool_free-FitsPool use_mempool link mp none heap l f h = ((mp, heap), refl, f)
mempool_free-FitsPool false link mp (some mem) heap l f h = ((mp, mem.ident ∷ heap), refl, f)
mempool_free-FitsPool true link none (some mem) heap l f h = ((none, heap), refl, f)
mempool_free-FitsPool true link (some mp) (some mem) heap l f h =
    let (ys, e, k) = linked mem.bytes link l h.0 in
    (
      (some (record mp { head = record { ident = mem.ident; bytes = ys } ∷ mp.head }), heap),
      rw e refl,
      (f.0, (omega (arith, h.1, k), f.1)),
    )
