-- ===== src/Mempool.antt =====
-- The pool of blocks, esp-hosted/host/drivers/mempool/mempool.c, in both builds: `use_mempool`
-- says whether CONFIG_USE_MEMPOOL is defined. The lock around the list is left out, and a call
-- is one step.
pub mod Memset
pub mod Ownership
use rt_thread_esp_hosted.Common.{
  ℕ, ◌+◌, ◌-◌, ◌%◌, ◌^◌, Bool, true, false, Option, none, some, List, [], ◌∷◌, ◌++◌, ◌>>=◌, ltb,
  ◌==◌, if◌then◌else◌, Buffer, Heap, copy_to, replicate,
}
use rt_thread_esp_hosted.Port.{Allocator}

-- `struct mempool`; `head` holds the free blocks, the last freed first.
pub record Mempool : Type 0 where
  pub ident : ℕ
  pub head : List Buffer
  pub block_size : ℕ

-- MEMPOOL_ALIGNED, in 32 bits
unfoldable pub mempool_aligned : ℕ → ℕ
mempool_aligned val = (val + 64 - val % 64) % 2 ^ 32

abbrev pub sizeof_mempool : ℕ
sizeof_mempool = 12

-- The block for `struct mempool`: one whose address is not aligned is freed, and another is
-- taken as it is.
unfoldable pub aligned_block : Allocator → Option Buffer → Heap → Option Buffer × Heap
aligned_block malloc none heap = (none, heap)
aligned_block malloc (some new) heap =
    if new.ident % 64 == 0
    then (some new, heap)
    else (malloc (mempool_aligned sizeof_mempool), new.ident ∷ heap)

unfoldable pub init_mempool : ℕ → Option Buffer × Heap → Option Mempool × Heap
init_mempool block_size (none, heap) = (none, heap)
init_mempool block_size (some new, heap) =
    (some (record { ident = new.ident; head = []; block_size = mempool_aligned block_size }), heap)

-- `mempool_create`, with what two calls of malloc answer; `none` is NULL.
unfoldable pub mempool_create : Bool → Allocator → Allocator → ℕ → Heap → Option Mempool × Heap
mempool_create false malloc malloc' block_size heap = (none, heap)
mempool_create true malloc malloc' block_size heap =
    init_mempool block_size (aligned_block malloc' (malloc (mempool_aligned sizeof_mempool)) heap)

-- The loop of `mempool_destroy`
unfoldable pub destroy_loop : List Buffer → Heap → Heap
destroy_loop [] heap = heap
destroy_loop (node ∷ head) heap = destroy_loop head (node.ident ∷ heap)

unfoldable pub mempool_destroy : Bool → Option Mempool → Heap → Heap
mempool_destroy false mp heap = heap
mempool_destroy true none heap = heap
mempool_destroy true (some mp) heap = mp.ident ∷ destroy_loop mp.head heap

-- The first free block, or a new one.
unfoldable pub take_block : Allocator → List Buffer → Mempool → Option Buffer × Mempool
take_block malloc [] mp = (malloc (mempool_aligned mp.block_size), mp)
take_block malloc (buf ∷ head) mp = (some buf, record mp { head = head })

-- The end of `mempool_alloc`: `memset` of a block that was got.
unfoldable pub clear : Bool → ℕ → Option Buffer → Option (Option Buffer)
clear need_memset nbytes none = some none
clear false nbytes (some buf) = some (some buf)
clear true nbytes (some buf) = copy_to buf.bytes 0 (replicate nbytes 0) >>= λ bytes.
    some (some (record { ident = buf.ident; bytes = bytes }))

-- `mempool_alloc`: the block, or `none` for NULL, and the pool.
unfoldable pub mempool_alloc :
    Bool → Allocator → Option Mempool → ℕ → Bool → Option (Option Buffer × Option Mempool)
mempool_alloc false malloc mp nbytes need_memset =
    clear need_memset nbytes (malloc (mempool_aligned nbytes)) >>= λ buf. some (buf, mp)
mempool_alloc true malloc none nbytes need_memset = some (none, none)
mempool_alloc true malloc (some mp) nbytes need_memset =
    let got = take_block malloc mp.head mp in
    if ltb mp.block_size nbytes
    then some (none, some mp)
    else (clear need_memset nbytes got.0 >>= λ buf. some (buf, some got.1))

-- SLIST_INSERT_HEAD writes the pointer to the block that was first, four bytes, into the block.
unfoldable pub insert_head : List ℕ → Buffer → Mempool → Option Mempool
insert_head link mem mp = copy_to mem.bytes 0 link >>= λ bytes.
    some (record mp { head = record { ident = mem.ident; bytes = bytes } ∷ mp.head })

-- `mempool_free`
unfoldable pub mempool_free :
    Bool → List ℕ → Option Mempool → Option Buffer → Heap → Option (Option Mempool × Heap)
mempool_free use_mempool link mp none heap = some (mp, heap)
mempool_free false link mp (some mem) heap = some (mp, mem.ident ∷ heap)
mempool_free true link none (some mem) heap = some (none, heap)
mempool_free true link (some mp) (some mem) heap =
    insert_head link mem mp >>= λ mp'. some (some mp', heap)
