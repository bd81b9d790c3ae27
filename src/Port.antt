-- ===== src/Port.antt =====
-- Memory functions of the RT-Thread port, porting/port/source/os_wrapper.c. The kernel's
-- allocator is a parameter: what it answers for a size.
use rt_thread_esp_hosted.Common.{
  ℕ, ◌≡◌, Option, none, some, List, ◌∷◌, ◌++◌, length, Buffer, Heap, ◌>>=◌, slice, copy_to,
  if◌then◌else◌, ◌==◌,
}

-- `rt_malloc`: a block, or `none` for NULL.
abbrev pub Allocator : Type 0
Allocator = ℕ → Option Buffer

-- What it promises: a block has the size that was asked for.
pub record IsAllocator (malloc : Allocator) : Type 0 where
  pub sized : (n : ℕ) (b : Buffer) → malloc n ≡ some b → length b.bytes ≡ n

-- `hosted_realloc` of the block `mem`, behind which the memory holds the bytes `beyond`: the copy
-- takes `newsize` bytes whatever the size of `mem` is. The result is the pointer and the heap.
unfoldable pub hosted_realloc :
    Allocator → List ℕ → Buffer → ℕ → Heap → Option (Option Buffer × Heap)
hosted_realloc malloc beyond mem newsize heap =
    if newsize == 0 then some (none, mem.ident ∷ heap) else elim (malloc newsize) [
      | none ↦ some (none, heap)
      | some p ↦ slice (mem.bytes ++ beyond) 0 newsize >>= λ src. copy_to p.bytes 0 src >>= λ bytes.
          some (some (record { ident = p.ident; bytes = bytes }), mem.ident ∷ heap)
    ]
