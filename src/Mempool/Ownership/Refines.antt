-- ===== src/Mempool/Ownership/Refines.antt =====
-- The pool of esp-hosted/host/drivers/mempool/mempool.c implements the specification.
use mathlib.Core.Path.{subst}
use rt_thread_esp_hosted.Common.{
  ℕ, suc, ◌≡◌, refl, sym, Bool, true, false, Option, none, some, List, [], ◌∷◌, ◌>>=◌, ltb, ◌==◌,
  if◌then◌else◌, Buffer, Heap, frees, arith, After, if-After, After-some, bind-After, then-After,
  copy_to, replicate,
}
use rt_thread_esp_hosted.Port.{Allocator}
use rt_thread_esp_hosted.Mempool.{
  Mempool, init_mempool, mempool_create, mempool_aligned, take_block, clear, mempool_alloc,
  insert_head, mempool_free,
}
use rt_thread_esp_hosted.Mempool.Ownership.{
  Held, give_back, Spec, take, refuse, give, World, idents, free_blocks, IsFresh, hold, Step, alloc,
  free, IsApart, IsUnique, Reach, here, next, SpecReach, start, after, created,
}
use rt_thread_esp_hosted.Mempool.Ownership.Counts.{
  frees-give_back, fresh_count, less, moved, move_count, alone,
}

-- What a request leaves, in the pool and with the clients.
Kept : Held → List ℕ → Held → Type 0
Kept held pool held' = IsApart pool held' × Spec held held'

clear-hold :
    (need_memset : Bool) (n : ℕ) (buf : Option Buffer) (held : Held)
    → After (λ o. hold o held ≡ hold buf held) (clear need_memset n buf)
unfolding clear hold
clear-hold need_memset n none held = refl
clear-hold false n (some b) held = refl
clear-hold true n (some b) held =
    bind-After (λ o. hold o held ≡ b.ident ∷ held) (copy_to b.bytes 0 (replicate n 0)) _
      λ bytes. refl

then-Kept :
    (need_memset : Bool) (n : ℕ) (buf : Option Buffer) (mp : Option Mempool) (held : Held)
    → Kept held (free_blocks mp) (hold buf held)
    → After
        (λ (r : Option Buffer × Option Mempool). Kept held (free_blocks r.1) (hold r.0 held))
        (clear need_memset n buf >>= λ b. some (b, mp))
then-Kept need_memset n buf mp held k =
    then-After (λ o. hold o held ≡ hold buf held) _ (clear need_memset n buf) _
      (clear-hold need_memset n buf held) λ o e. subst (Kept held (free_blocks mp)) (sym e) k

fresh-Kept :
    (malloc : Allocator) (mp : Option Mempool) (held : Held) (n : ℕ)
    → IsFresh malloc mp held
    → IsApart (free_blocks mp) held
    → Kept held (free_blocks mp) (hold (malloc n) held)
unfolding IsApart Kept hold
fresh-Kept malloc mp held n f u = go (malloc n) (f n)
  where
    go :
        (o : Option Buffer)
        → ((b : Buffer)
            → o ≡ some b
            → (frees b.ident (free_blocks mp) ≡ 0) × (frees b.ident held ≡ 0))
        → Kept held (free_blocks mp) (hold o held)
    go none h = (u, refuse held)
    go (some b) h = (
      λ a. fresh_count a b.ident (free_blocks mp) held (h b refl).0 (h b refl).1 (u a),
      take held b.ident (h b refl).1,
    )

ident_count :
    (head : List Buffer) (b : Buffer) (a : ℕ)
    → frees a (idents (b ∷ head))
      ≡ (if a == b.ident then suc (frees a (idents head)) else frees a (idents head))
unfolding idents
ident_count head b a = refl

pooled-Kept :
    (b : Buffer) (head : List Buffer) (mp : Mempool) (held : Held)
    → IsApart (idents (b ∷ head)) held
    → Kept held (idents head) (b.ident ∷ held)
unfolding IsApart Kept idents
pooled-Kept b head mp held u = (
  λ a. move_count a b.ident (idents head) held (u a),
  take held b.ident (alone b.ident (idents head) held (u b.ident)),
)

take_block-Kept :
    (malloc : Allocator) (mp : Mempool) (head : List Buffer) (held : Held)
    → IsFresh malloc (some mp) held
    → IsApart (free_blocks (some mp)) held
    → head ≡ mp.head
    → Kept held
        (free_blocks (some (take_block malloc head mp).1))
        (hold (take_block malloc head mp).0 held)
unfolding take_block free_blocks hold
take_block-Kept malloc mp [] held f u e =
    fresh-Kept malloc (some mp) held (mempool_aligned mp.block_size) f u
take_block-Kept malloc mp (b ∷ head) held f u e =
    pooled-Kept b head mp held (subst (λ l. IsApart (idents l) held) (sym e) u)

alloc-Kept :
    (use_mempool : Bool) (malloc : Allocator) (mp : Option Mempool) (held : Held) (n : ℕ)
    (need_memset : Bool)
    → IsFresh malloc mp held
    → IsApart (free_blocks mp) held
    → After
        (λ (r : Option Buffer × Option Mempool). Kept held (free_blocks r.1) (hold r.0 held))
        (mempool_alloc use_mempool malloc mp n need_memset)
unfolding mempool_alloc Kept hold
alloc-Kept false malloc mp held n need_memset f u =
    then-Kept need_memset n (malloc (mempool_aligned n)) mp held
      (fresh-Kept malloc mp held (mempool_aligned n) f u)
alloc-Kept true malloc none held n need_memset f u = (u, refuse held)
alloc-Kept true malloc (some mp) held n need_memset f u =
    let got = take_block malloc mp.head mp in
    if-After _ (ltb mp.block_size n) (some (none, some mp))
      (clear need_memset n got.0 >>= λ buf. some (buf, some got.1)) (λ e. (u, refuse held))
      λ e.
        then-Kept need_memset n got.0 (some got.1) held
          (take_block-Kept malloc mp mp.head held f u refl)

free-Apart :
    (use_mempool : Bool) (link : List ℕ) (mp : Option Mempool) (b : Buffer) (heap : Heap)
    (held : Held)
    → frees b.ident held ≡ 1
    → IsApart (free_blocks mp) held
    → After
        (λ (r : Option Mempool × Heap). IsApart (free_blocks r.0) (give_back b.ident held))
        (mempool_free use_mempool link mp (some b) heap)
unfolding mempool_free insert_head IsApart free_blocks idents
free-Apart false link mp b heap held h u =
    λ a. less _ _ _ _ (frees-give_back a b.ident held h) (u a)
free-Apart true link none b heap held h u =
    λ a. less _ _ _ _ (frees-give_back a b.ident held h) (u a)
free-Apart true link (some mp) b heap held h u =
    then-After (λ (mp' : Mempool). idents mp'.head ≡ b.ident ∷ idents mp.head) _
      (insert_head link b mp) _ (bind-After _ (copy_to b.bytes 0 link) _ (λ bytes. refl))
      λ mp' e.
        subst (λ l. IsApart l (give_back b.ident held)) (sym e)
          (λ a. moved a b.ident (idents mp.head) _ held (frees-give_back a b.ident held h) (u a))

Step-Kept :
    {use_mempool : Bool} {w w' : World}
    → Step use_mempool w w'
    → IsUnique w
    → IsUnique w' × Spec w.held w'.held
unfolding IsUnique Kept
Step-Kept {use_mempool} (alloc w malloc n need_memset r f e) u =
    After-some _ (mempool_alloc use_mempool malloc w.mp n need_memset)
      (alloc-Kept use_mempool malloc w.mp w.held n need_memset f u) e
Step-Kept {use_mempool} (free w link b r h e) u = (
  After-some _ (mempool_free use_mempool link w.mp (some b) w.heap)
      (free-Apart use_mempool link w.mp b w.heap w.held h u) e,
  give w.held b.ident h,
)

Reach-Kept :
    {use_mempool : Bool} {w₀ w : World}
    → IsUnique w₀
    → Reach use_mempool w₀ w
    → IsUnique w × SpecReach w₀.held w.held
Reach-Kept u here = (u, start)
Reach-Kept u (next r s) =
    let (v, q) = Reach-Kept u r in let (v', t) = Step-Kept s v in (v', after q t)

init-empty : (n : ℕ) (r : Option Buffer × Heap) → free_blocks (init_mempool n r).0 ≡ []
unfolding init_mempool free_blocks idents
init-empty n (none, heap) = refl
init-empty n (some b, heap) = refl

create-empty :
    (use_mempool : Bool) (malloc malloc' : Allocator) (n : ℕ) (heap : Heap)
    → free_blocks (mempool_create use_mempool malloc malloc' n heap).0 ≡ []
unfolding mempool_create free_blocks
create-empty false malloc malloc' n heap = refl
create-empty true malloc malloc' n heap = init-empty n _

-- In both builds, from the pool that `mempool_create` leaves, whatever malloc answered there: any
-- sequence of requests and of frees of held blocks, in which malloc never gives a block that is
-- in the pool or held, is a run of the specification, in which a request takes a block that
-- nobody holds or changes nothing. In the end no block is held twice, free twice in the pool, or
-- both.
pub mempool_refines :
    (use_mempool : Bool) (malloc malloc' : Allocator) (block_size : ℕ) (heap : Heap) (w : World)
    → Reach use_mempool (created use_mempool malloc malloc' block_size heap) w
    → IsUnique w × SpecReach [] w.held
unfolding created IsUnique IsApart
mempool_refines use_mempool malloc malloc' block_size heap w r =
    Reach-Kept (λ b. rw (create-empty use_mempool malloc malloc' block_size heap) (omega arith)) r
