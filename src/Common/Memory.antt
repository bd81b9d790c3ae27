-- ===== src/Common/Memory.antt =====
-- Reads and writes of C buffers. A buffer is its list of bytes; `none` is an access outside it,
-- a NULL dereference or a failed assertion, so `some` says that the code ran without one.
use Prim.Native.Nat.{ℕ, zero, suc, ◌+◌, ◌≤◌, ◌<◌}
use mathlib.Core.Path.{◌≡◌, refl, ap, ◌∙◌, subst}
use mathlib.Core.Bool.{Bool, true, false}
use mathlib.Core.List.{List, [], ◌∷◌, ◌++◌}
use mathlib.Core.Option.{Option, none, some}
use native.Mathlib.Omega.{arith}
use rt_thread_esp_hosted.Common.Lists.{
  length, get_elem?, take, drop, take_all, length-append, take-append, drop-append,
}
use rt_thread_esp_hosted.Common.Tests.{leb, ◌==◌, if◌then◌else◌}

infixl 5 ◌>>=◌ ◌>>◌
abbrev pub ◌>>=◌ {ℓ κ} : {A : Type ℓ} {B : Type κ} → Option A → (A → Option B) → Option B
none >>= f = none
some a >>= f = f a

abbrev pub ◌>>◌ {ℓ} : {B : Type ℓ} → Option (Unit {0}) → Option B → Option B
m >> k = m >>= λ _. k

-- `assert(b)`
abbrev pub check : Bool → Option (Unit {0})
check true = some tt
check false = none

-- `buf[i]`
abbrev pub load {ℓ} : {A : Type ℓ} → List A → ℕ → Option A
load buf i = get_elem? buf i

-- `buf[i] = v`
abbrev pub store {ℓ} : {A : Type ℓ} → List A → ℕ → A → Option (List A)
store [] i v = none
store (x ∷ xs) zero v = some (v ∷ xs)
store (x ∷ xs) (suc i) v = store xs i v >>= λ r. some (x ∷ r)

-- The `n` bytes from `buf + off` on, the source of a `memcpy`.
abbrev pub slice : List ℕ → ℕ → ℕ → Option (List ℕ)
slice buf off n = if leb (off + n) (length buf) then some (take n (drop off buf)) else none

-- `memcpy(buf + off, src, n)` for the `n` bytes of `src`.
abbrev pub copy_to : List ℕ → ℕ → List ℕ → Option (List ℕ)
copy_to buf zero [] = some buf
copy_to [] zero (s ∷ src) = none
copy_to (x ∷ xs) zero (s ∷ src) = copy_to xs zero src >>= λ r. some (s ∷ r)
copy_to [] (suc off) src = none
copy_to (x ∷ xs) (suc off) src = copy_to xs off src >>= λ r. some (x ∷ r)

-- The code runs to its end without a fault.
abbrev pub Runs {ℓ} : {A : Type ℓ} → Option A → Type ℓ
Runs {A} m = (a : A) × (m ≡ some a)

pub bind-Runs {ℓ κ} :
    {A : Type ℓ} {B : Type κ} (m : Option A) (f : A → Option B)
    → Runs m
    → ((a : A) → Runs (f a))
    → Runs (m >>= f)
bind-Runs m f (a, e) h = rw e (h a)

pub if-Runs {ℓ} :
    {A : Type ℓ} (b : Bool) (m n : Option A) → Runs m → Runs n → Runs (if b then m else n)
if-Runs true m n h k = h
if-Runs false m n h k = k

-- It runs to its end, with a result as `P` says.
abbrev pub Ensures {ℓ κ} : {A : Type ℓ} → (A → Type κ) → Option A → Type (ℓ ⊔ κ)
Ensures {A} P m = (a : A) × (m ≡ some a) × P a

pub bind-Ensures {ℓ κ μ} :
    {A : Type ℓ} {B : Type κ} (P : B → Type μ) (m : Option A) (f : A → Option B)
    → Runs m
    → ((a : A) → Ensures P (f a))
    → Ensures P (m >>= f)
bind-Ensures P m f (a, e) h = rw e (h a)

pub if-Ensures {ℓ κ} :
    {A : Type ℓ} (P : A → Type κ) (b : Bool) (m n : Option A)
    → (b ≡ true → Ensures P m)
    → (b ≡ false → Ensures P n)
    → Ensures P (if b then m else n)
if-Ensures P true m n h k = h refl
if-Ensures P false m n h k = k refl

-- If it runs to its end, the result is as `P` says.
abbrev pub After {ℓ κ} : {A : Type ℓ} → (A → Type κ) → Option A → Type κ
After P none = Unit
After P (some a) = P a

pub bind-After {ℓ κ μ} :
    {A : Type ℓ} {B : Type κ} (P : B → Type μ) (m : Option A) (f : A → Option B)
    → ((a : A) → After P (f a))
    → After P (m >>= f)
bind-After P none f h = tt
bind-After P (some a) f h = h a

-- With what is known of the first part's result.
pub then-After {ℓ κ μ ν} :
    {A : Type ℓ} {B : Type κ} (Q : A → Type ν) (P : B → Type μ) (m : Option A) (f : A → Option B)
    → After Q m
    → ((a : A) → Q a → After P (f a))
    → After P (m >>= f)
then-After Q P none f q h = tt
then-After Q P (some a) f q h = h a q

pub weaken-After {ℓ κ μ} :
    {A : Type ℓ} (P : A → Type κ) (Q : A → Type μ) (m : Option A)
    → After P m
    → ((a : A) → P a → Q a)
    → After Q m
weaken-After P Q none h w = tt
weaken-After P Q (some a) h w = w a h

pub if-After {ℓ κ} :
    {A : Type ℓ} (P : A → Type κ) (b : Bool) (m n : Option A)
    → (b ≡ true → After P m)
    → (b ≡ false → After P n)
    → After P (if b then m else n)
if-After P true m n h k = h refl
if-After P false m n h k = k refl

pub both-After {ℓ κ μ} :
    {A : Type ℓ} (P : A → Type κ) (Q : A → Type μ) (m : Option A)
    → After P m
    → After Q m
    → After (λ a. P a × Q a) m
both-After P Q none h k = tt
both-After P Q (some a) h k = (h, k)

pub After-some {ℓ κ} :
    {A : Type ℓ} (P : A → Type κ) (m : Option A) {a : A} → After P m → m ≡ some a → P a
After-some P m h e = subst (After P) e h

pub load-Runs : (buf : List ℕ) (i : ℕ) → i < length buf → Runs (load buf i)
load-Runs [] i h = absurd (omega arith)
load-Runs (x ∷ buf) zero h = (x, refl)
load-Runs (x ∷ buf) (suc i) h = load-Runs buf i (omega arith)

-- A block of the heap, by the number that stands for its address.
pub record Buffer : Type 0 where
  pub ident : ℕ
  pub bytes : List ℕ

-- The blocks that have been freed, newest first.
abbrev pub Heap : Type 0
Heap = List ℕ

-- How often a block has been freed.
abbrev pub frees : ℕ → Heap → ℕ
frees b [] = 0
frees b (x ∷ h) = if b == x then suc (frees b h) else frees b h

-- A copy over a whole buffer.
pub copy_to_all : (buf src : List ℕ) → length buf ≡ length src → copy_to buf 0 src ≡ some src
copy_to_all [] [] h = refl
copy_to_all [] (s ∷ src) h = absurd (omega arith)
copy_to_all (x ∷ buf) [] h = absurd (omega arith)
copy_to_all (x ∷ buf) (s ∷ src) h = rw (copy_to_all buf src (omega arith))

zero_add : (n : ℕ) → 0 + n ≡ n
zero_add n = omega arith

suc_add : (m n : ℕ) → suc m + n ≡ suc (m + n)
suc_add m n = omega arith

-- A copy that fits writes exactly the source over the bytes at its place.
pub copy_to_lem :
    (buf : List ℕ) (off : ℕ) (src : List ℕ)
    → off + length src ≤ length buf
    → copy_to buf off src ≡ some (take off buf ++ (src ++ drop (off + length src) buf))
copy_to_lem [] zero [] h = refl
copy_to_lem (x ∷ buf) zero [] h = refl
copy_to_lem [] zero (s ∷ src) h = absurd (omega arith)
copy_to_lem (x ∷ buf) zero (s ∷ src) h =
    rw (copy_to_lem buf zero src (omega arith), zero_add (suc (length src)), zero_add (length src))
copy_to_lem [] (suc off) src h = absurd (omega arith)
copy_to_lem (x ∷ buf) (suc off) src h =
    rw (copy_to_lem buf off src (omega arith), suc_add off (length src))

-- A copy that does not fit is a write past the end.
pub copy_to_past :
    (buf : List ℕ) (off : ℕ) (src : List ℕ)
    → length buf < off + length src
    → copy_to buf off src ≡ none
copy_to_past [] zero [] h = absurd (omega arith)
copy_to_past (x ∷ buf) zero [] h = absurd (omega arith)
copy_to_past [] zero (s ∷ src) h = refl
copy_to_past (x ∷ buf) zero (s ∷ src) h = rw (copy_to_past buf zero src (omega arith))
copy_to_past [] (suc off) src h = refl
copy_to_past (x ∷ buf) (suc off) src h = rw (copy_to_past buf off src (omega arith))

pub slice_lem :
    (buf : List ℕ) (off n : ℕ)
    → off + n ≤ length buf
    → slice buf off n ≡ some (take n (drop off buf))
slice_lem buf off n h = ground arith

pub slice_all : (buf : List ℕ) (n : ℕ) → n ≡ length buf → slice buf 0 n ≡ some buf
slice_all buf n h = rw (slice_lem buf 0 n (omega arith)) (ap some (take_all buf n h))

pub slice_front : (xs ys : List ℕ) (n : ℕ) → n ≡ length xs → slice (xs ++ ys) 0 n ≡ some xs
slice_front xs ys n h =
    slice_lem (xs ++ ys) 0 n (omega (arith, length-append xs ys)) ∙ ap some (take-append xs ys n h)

pub slice_back :
    (xs ys : List ℕ) (off n : ℕ)
    → off ≡ length xs
    → n ≡ length ys
    → slice (xs ++ ys) off n ≡ some ys
slice_back xs ys off n h k =
    slice_lem (xs ++ ys) off n (omega (arith, length-append xs ys))
    ∙ ap some (ap (take n) (drop-append xs ys off h) ∙ take_all ys n k)

pub slice-Runs : (buf : List ℕ) (off n : ℕ) → off + n ≤ length buf → Runs (slice buf off n)
slice-Runs buf off n h = (take n (drop off buf), slice_lem buf off n h)

-- A read that runs past the end.
pub slice_past : (buf : List ℕ) (off n : ℕ) → length buf < off + n → slice buf off n ≡ none
slice_past buf off n h = ground arith

-- Every entry is a byte.
abbrev pub AreBytes : List ℕ → Type 0
AreBytes [] = Unit {0}
AreBytes (x ∷ xs) = (x < 256) × AreBytes xs
