-- ===== src/Tcp/Buffer/Spans.antt =====
-- Lists of consecutive values of a function, for the bytes in a buffer.
use l4_load_balancer_with_xd.Prelude.{
  ℕ, zero, suc, ◌+◌, ◌≤◌, ◌<◌, ◌≡◌, refl, ap, ◌∙◌, List, [], ◌∷◌, ◌++◌, arith, length, drop, take,
  ◌==◌, if◌then◌else◌,
}
use mathlib.Core.Path.{ap₂}
use native.Mathlib.Nat.{add-zero}
use l4_load_balancer_with_xd.Tcp.Buffer.{store, load}

-- f i, f (i + 1), …: `n` values
unfoldable pub span : (ℕ → ℕ) → ℕ → ℕ → List ℕ
span f i zero = []
span f i (suc n) = f i ∷ span f (suc i) n

suc-add : (m n : ℕ) → suc m + n ≡ suc (m + n)
suc-add m n = omega arith

pub length-span : (f : ℕ → ℕ) (i n : ℕ) → length (span f i n) ≡ n
unfolding span
length-span f i zero = refl
length-span f i (suc n) = ap suc (length-span f (suc i) n)

pub span-append : (f : ℕ → ℕ) (i m n : ℕ) → span f i (m + n) ≡ span f i m ++ span f (i + m) n
unfolding span
span-append f i zero n = rw (add-zero) (ap (span f i) (omega arith))
span-append f i (suc m) n =
    ap (span f i) (suc-add m n)
    ∙ ap (◌∷◌ (f i))
        (span-append f (suc i) m n ∙ ap (λ k. span f (suc i) m ++ span f k n) (omega arith))

pub span_ext :
    (f g : ℕ → ℕ) (i n : ℕ) → ((j : ℕ) → i ≤ j → j < i + n → f j ≡ g j) → span f i n ≡ span g i n
unfolding span
span_ext f g i zero h = refl
span_ext f g i (suc n) h =
    ap₂ ◌∷◌ (h i (omega arith) (omega arith))
      (span_ext f g (suc i) n (λ j a b. h j (omega arith) (omega arith)))

-- A function that is `g` from `k` on, seen from `i` on.
pub span_shift :
    (f g : ℕ → ℕ) (i k n : ℕ) → ((d : ℕ) → d < n → f (i + d) ≡ g (k + d)) → span f i n ≡ span g k n
unfolding span
span_shift f g i k zero h = refl
span_shift f g i k (suc n) h =
    ap₂ ◌∷◌ (ap f (omega arith) ∙ h 0 (omega arith) ∙ ap g (omega arith)) (
      span_shift f g (suc i) (suc k) n
        (λ d a. ap f (omega arith) ∙ h (suc d) (omega arith) ∙ ap g (omega arith)))

pub drop-span : (f : ℕ → ℕ) (i m n : ℕ) → drop m (span f i (m + n)) ≡ span f (i + m) n
unfolding span
drop-span f i zero n = ap₂ (span f) (omega arith) (omega arith)
drop-span f i (suc m) n =
    ap (λ k. drop (suc m) (span f i k)) (suc-add m n)
    ∙ drop-span f (suc i) m n
    ∙ ap (λ k. span f k n) (omega arith)

pub take-span : (f : ℕ → ℕ) (i m n : ℕ) → take m (span f i (m + n)) ≡ span f i m
unfolding span
take-span f i zero n = refl
take-span f i (suc m) n =
    ap (λ k. take (suc m) (span f i k)) (suc-add m n) ∙ ap (◌∷◌ (f i)) (take-span f (suc i) m n)

pub load-span : (f : ℕ → ℕ) (p n : ℕ) → load f p n ≡ span f p n
unfolding load span
load-span f p zero = refl
load-span f p (suc n) = ap (◌∷◌ (f p)) (load-span f (suc p) n)

pub store_before : (p : ℕ) (xs : List ℕ) (f : ℕ → ℕ) (i : ℕ) → i < p → store p xs f i ≡ f i
unfolding store
store_before p [] f i h = refl
store_before p (x ∷ xs) f i h =
    ground (arith, store_before (suc p) xs (λ i. if i == p then x else f i) i)

pub store_after :
    (p : ℕ) (xs : List ℕ) (f : ℕ → ℕ) (i : ℕ) → p + length xs ≤ i → store p xs f i ≡ f i
unfolding store
store_after p [] f i h = refl
store_after p (x ∷ xs) f i h =
    ground (arith, store_after (suc p) xs (λ i. if i == p then x else f i) i)

pub span-store : (p : ℕ) (xs : List ℕ) (f : ℕ → ℕ) → span (store p xs f) p (length xs) ≡ xs
unfolding span store
span-store p [] f = refl
span-store p (x ∷ xs) f =
    ap₂ ◌∷◌
      (store_before (suc p) xs (λ i. if i == p then x else f i) p (omega arith) ∙ ground arith)
      (span-store (suc p) xs (λ i. if i == p then x else f i))

zero-add : (m : ℕ) → 0 + m ≡ m
zero-add m = omega arith

-- The three splits, of a span from 0.
pub span-split : (f : ℕ → ℕ) (m n : ℕ) → span f 0 (m + n) ≡ span f 0 m ++ span f m n
span-split f m n = rw (zero-add m) at (span-append f 0 m n)

pub drop-split : (f : ℕ → ℕ) (m n : ℕ) → drop m (span f 0 (m + n)) ≡ span f m n
drop-split f m n = rw (zero-add m) at (drop-span f 0 m n)
