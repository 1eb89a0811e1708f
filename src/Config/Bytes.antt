-- ===== src/Config/Bytes.antt =====
-- What the parsers use of `std::string_view`: texts as lists of bytes, searched and cut.
use Prim.Native.Char.{code}
use Prim.Native.String.{String}
use l4_load_balancer_with_xd.Prelude.{
  Eq, sym, ◌∙◌, ℕ, suc, ◌+◌, ◌≡◌, refl, ap, Bool, true, false, ◌&&◌, Option, none, some, List, [],
  ◌∷◌, ◌++◌, arith, ◌==◌, if◌then◌else◌, length, take, drop,
}

abbrev pub Bytes : Type 0
Bytes = List ℕ

-- The bytes of an ASCII literal.
abbrev pub codes : String → Bytes
codes String.[] = []
codes (String.◌∷◌ c s) = code c ∷ codes s

unfoldable pub bytes_eq : Bytes → Bytes → Bool
bytes_eq [] [] = true
bytes_eq (x ∷ xs) (y ∷ ys) = x == y && bytes_eq xs ys
bytes_eq _ _ = false

-- `find(c)`; `none` is `npos`.
unfoldable pub find_byte : ℕ → Bytes → Option ℕ
find_byte c [] = none
find_byte c (x ∷ xs) =
    let rest = find_byte c xs in
    if x == c then some 0 else elim rest [ none ↦ none | some i ↦ some (suc i) ]

-- `substr(0, i)`, where `npos` takes all
abbrev pub before : Option ℕ → Bytes → Bytes
before none xs = xs
before (some i) xs = take i xs

abbrev pub is_some {ℓ} : {A : Type ℓ} → Option A → Bool
is_some none = false
is_some (some a) = true

unfoldable pub contains : ℕ → Bytes → Bool
unfolding find_byte
contains c xs = is_some (find_byte c xs)

pub bytes_eq_iff : (xs ys : Bytes) → bytes_eq xs ys ≡ true → xs ≡ ys
unfolding bytes_eq
bytes_eq_iff [] [] h = refl
bytes_eq_iff [] (y ∷ ys) h = cc
bytes_eq_iff (x ∷ xs) [] h = cc
bytes_eq_iff (x ∷ xs) (y ∷ ys) h = ground (arith, bytes_eq_iff xs ys)

pub bytes_eq_self : (xs : Bytes) → bytes_eq xs xs ≡ true
unfolding bytes_eq
bytes_eq_self [] = refl
bytes_eq_self (x ∷ xs) = ground (arith, bytes_eq_self xs)

instance abbrev pub bytes_instance : Eq Bytes
bytes_instance = record {
  beq = bytes_eq;
  beq_iff = λ xs ys. (bytes_eq_iff xs ys, λ e. ap (bytes_eq xs) (sym e) ∙ bytes_eq_self xs);
}

-- No byte of the text is `c`.
abbrev pub Lacks : ℕ → Bytes → Type 0
Lacks c [] = Unit {0}
Lacks c (x ∷ xs) = (x ≡ c → ⊥) × Lacks c xs

pub find_byte-Lacks : (c : ℕ) (xs : Bytes) → Lacks c xs → find_byte c xs ≡ none
unfolding find_byte
find_byte-Lacks c [] h = refl
find_byte-Lacks c (x ∷ xs) h = let e = find_byte-Lacks c xs h.1 in ground (arith, h.0)

pub find_byte-append :
    (c : ℕ) (xs ys : Bytes) → Lacks c xs → find_byte c (xs ++ c ∷ ys) ≡ some (length xs)
unfolding find_byte
find_byte-append c [] ys h = ground arith
find_byte-append c (x ∷ xs) ys h = let e = find_byte-append c xs ys h.1 in ground (arith, h.0)

pub take-length_append : (xs ys : Bytes) → take (length xs) (xs ++ ys) ≡ xs
take-length_append [] ys = refl
take-length_append (x ∷ xs) ys = ap (◌∷◌ x) (take-length_append xs ys)

suc-add : (m n : ℕ) → suc m + n ≡ suc (m + n)
suc-add m n = omega arith

pub drop-length_append :
    (xs : Bytes) (y : ℕ) (ys : Bytes) → drop (length xs + 1) (xs ++ y ∷ ys) ≡ ys
drop-length_append [] y ys = refl
drop-length_append (x ∷ xs) y ys = rw (suc-add (length xs) 1) (drop-length_append xs y ys)

pub Lacks-append : (c : ℕ) (xs ys : Bytes) → Lacks c xs → Lacks c ys → Lacks c (xs ++ ys)
Lacks-append c [] ys hx hy = hy
Lacks-append c (x ∷ xs) ys hx hy = (hx.0, Lacks-append c xs ys hx.1 hy)
