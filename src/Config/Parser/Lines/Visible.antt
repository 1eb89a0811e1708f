-- ===== src/Config/Parser/Lines/Visible.antt =====
-- Lines of printable ASCII without blanks: trimming and cutting leave them as they are.
use l4_load_balancer_with_xd.Prelude.{
  ℕ, ◌≤◌, ◌<◌, ◌≡◌, ◌⊎◌, inl, refl, ap, false, [], ◌∷◌, ◌++◌, arith,
}
use l4_load_balancer_with_xd.Config.Bytes.{
  Bytes, contains, Lacks, find_byte-Lacks, find_byte-append, take-length_append, drop-length_append,
}
use l4_load_balancer_with_xd.Config.Decimal.RoundTrip.{IsDigits}
use l4_load_balancer_with_xd.Config.Parser.Lines.{
  trim, trim_end, has_forbidden_bytes, has_bom, strip_cr, next_line,
}

-- Printable ASCII without blanks.
abbrev pub IsVisible : Bytes → Type 0
IsVisible [] = Unit {0}
IsVisible (x ∷ xs) = (33 ≤ x) × (x ≤ 126) × IsVisible xs

pub IsVisible-append : (xs ys : Bytes) → IsVisible xs → IsVisible ys → IsVisible (xs ++ ys)
IsVisible-append [] ys hx hy = hy
IsVisible-append (x ∷ xs) ys hx hy = (hx.0, hx.1, IsVisible-append xs ys hx.2 hy)

pub IsVisible-Lacks : (c : ℕ) (xs : Bytes) → (c < 33) ⊎ (126 < c) → IsVisible xs → Lacks c xs
IsVisible-Lacks c [] h v = tt
IsVisible-Lacks c (x ∷ xs) h v = ((λ e. ground arith), IsVisible-Lacks c xs h v.2)

pub IsDigits-IsVisible : (xs : Bytes) → IsDigits xs → IsVisible xs
IsDigits-IsVisible [] v = tt
IsDigits-IsVisible (x ∷ xs) v = (omega arith, omega arith, IsDigits-IsVisible xs v.2)

trim_end-IsVisible : (xs : Bytes) → IsVisible xs → trim_end xs ≡ xs
unfolding trim_end
trim_end-IsVisible [] v = refl
trim_end-IsVisible (x ∷ xs) v = let e = trim_end-IsVisible xs v.2 in ground arith

pub trim-IsVisible : (xs : Bytes) → IsVisible xs → trim xs ≡ xs
unfolding trim
trim-IsVisible [] v = refl
trim-IsVisible (x ∷ xs) v = ground (arith, trim_end-IsVisible (x ∷ xs) v)

has_bom-IsVisible : (xs : Bytes) → IsVisible xs → has_bom xs ≡ false
unfolding has_bom
has_bom-IsVisible [] v = refl
has_bom-IsVisible (a ∷ []) v = refl
has_bom-IsVisible (a ∷ b ∷ []) v = refl
has_bom-IsVisible (a ∷ b ∷ c ∷ xs) v = let e = has_bom-IsVisible (b ∷ c ∷ xs) v.2 in ground arith

pub contains-Lacks : (c : ℕ) (xs : Bytes) → Lacks c xs → contains c xs ≡ false
unfolding contains
contains-Lacks c xs h = rw (find_byte-Lacks c xs h)

pub has_forbidden_bytes-IsVisible : (xs : Bytes) → IsVisible xs → has_forbidden_bytes xs ≡ false
unfolding has_forbidden_bytes
has_forbidden_bytes-IsVisible xs v =
    rw
      (
        contains-Lacks 0 xs (IsVisible-Lacks 0 xs (inl (omega arith)) v),
        contains-Lacks b'\r' xs (IsVisible-Lacks b'\r' xs (inl (omega arith)) v),
      )
      (has_bom-IsVisible xs v)

strip_cr-IsVisible : (xs : Bytes) → IsVisible xs → strip_cr xs ≡ xs
unfolding strip_cr
strip_cr-IsVisible [] v = refl
strip_cr-IsVisible (x ∷ []) v = ground arith
strip_cr-IsVisible (x ∷ y ∷ xs) v = ap (◌∷◌ x) (strip_cr-IsVisible (y ∷ xs) v.2)

-- Such a line is cut off at its newline as it stands.
pub next_line-IsVisible :
    (line rest : Bytes) → IsVisible line → next_line (line ++ b'\n' ∷ rest) ≡ (line, rest)
unfolding next_line
next_line-IsVisible line rest v =
    rw (find_byte-append b'\n' line rest (IsVisible-Lacks b'\n' line (inl (omega arith)) v)) (
      rw (take-length_append line (b'\n' ∷ rest), drop-length_append line b'\n' rest)
        (ap (λ l. (l, rest)) (strip_cr-IsVisible line v)))
