-- ===== src/Config/Decimal/RoundTrip.antt =====
-- `parseUnsignedDecimal` accepts just what `std::to_string` prints, up to its maximum.
use l4_load_balancer_with_xd.Prelude.{
  ℕ, zero, suc, ◌+◌, ◌-◌, ◌*◌, ◌/◌, ◌%◌, ◌≤◌, ◌<◌, ◌≡◌, ◌≢◌, refl, sym, ap, ◌∙◌, ◌⊎◌, ◌↔◌, some, [],
  ◌∷◌, ◌++◌, arith, u32_mod,
}
use mathlib.Core.List.{append_assoc, append-nil}
use native.Mathlib.Decide.{dec_lt}
use l4_load_balancer_with_xd.Config.Bytes.{Bytes}
use l4_load_balancer_with_xd.Config.Decimal.{scan_digits, parse_unsigned_decimal, digits, to_string}

abbrev pub IsDigits : Bytes → Type 0
IsDigits [] = Unit {0}
IsDigits (x ∷ xs) = (48 ≤ x) × (x ≤ 57) × IsDigits xs

-- One digit more, where the value stays within the maximum.
scan_digits-digit :
    (maximum r d : ℕ) (xs : Bytes)
    → d < 10
    → maximum < u32_mod
    → 9 ≤ maximum
    → r * 10 + d ≤ maximum
    → scan_digits maximum r ((48 + d) ∷ xs) ≡ scan_digits maximum (r * 10 + d) xs
unfolding scan_digits
scan_digits-digit maximum r d xs small fits nine h = ground arith

scan_digits-nil : (maximum r : ℕ) → scan_digits maximum r [] ≡ some r
unfolding scan_digits
scan_digits-nil maximum r = refl

-- What an accepted character was.
scan_digits-inv :
    (maximum r x : ℕ) (xs : Bytes) (v : ℕ)
    → maximum < u32_mod
    → 9 ≤ maximum
    → scan_digits maximum r (x ∷ xs) ≡ some v
    → (48 ≤ x)
      × (x ≤ 57)
      × (r * 10 + (x - 48) ≤ maximum)
      × (scan_digits maximum (r * 10 + (x - 48)) xs ≡ some v)
unfolding scan_digits
scan_digits-inv maximum r x xs v fits nine e = ground arith

scan_digits-append :
    (maximum r : ℕ) (xs ys : Bytes) (v : ℕ)
    → maximum < u32_mod
    → 9 ≤ maximum
    → scan_digits maximum r xs ≡ some v
    → scan_digits maximum r (xs ++ ys) ≡ scan_digits maximum v ys
scan_digits-append maximum r [] ys v fits nine e =
    ap (λ k. scan_digits maximum k ys) (ground (arith, scan_digits-nil maximum r))
scan_digits-append maximum r (x ∷ xs) ys v fits nine e =
    let (low, high, le, rest) = scan_digits-inv maximum r x xs v fits nine e in
    ap (λ k. scan_digits maximum r (k ∷ xs ++ ys)) (omega arith)
    ∙ scan_digits-digit maximum r (x - 48) (xs ++ ys) (omega arith) fits nine le
    ∙ scan_digits-append maximum (r * 10 + (x - 48)) xs ys v fits nine rest

digits-short : (fuel n : ℕ) → n < 10 → digits (suc fuel) n ≡ (48 + n) ∷ []
unfolding digits
digits-short fuel n h = ground arith

digits-long :
    (fuel n : ℕ) → 10 ≤ n → digits (suc fuel) n ≡ digits fuel (n / 10) ++ (48 + n % 10) ∷ []
unfolding digits
digits-long fuel n h = ground arith

module _ (maximum : ℕ) (fits : maximum < u32_mod) (nine : 9 ≤ maximum) where
  scan_digits-digits :
      (fuel n : ℕ) → n < fuel → n ≤ maximum → scan_digits maximum 0 (digits fuel n) ≡ some n
  scan_digits-digits zero n h le = elim h [ ]
  scan_digits-digits (suc fuel) n h le = elim (dec_lt n 10) [
    | yes short ↦ rw (digits-short fuel n short) (
        scan_digits-digit maximum 0 n [] short fits nine (omega arith)
        ∙ scan_digits-nil maximum (0 * 10 + n)
        ∙ ap some (omega arith))
    | no long ↦ rw (digits-long fuel n (omega arith)) (
        scan_digits-append maximum 0 (digits fuel (n / 10)) _ (n / 10) fits nine
          (scan_digits-digits fuel (n / 10) (omega arith) (omega arith))
        ∙ scan_digits-digit maximum (n / 10) (n % 10) [] (omega arith) fits nine (omega arith)
        ∙ scan_digits-nil maximum (n / 10 * 10 + n % 10)
        ∙ ap some (omega arith))
  ]

-- More fuel than the number makes no difference.
digits-to_string : (fuel n : ℕ) → n < fuel → digits fuel n ≡ to_string n
unfolding to_string
digits-to_string fuel n h = go fuel (suc n) n h (omega arith)
  where
    go : (f g n : ℕ) → n < f → n < g → digits f n ≡ digits g n
    go zero g n hf hg = elim hf [ ]
    go (suc f) zero n hf hg = elim hg [ ]
    go (suc f) (suc g) n hf hg = elim (dec_lt n 10) [
      | yes short ↦ digits-short f n short ∙ sym (digits-short g n short)
      | no long ↦
          digits-long f n (omega arith)
          ∙ ap (λ front. front ++ (48 + n % 10) ∷ []) (go f g (n / 10) (omega arith) (omega arith))
          ∙ sym (digits-long g n (omega arith))
    ]

to_string-digit : (r d : ℕ) → 0 < r → d < 10 → to_string (r * 10 + d) ≡ to_string r ++ (48 + d) ∷ []
to_string-digit r d pos small =
    sym (digits-to_string (suc (r * 10 + d)) (r * 10 + d) (omega arith))
    ∙ digits-long (r * 10 + d) (r * 10 + d) (omega arith)
    ∙ ap (λ n. digits (r * 10 + d) n ++ (48 + (r * 10 + d) % 10) ∷ []) {y = r} (omega arith)
    ∙ ap (λ front. front ++ (48 + (r * 10 + d) % 10) ∷ [])
        (digits-to_string (r * 10 + d) r (omega arith))
    ∙ ap (λ n. to_string r ++ (48 + n) ∷ []) (omega arith)

to_string-short : (d : ℕ) → d < 10 → to_string d ≡ (48 + d) ∷ []
to_string-short d small = sym (digits-to_string (suc d) d (omega arith)) ∙ digits-short d d small

-- From a positive value on, the digits that are left complete its decimal text.
scan_digits-prefix :
    (maximum r : ℕ) (xs : Bytes) (v : ℕ)
    → maximum < u32_mod
    → 9 ≤ maximum
    → 0 < r
    → r ≤ maximum
    → scan_digits maximum r xs ≡ some v
    → (to_string r ++ xs ≡ to_string v) × (v ≤ maximum)
scan_digits-prefix maximum r [] v fits nine pos le e =
    let same : r ≡ v = ground (arith, scan_digits-nil maximum r) in
    (append-nil (to_string r) ∙ ap to_string same, omega arith)
scan_digits-prefix maximum r (x ∷ xs) v fits nine pos le e =
    let (low, high, le', rest) = scan_digits-inv maximum r x xs v fits nine e in
    let (text, bound) =
      scan_digits-prefix maximum (r * 10 + (x - 48)) xs v fits nine (omega arith) le' rest in
    let text' =
      ap (λ k. to_string r ++ k ∷ xs) {y = 48 + (x - 48)} (omega arith)
      ∙ sym (append_assoc (to_string r) ((48 + (x - 48)) ∷ []) xs)
      ∙ ap (λ s. s ++ xs) (sym (to_string-digit r (x - 48) pos (omega arith)))
      ∙ text in
    (text', bound)

-- The text of a positive number has a first digit, which is not 0.
digits_lead :
    (fuel n : ℕ)
    → n < fuel
    → 0 < n
    → (c : ℕ) × (rest : Bytes) × (digits fuel n ≡ c ∷ rest) × (c ≢ 48)
digits_lead zero n h pos = elim h [ ]
digits_lead (suc fuel) n h pos = elim (dec_lt n 10) [
  | yes short ↦ (48 + n, [], digits-short fuel n short, omega arith)
  | no long ↦
      let (c, rest, e, ne) = digits_lead fuel (n / 10) (omega arith) (omega arith) in
      (
        c,
        rest ++ (48 + n % 10) ∷ [],
        digits-long fuel n (omega arith) ∙ ap (λ s. s ++ (48 + n % 10) ∷ []) e,
        ne,
      )
]

parse-lead :
    (maximum c : ℕ) (rest : Bytes) (n : ℕ)
    → c ≢ 48
    → scan_digits maximum 0 (c ∷ rest) ≡ some n
    → n ≤ maximum
    → parse_unsigned_decimal (c ∷ rest) maximum ≡ some n
unfolding parse_unsigned_decimal
parse-lead maximum c rest n ne e le = ground arith

parse-to_string :
    (maximum n : ℕ)
    → maximum < u32_mod
    → 9 ≤ maximum
    → n ≤ maximum
    → parse_unsigned_decimal (to_string n) maximum ≡ some n
parse-to_string maximum zero fits nine le = rw (to_string-short 0 (omega arith)) (
    unfold parse_unsigned_decimal in
    ground (arith, scan_digits-digit maximum 0 0 [], scan_digits-nil maximum 0))
parse-to_string maximum (suc n) fits nine le =
    let (c, rest, e, ne) = digits_lead (suc (suc n)) (suc n) (omega arith) (omega arith) in
    let text = sym (digits-to_string (suc (suc n)) (suc n) (omega arith)) ∙ e in
    rw text (
      parse-lead maximum c rest (suc n) ne
        (rw e at (scan_digits-digits maximum fits nine (suc (suc n)) (suc n) (omega arith) le)) le)

parse-cons :
    (maximum c : ℕ) (rest : Bytes) (n : ℕ)
    → parse_unsigned_decimal (c ∷ rest) maximum ≡ some n
    → (scan_digits maximum 0 (c ∷ rest) ≡ some n) × (n ≤ maximum) × ((rest ≡ []) ⊎ (c ≢ 48))
unfolding parse_unsigned_decimal
parse-cons maximum c [] n e = ground arith
parse-cons maximum c (d ∷ rest) n e = ground arith

parse-inv :
    (maximum : ℕ) (text : Bytes) (n : ℕ)
    → maximum < u32_mod
    → 9 ≤ maximum
    → parse_unsigned_decimal text maximum ≡ some n
    → (text ≡ to_string n) × (n ≤ maximum)
parse-inv maximum [] n fits nine e = unfold parse_unsigned_decimal in cc
parse-inv maximum (c ∷ []) n fits nine e =
    let (scan, le, _) = parse-cons maximum c [] n e in
    let (low, high, le', rest) = scan_digits-inv maximum 0 c [] n fits nine scan in
    let same : n ≡ c - 48 = ground (arith, scan_digits-nil maximum (0 * 10 + (c - 48))) in
    (ap (λ k. k ∷ []) {y = 48 + n} (omega arith) ∙ sym (to_string-short n (omega arith)), le)
parse-inv maximum (c ∷ d ∷ rest) n fits nine e =
    let (scan, le, lead) = parse-cons maximum c (d ∷ rest) n e in
    let ne : c ≢ 48 = ground arith in
    let (low, high, le', more) = scan_digits-inv maximum 0 c (d ∷ rest) n fits nine scan in
    let more' =
      ap (λ r. scan_digits maximum r (d ∷ rest)) {x = c - 48} {y = 0 * 10 + (c - 48)} (omega arith)
      ∙ more in
    let (text, bound) =
      scan_digits-prefix maximum (c - 48) (d ∷ rest) n fits nine (omega arith) (omega arith)
        more' in
    (
      ap (λ k. k ∷ d ∷ rest) {y = 48 + (c - 48)} (omega arith)
          ∙ ap (λ s. s ++ d ∷ rest) (sym (to_string-short (c - 48) (omega arith)))
          ∙ text,
      le,
    )

-- For a maximum of at least 9 that fits 32 bits, a text is accepted, with the value `n`, just when it
-- is the decimal text of `n` and `n` is at most the maximum: no leading zeros, no other characters,
-- no overflow of `unsigned`.
pub decimal_iff :
    (maximum : ℕ) (text : Bytes) (n : ℕ)
    → maximum < u32_mod
    → 9 ≤ maximum
    → (parse_unsigned_decimal text maximum ≡ some n) ↔ ((text ≡ to_string n) × (n ≤ maximum))
decimal_iff maximum text n fits nine =
    (parse-inv maximum text n fits nine, λ (e, le). rw e (parse-to_string maximum n fits nine le))

pub to_string-IsDigits : (n : ℕ) → IsDigits (to_string n)
unfolding to_string
to_string-IsDigits n = go (suc n) n
  where
    concat : (xs : Bytes) (d : ℕ) → d < 10 → IsDigits xs → IsDigits (xs ++ (48 + d) ∷ [])
    concat [] d h v = (omega arith, omega arith, tt)
    concat (x ∷ xs) d h v = (v.0, v.1, concat xs d h v.2)

    go : (fuel n : ℕ) → IsDigits (digits fuel n)
    go zero n = unfold digits in tt
    go (suc fuel) n = elim (dec_lt n 10) [
      | yes short ↦ rw (digits-short fuel n short) (omega arith, omega arith, tt)
      | no long ↦
          rw (digits-long fuel n (omega arith))
            (concat (digits fuel (n / 10)) (n % 10) (omega arith) (go fuel (n / 10)))
    ]
