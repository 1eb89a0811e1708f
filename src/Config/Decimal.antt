-- ===== src/Config/Decimal.antt =====
-- `parseUnsignedDecimal` of src/config/Config.cpp, and `std::to_string` for the numbers that the
-- services print (src/control/TcpService.cpp, src/control/UdpService.cpp). `RoundTrip` shows that
-- each undoes the other.
pub mod RoundTrip
use l4_load_balancer_with_xd.Prelude.{
  ℕ, zero, suc, ◌+◌, ◌-◌, ◌*◌, ◌/◌, ◌%◌, ◌≡◌, refl, Bool, true, false, not, ◌&&◌, ◌||◌, Option,
  none, some, List, [], ◌∷◌, ◌++◌, ltb, ◌==◌, if◌then◌else◌, add32, sub32, mul32,
}
use l4_load_balancer_with_xd.Config.Bytes.{Bytes, codes}

-- The `for` loop, from the value `result` on. `unsigned` has 32 bits.
unfoldable pub scan_digits : ℕ → ℕ → Bytes → Option ℕ
scan_digits maximum result [] = some result
scan_digits maximum result (character ∷ rest) =
    let digit = character - b'0' in
    let next = scan_digits maximum (add32 (mul32 result 10) digit) rest in
    if ltb character b'0' || ltb b'9' character
    then none
    else if ltb (sub32 maximum digit / 10) result
    then none
    else next

at_most : ℕ → ℕ → Option ℕ
at_most maximum result = if ltb maximum result then none else some result

abbrev is_nil : Bytes → Bool
is_nil [] = true
is_nil (x ∷ xs) = false

unfoldable pub parse_unsigned_decimal : Bytes → ℕ → Option ℕ
unfolding at_most
parse_unsigned_decimal [] maximum = none
parse_unsigned_decimal (first ∷ rest) maximum =
    if not (is_nil rest) && first == b'0'
    then none
    else elim (scan_digits maximum 0 (first ∷ rest)) [
      | none ↦ none
      | some result ↦ at_most maximum result
    ]

-- `std::to_string`; the fuel `n + 1` is more than the number of digits.
unfoldable pub digits : ℕ → ℕ → Bytes
digits zero n = []
digits (suc fuel) n =
    let front = digits fuel (n / 10) in
    if ltb n 10 then (b'0' + n) ∷ [] else front ++ (b'0' + n % 10) ∷ []

unfoldable pub to_string : ℕ → Bytes
unfolding digits
to_string n = digits (suc n) n
