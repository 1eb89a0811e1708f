-- ===== src/Config/Endpoint/RoundTrip.antt =====
-- What `formatEndpoint` prints is read back by `parseIpv4Endpoint`.
use l4_load_balancer_with_xd.Prelude.{
  ℕ, zero, suc, ◌<◌, ◌≡◌, ◌≢◌, refl, ◌∙◌, ◌⊎◌, inl, inr, lt→ltb, Bool, false, some, [], ◌∷◌, ◌++◌,
  arith,
}
use l4_load_balancer_with_xd.Config.Bytes.{
  Bytes, Lacks, Lacks-append, find_byte-Lacks, find_byte-append, take-length_append,
  drop-length_append,
}
use l4_load_balancer_with_xd.Config.Decimal.{parse_unsigned_decimal, to_string}
use l4_load_balancer_with_xd.Config.Decimal.RoundTrip.{IsDigits, to_string-IsDigits, decimal_iff}
use l4_load_balancer_with_xd.Config.Endpoint.{
  Address, Endpoint, zero_address, set_octet, parse_octets, forbidden_address, parse_ipv4_endpoint,
  parse_at_colon, format_address, format_endpoint, IsWord,
}

IsDigits-Lacks : (c : ℕ) (xs : Bytes) → (c < 48) ⊎ (57 < c) → IsDigits xs → Lacks c xs
IsDigits-Lacks c [] h v = tt
IsDigits-Lacks c (x ∷ xs) h v = ((λ e. ground arith), IsDigits-Lacks c xs h v.2)

to_string-Lacks : (c n : ℕ) → (c < 48) ⊎ (57 < c) → Lacks c (to_string n)
to_string-Lacks c n h = IsDigits-Lacks c (to_string n) h (to_string-IsDigits n)

parse-octet : (n : ℕ) → n < 256 → parse_unsigned_decimal (to_string n) 255 ≡ some n
parse-octet n h =
    (decimal_iff 255 (to_string n) n (omega arith) (omega arith)).1 (refl, omega arith)

-- An octet that a dot follows.
parse_octets-dot :
    (left index n : ℕ) (rest : Bytes) (result : Address)
    → index < 3
    → n < 256
    → parse_octets (suc left) index (to_string n ++ b'.' ∷ rest) result
      ≡ parse_octets left (suc index) rest (set_octet index n result)
unfolding parse_octets
parse_octets-dot left index n rest result early small =
    let text = to_string n in
    let found = find_byte-append b'.' text rest (to_string-Lacks b'.' n (inl (omega arith))) in
    rw (found, lt→ltb index 3 early, take-length_append text (b'.' ∷ rest), parse-octet n small)
      (rw (lt→ltb index 3 early, found, drop-length_append text b'.' rest))

-- The last one.
parse_octets-last :
    (n : ℕ) (result : Address)
    → n < 256
    → parse_octets 1 3 (to_string n) result ≡ some (set_octet 3 n result)
unfolding parse_octets
parse_octets-last n result small =
    rw
      (
        find_byte-Lacks b'.' (to_string n) (to_string-Lacks b'.' n (inl (omega arith))),
        parse-octet n small,
      )
      refl

parse_octets-format :
    (a : Address)
    → a.b0 < 256
    → a.b1 < 256
    → a.b2 < 256
    → a.b3 < 256
    → parse_octets 4 0 (format_address a) zero_address ≡ some a
unfolding format_address set_octet
parse_octets-format a h0 h1 h2 h3 =
    parse_octets-dot 3 0 a.b0 _ zero_address (omega arith) h0
    ∙ parse_octets-dot 2 1 a.b1 _ _ (omega arith) h1
    ∙ parse_octets-dot 1 2 a.b2 _ _ (omega arith) h2
    ∙ parse_octets-last a.b3 _ h3

format_address-Lacks : (a : Address) → Lacks b':' (format_address a)
unfolding format_address
format_address-Lacks a =
    let octet = λ (n : ℕ). to_string-Lacks b':' n (inr (omega arith)) in
    let after = λ (n : ℕ) (rest : Bytes) (h : Lacks b':' rest).
      Lacks-append b':' (to_string n) (b'.' ∷ rest) (octet n) ((λ e. omega arith), h) in
    after a.b0 _ (after a.b1 _ (after a.b2 _ (octet a.b3)))

parse-port : (p : ℕ) → p < 65536 → parse_unsigned_decimal (to_string p) 65535 ≡ some p
parse-port p h =
    (decimal_iff 65535 (to_string p) p (omega arith) (omega arith)).1 (refl, omega arith)

parse-format :
    (a : Address) (p : ℕ) (backend : Bool)
    → IsWord (record { address = a; port = suc p })
    → forbidden_address a backend ≡ false
    → parse_ipv4_endpoint (format_endpoint (record { address = a; port = suc p })) backend
      ≡ some (record { address = a; port = suc p })
unfolding parse_ipv4_endpoint format_endpoint
parse-format a p backend w ok =
    let text = format_address a in
    rw (find_byte-append b':' text (to_string (suc p)) (format_address-Lacks a)) (
      rw (drop-length_append text b':' (to_string (suc p)), parse_at_colon)
        (rw (parse-port (suc p) w.port16) (
          rw (take-length_append text (b':' ∷ to_string (suc p)))
            (rw (parse_octets-format a w.octet0 w.octet1 w.octet2 w.octet3) (rw ok)))))

-- Every endpoint with a port other than 0 and an address that is not forbidden is read back from
-- the text that the services print for it.
pub parse-format_endpoint :
    (e : Endpoint) (backend : Bool)
    → IsWord e
    → e.port ≢ 0
    → forbidden_address e.address backend ≡ false
    → parse_ipv4_endpoint (format_endpoint e) backend ≡ some e
parse-format_endpoint e backend w ne ok = go e.address e.port refl refl
  where
    go :
        (a : Address) (p : ℕ)
        → e.address ≡ a
        → e.port ≡ p
        → parse_ipv4_endpoint (format_endpoint e) backend ≡ some e
    go a zero ea ep = absurd (ne ep)
    go a (suc p) ea ep =
        let same : e ≡ record { address = a; port = suc p } =
          λ i. record { address = ea i; port = ep i } in
        rw same (parse-format a p backend (rw same at w) (rw ea at ok))

-- An accepted endpoint is not forbidden and its port is not 0.
pub parse_ipv4_endpoint-allowed :
    (value : Bytes) (backend : Bool) (e : Endpoint)
    → parse_ipv4_endpoint value backend ≡ some e
    → (e.port ≢ 0) × (forbidden_address e.address backend ≡ false)
unfolding parse_ipv4_endpoint
parse_ipv4_endpoint-allowed value backend e h = ground arith
