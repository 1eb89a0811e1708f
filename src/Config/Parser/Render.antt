-- ===== src/Config/Parser/Render.antt =====
-- A text of one entry to a line, and how the parser reads one of its lines.
use l4_load_balancer_with_xd.Prelude.{
  ℕ, suc, ◌+◌, ◌<◌, ◌≡◌, ◌≢◌, refl, ap, ◌∙◌, Bool, true, false, none, some, List, [], ◌∷◌, ◌++◌,
  arith, length, length-append,
}
use l4_load_balancer_with_xd.Config.Bytes.{
  Bytes, codes, bytes_eq, find_byte, Lacks, Lacks-append, find_byte-append, take-length_append,
  drop-length_append,
}
use l4_load_balancer_with_xd.Config.Decimal.{to_string}
use l4_load_balancer_with_xd.Config.Decimal.RoundTrip.{IsDigits, to_string-IsDigits}
use l4_load_balancer_with_xd.Config.Endpoint.{
  Endpoint, IsWord, format_endpoint, parse_ipv4_endpoint,
}
use l4_load_balancer_with_xd.Config.Endpoint.RoundTrip.{parse-format_endpoint}
use l4_load_balancer_with_xd.Config.Parser.Lines.{next_line}
use l4_load_balancer_with_xd.Config.Parser.Lines.Visible.{
  IsVisible, IsVisible-append, IsDigits-IsVisible, trim-IsVisible, has_forbidden_bytes-IsVisible,
  contains-Lacks, next_line-IsVisible,
}
use l4_load_balancer_with_xd.Config.Parser.{
  Config, Parser, accepted, Protocol, tcp, udp, MetricsKind, stderr, HealthCheck, tcp_connect,
  add_listen, add_backend, entry_line, keyed_line, parse_line, parse_lines,
}
use l4_load_balancer_with_xd.Config.Parser.Sound.{IsAllowed}

-- A line of a key and a value reaches the entry that it names.
module _ (k : ℕ) (key : Bytes) (x : ℕ) (value : Bytes) (p : Parser) where
  parse_line-entry :
      IsVisible (k ∷ key)
      → IsVisible (x ∷ value)
      → Lacks b'=' (k ∷ key)
      → Lacks b'=' (x ∷ value)
      → k ≢ b'#'
      → parse_line (k ∷ key ++ b'=' ∷ x ∷ value) p ≡ entry_line (k ∷ key) (x ∷ value) p
  unfolding parse_line
  parse_line-entry vk vx lk lx ne =
      let line = k ∷ key ++ b'=' ∷ x ∷ value in
      let visible =
        IsVisible-append (k ∷ key) (b'=' ∷ x ∷ value) vk (omega arith, omega arith, vx) in
      rw (has_forbidden_bytes-IsVisible line visible) (
        rw (trim-IsVisible line visible) (
          rw (find_byte-append b'=' (k ∷ key) (x ∷ value) lk) (
            rw
              (
                take-length_append (k ∷ key) (b'=' ∷ x ∷ value),
                drop-length_append (k ∷ key) b'=' (x ∷ value),
                trim-IsVisible (k ∷ key) vk,
                trim-IsVisible (x ∷ value) vx,
                contains-Lacks b'=' (x ∷ value) lx,
                keyed_line,
              )
              (ground arith))))

-- The text of a configuration.
abbrev pub protocol_name : Protocol → Bytes
protocol_name tcp = codes "tcp"
protocol_name udp = codes "udp"

abbrev pub metrics_name : MetricsKind → Bytes
metrics_name MetricsKind.off = codes "off"
metrics_name stderr = codes "stderr"

abbrev pub health_check_name : HealthCheck → Bytes
health_check_name HealthCheck.off = codes "off"
health_check_name tcp_connect = codes "tcp_connect"

unfoldable pub entry : Bytes → Bytes → Bytes → Bytes
entry key value rest = (key ++ b'=' ∷ value) ++ b'\n' ∷ rest

unfoldable pub render_backends : List Endpoint → Bytes
render_backends [] = []
render_backends (e ∷ es) = entry (codes "backend") (format_endpoint e) (render_backends es)

unfoldable pub render : Config → Bytes
render c = entry (codes "protocol") (protocol_name c.protocol) (
    entry (codes "metrics") (metrics_name c.metrics) (
      entry (codes "health_check") (health_check_name c.health_check) (
        entry (codes "scheduler") (codes "round_robin")
          (entry (codes "listen") (format_endpoint c.listen) (render_backends c.backends)))))

parse_lines-step :
    (fuel c : ℕ) (cs line rest : Bytes) (n : ℕ) (p q : Parser)
    → next_line (c ∷ cs) ≡ (line, rest)
    → parse_line line p ≡ accepted q
    → parse_lines (suc fuel) (c ∷ cs) n p ≡ parse_lines fuel rest (n + 1) q
unfolding parse_lines
parse_lines-step fuel c cs line rest n p q cut e =
    rw (cut, parse_lines) (rw (e, parse_lines) (rw cut))

-- One round of the loop on such a line.
pub parse_lines-entry :
    (k : ℕ) (key value rest : Bytes) (fuel n : ℕ) (p q : Parser)
    → IsVisible (k ∷ key)
    → Lacks b'=' (k ∷ key)
    → k ≢ b'#'
    → IsVisible value
    → Lacks b'=' value
    → value ≢ []
    → entry_line (k ∷ key) value p ≡ accepted q
    → parse_lines (suc fuel) (entry (k ∷ key) value rest) n p ≡ parse_lines fuel rest (n + 1) q
parse_lines-entry k key [] rest fuel n p q vk lk ne vx lx full e = absurd (full refl)
parse_lines-entry k key (x ∷ value) rest fuel n p q vk lk ne vx lx full e =
    let line = k ∷ key ++ b'=' ∷ x ∷ value in
    let visible = IsVisible-append (k ∷ key) (b'=' ∷ x ∷ value) vk (omega arith, omega arith, vx) in
    unfold entry in
    parse_lines-step fuel k (key ++ b'=' ∷ x ∷ value ++ b'\n' ∷ rest) line rest n p q
      (next_line-IsVisible line rest visible) (parse_line-entry k key x value p vk vx lk lx ne ∙ e)

IsDigits-Lacks : (xs : Bytes) → IsDigits xs → Lacks b'=' xs
IsDigits-Lacks [] v = tt
IsDigits-Lacks (x ∷ xs) v = ((λ e. omega arith), IsDigits-Lacks xs v.2)

-- What the text of an endpoint is made of.
module _ {P : Bytes → Type 0} (joined : (xs ys : Bytes) → P xs → P ys → P (xs ++ ys))
    (digits : (n : ℕ) → P (to_string n)) (dot : P (b'.' ∷ [])) (colon : P (b':' ∷ [])) where
  format_endpoint-all : (e : Endpoint) → P (format_endpoint e)
  unfolding format_endpoint
  format_endpoint-all e =
      let octet = λ (n : ℕ) (rest : Bytes) (h : P rest).
        joined (to_string n) (b'.' ∷ rest) (digits n) (joined (b'.' ∷ []) rest dot h) in
      let a = e.address in
      joined _ (b':' ∷ to_string e.port) (octet a.b0 _ (octet a.b1 _ (octet a.b2 _ (digits a.b3))))
        (joined (b':' ∷ []) (to_string e.port) colon (digits e.port))

pub format_endpoint-IsVisible : (e : Endpoint) → IsVisible (format_endpoint e)
format_endpoint-IsVisible =
    format_endpoint-all {P = IsVisible} IsVisible-append
      (λ n. IsDigits-IsVisible (to_string n) (to_string-IsDigits n)) (omega arith) (omega arith)

pub format_endpoint-Lacks : (e : Endpoint) → Lacks b'=' (format_endpoint e)
format_endpoint-Lacks =
    format_endpoint-all {P = Lacks b'='} (Lacks-append b'=')
      (λ n. IsDigits-Lacks (to_string n) (to_string-IsDigits n)) ((λ e. omega arith), tt)
      ((λ e. omega arith), tt)

parse-nil : (backend : Bool) → parse_ipv4_endpoint [] backend ≡ none
unfolding parse_ipv4_endpoint find_byte
parse-nil backend = refl

module _ (e : Endpoint) (backend : Bool) (w : IsWord e) (a : IsAllowed backend e) where
  pub reads : parse_ipv4_endpoint (format_endpoint e) backend ≡ some e
  reads = parse-format_endpoint e backend w a.port a.address

  pub format_endpoint-ne-nil : format_endpoint e ≢ []
  format_endpoint-ne-nil h =
      cc (reads, ap (λ v. parse_ipv4_endpoint v backend) h, parse-nil backend)

pub entry_line-backend :
    (e : Endpoint) (p : Parser)
    → parse_ipv4_endpoint (format_endpoint e) true ≡ some e
    → entry_line (codes "backend") (format_endpoint e) p ≡ add_backend p e
unfolding entry_line bytes_eq
entry_line-backend e p found = rw found

pub entry_line-listen :
    (e : Endpoint) (p : Parser)
    → p.has_listen ≡ false
    → parse_ipv4_endpoint (format_endpoint e) false ≡ some e
    → entry_line (codes "listen") (format_endpoint e) p ≡ add_listen p e
unfolding entry_line bytes_eq
entry_line-listen e p fresh found = rw (fresh) (rw found)

pub length-entry : (key value rest : Bytes) → length rest < length (entry key value rest)
unfolding entry
length-entry key value rest = omega (arith, length-append (key ++ b'=' ∷ value) (b'\n' ∷ rest))
