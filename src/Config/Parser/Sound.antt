-- ===== src/Config/Parser/Sound.antt =====
-- The parser ends on every text, and what it accepts is a valid configuration.
use l4_load_balancer_with_xd.Prelude.{
  ℕ, zero, suc, ◌+◌, ◌≤◌, ◌≡◌, ◌≢◌, inl, inr, refl, ◌∙◌, Bool, true, false, not, ◌||◌, Option, none,
  some, List, [], ◌∷◌, ◌++◌, arith, ltb, if◌then◌else◌, drop, length, length-append, Bool-cases,
}
use Prim.Native.String.{String}
use l4_load_balancer_with_xd.Config.Bytes.{
  Bytes, bytes_eq_iff, codes, bytes_eq, find_byte, before, contains,
}
use l4_load_balancer_with_xd.Config.Endpoint.{
  Endpoint, endpoint_eq, forbidden_address, parse_ipv4_endpoint,
}
use l4_load_balancer_with_xd.Config.Endpoint.RoundTrip.{parse_ipv4_endpoint-allowed}
use l4_load_balancer_with_xd.Config.Parser.Lines.{
  trim, has_forbidden_bytes, is_nil, next_line, next_line-shorter,
}
use l4_load_balancer_with_xd.Config.Parser.{
  Config, ConfigResult, config, error, ErrorKind, file, Parser, initial_parser, Step, accepted,
  refused, protocol_line, metrics_line, health_line, scheduler_line, has_endpoint, add_listen,
  add_backend, or_invalid, endpoint_line, entry_line, keyed_line, parse_line, finish_parse,
  parse_lines, parse_config, is_comment, max_config_bytes,
}

-- An endpoint that a line may name, for a backend or for the listener.
pub record IsAllowed (backend : Bool) (e : Endpoint) : Type 0 where
  pub port : e.port ≢ 0
  pub address : forbidden_address e.address backend ≡ false

abbrev pub AllAllowed : List Endpoint → Type 0
AllAllowed [] = Unit {0}
AllAllowed (e ∷ es) = IsAllowed true e × AllAllowed es

abbrev pub Distinct : List Endpoint → Type 0
Distinct [] = Unit {0}
Distinct (e ∷ es) = (has_endpoint e es ≡ false) × Distinct es

pub record IsValid (c : Config) : Type 0 where
  pub listen : IsAllowed false c.listen
  pub some_backend : 1 ≤ length c.backends
  pub max_backends : length c.backends ≤ 256
  pub backends : AllAllowed c.backends
  pub distinct : Distinct c.backends

-- What holds of the local variables between two lines.
pub record IsParsed (p : Parser) : Type 0 where
  pub listen : p.has_listen ≡ true → IsAllowed false p.config.listen
  pub max_backends : length p.config.backends ≤ 256
  pub backends : AllAllowed p.config.backends
  pub distinct : Distinct p.config.backends

initial_parser-IsParsed : IsParsed initial_parser
initial_parser-IsParsed = record {
  listen = λ e. cc;
  max_backends = omega arith;
  backends = tt;
  distinct = tt;
}

AllAllowed-concat :
    (es : List Endpoint) (e : Endpoint)
    → AllAllowed es
    → IsAllowed true e
    → AllAllowed (es ++ e ∷ [])
AllAllowed-concat [] e v a = (a, tt)
AllAllowed-concat (x ∷ es) e v a = (v.0, AllAllowed-concat es e v.1 a)

has_endpoint-concat :
    (x e : Endpoint) (es : List Endpoint)
    → has_endpoint x (es ++ e ∷ []) ≡ (has_endpoint x es || endpoint_eq e x)
unfolding has_endpoint
has_endpoint-concat x e [] = ground arith
has_endpoint-concat x e (y ∷ es) = rw (has_endpoint-concat x e es) (ground arith)

pub or-false : (a b : Bool) → (a || b) ≡ false → (a ≡ false) × (b ≡ false)
or-false a b h = ground arith

pub false-or : (a b : Bool) → a ≡ false → b ≡ false → (a || b) ≡ false
false-or a b ha hb = ground arith

pub endpoint_eq_comm : (a b : Endpoint) → endpoint_eq a b ≡ endpoint_eq b a
endpoint_eq_comm a b = ground arith

Distinct-concat :
    (es : List Endpoint) (e : Endpoint)
    → Distinct es
    → has_endpoint e es ≡ false
    → Distinct (es ++ e ∷ [])
unfolding has_endpoint
Distinct-concat [] e v h = (refl, tt)
Distinct-concat (x ∷ es) e v h =
    let (ne, rest) = or-false (endpoint_eq x e) (has_endpoint e es) h in
    (
      has_endpoint-concat x e es
          ∙ false-or (has_endpoint x es) (endpoint_eq e x) v.0 (endpoint_eq_comm e x ∙ ne),
      Distinct-concat es e v.1 rest,
    )

Steps : Step → Type 0
Steps (accepted p) = IsParsed p
Steps (refused kind message) = Unit {0}

Steps-refused : (kind : ErrorKind) (message : String) → Steps (refused kind message)
unfolding Steps
Steps-refused kind message = tt

Steps-accepted : (p : Parser) → IsParsed p → Steps (accepted p)
unfolding Steps
Steps-accepted p v = v

Stepped : (p : Parser) → Steps (accepted p) → IsParsed p
unfolding Steps
Stepped p v = v

Steps-if :
    (b : Bool) (s t : Step)
    → (b ≡ true → Steps s)
    → (b ≡ false → Steps t)
    → Steps (if b then s else t)
Steps-if true s t hs ht = hs refl
Steps-if false s t hs ht = ht refl

Steps-or_invalid :
    (o : Option Endpoint) (add : Endpoint → Step)
    → ((e : Endpoint) → o ≡ some e → Steps (add e))
    → Steps (or_invalid o add)
unfolding or_invalid Steps
Steps-or_invalid none add h = tt
Steps-or_invalid (some e) add h = h e refl

module _ (p : Parser) (v : IsParsed p) where
  add_listen-Steps : (e : Endpoint) → IsAllowed false e → Steps (add_listen p e)
  unfolding add_listen Steps
  add_listen-Steps e a = record {
    listen = λ h. a;
    max_backends = v.max_backends;
    backends = v.backends;
    distinct = v.distinct;
  }

  add_backend-Steps : (e : Endpoint) → IsAllowed true e → Steps (add_backend p e)
  unfolding add_backend Steps
  add_backend-Steps e a = ground (
    arith,
    AllAllowed-concat p.config.backends e v.backends a,
    Distinct-concat p.config.backends e v.distinct,
    length-append p.config.backends (e ∷ []),
  )

  parsed :
      (value : Bytes) (backend : Bool) (e : Endpoint)
      → parse_ipv4_endpoint value backend ≡ some e
      → IsAllowed backend e
  parsed value backend e h =
      let (port, address) = parse_ipv4_endpoint-allowed value backend e h in
      record { port = port; address = address }

  endpoint_line-Steps : (key value : Bytes) → Steps (endpoint_line key value p)
  unfolding endpoint_line bytes_eq
  endpoint_line-Steps key value = elim (Bool-cases (bytes_eq key (codes "listen"))) [
    | inl h ↦ rw (bytes_eq_iff key (codes "listen") h) (
        Steps-if p.has_listen _ _ (λ _. Steps-refused _ _)
          (λ _.
            Steps-or_invalid (parse_ipv4_endpoint value false) _
              (λ e found. add_listen-Steps e (parsed value false e found))))
    | inr h ↦ rw h (
        Steps-if (not (bytes_eq key (codes "backend"))) _ _ (λ _. Steps-refused _ _)
          (λ b. rw (bytes_eq_iff key (codes "backend") (ground arith)) (
            Steps-or_invalid (parse_ipv4_endpoint value true) _
              (λ e found. add_backend-Steps e (parsed value true e found)))))
  ]

  protocol_line-Steps : (value : Bytes) → Steps (protocol_line value p)
  unfolding protocol_line Steps
  protocol_line-Steps value = ground arith

  metrics_line-Steps : (value : Bytes) → Steps (metrics_line value p)
  unfolding metrics_line Steps
  metrics_line-Steps value = ground arith

  health_line-Steps : (value : Bytes) → Steps (health_line value p)
  unfolding health_line Steps
  health_line-Steps value = ground arith

  scheduler_line-Steps : (value : Bytes) → Steps (scheduler_line value p)
  unfolding scheduler_line Steps
  scheduler_line-Steps value = ground arith

  entry_line-Steps : (key value : Bytes) → Steps (entry_line key value p)
  unfolding entry_line
  entry_line-Steps key value =
      Steps-if (bytes_eq key (codes "protocol")) _ _ (λ _. protocol_line-Steps value)
        (λ _.
          Steps-if (bytes_eq key (codes "metrics")) _ _ (λ _. metrics_line-Steps value)
            (λ _.
              Steps-if (bytes_eq key (codes "health_check")) _ _ (λ _. health_line-Steps value)
                (λ _.
                  Steps-if (bytes_eq key (codes "scheduler")) _ _ (λ _. scheduler_line-Steps value)
                    (λ _. endpoint_line-Steps key value))))

  keyed_line-Steps : (line : Bytes) (equal : Option ℕ) → Steps (keyed_line line equal p)
  unfolding keyed_line
  keyed_line-Steps line none = Steps-refused _ _
  keyed_line-Steps line (some i) =
      Steps-if (contains b'=' (drop (i + 1) line)) _ _ (λ _. Steps-refused _ _)
        (λ _.
          Steps-if (is_nil (trim (before (some i) line)) || is_nil (trim (drop (i + 1) line))) _ _
            (λ _. Steps-refused _ _)
            (λ _. entry_line-Steps (trim (before (some i) line)) (trim (drop (i + 1) line))))

  parse_line-Steps : (line : Bytes) → Steps (parse_line line p)
  unfolding parse_line
  parse_line-Steps line =
      Steps-if (has_forbidden_bytes line) _ _ (λ _. Steps-refused _ _)
        (λ _.
          Steps-if (is_comment (trim line)) _ _ (λ _. Steps-accepted p v)
            (λ _. keyed_line-Steps (trim line) (find_byte b'=' (trim line))))

-- An accepted configuration is valid, whatever the result is.
abbrev pub Accepts : ConfigResult → Type 0
Accepts (config c) = IsValid c
Accepts (error e) = Unit {0}

finish_parse-Accepts :
    (line_number : ℕ) (p : Parser) → IsParsed p → Accepts (finish_parse line_number p)
unfolding finish_parse
finish_parse-Accepts line_number p v = ground arith

-- With fuel for each byte that is left, the loop ends.
parse_lines-Accepts :
    (fuel : ℕ) (text : Bytes) (line_number : ℕ) (p : Parser)
    → length text ≤ fuel
    → IsParsed p
    → (r : ConfigResult) × (parse_lines fuel text line_number p ≡ some r) × Accepts r
unfolding parse_lines
parse_lines-Accepts zero [] line_number p enough v =
    (finish_parse line_number p, refl, finish_parse-Accepts line_number p v)
parse_lines-Accepts (suc fuel) [] line_number p enough v =
    (finish_parse line_number p, refl, finish_parse-Accepts line_number p v)
parse_lines-Accepts zero (c ∷ cs) line_number p enough v = elim enough [ ]
parse_lines-Accepts (suc fuel) (c ∷ cs) line_number p enough v =
    go (parse_line (next_line (c ∷ cs)).0 p) refl (parse_line-Steps p v (next_line (c ∷ cs)).0)
      (λ q.
        parse_lines-Accepts fuel (next_line (c ∷ cs)).1 (line_number + 1) q
          (omega (arith, next_line-shorter (c ∷ cs) (omega arith))))
  where
    go :
        (s : Step)
        → parse_line (next_line (c ∷ cs)).0 p ≡ s
        → Steps s
        → ((q : Parser)
            → IsParsed q
            → (r : ConfigResult) × (parse_lines fuel (next_line (c ∷ cs)).1 (line_number + 1) q
                ≡ some r)
              × Accepts r)
        → (r : ConfigResult) × (parse_lines (suc fuel) (c ∷ cs) line_number p ≡ some r) × Accepts r
    go (accepted q) e h rest =
        let (r, e', a) = rest q (Stepped q h) in (r, rw (e, parse_lines) e', a)
    go (refused kind message) e h rest = (
      error (record { kind = kind; line = line_number + 1; eof = false; message = message }),
      rw (e, parse_lines),
      tt,
    )

too_long : ConfigResult
too_long = error (record { kind = file; line = 0; eof = false; message = "配置超过 65536 字节" })

-- The parser ends on every text, and each configuration that it accepts names a listener and
-- between 1 and 256 backends, no two of them equal, and none of these endpoints has port 0 or an
-- address that is forbidden in its place.
pub parse_config-Accepts :
    (text : Bytes) → (r : ConfigResult) × (parse_config text ≡ some r) × Accepts r
unfolding parse_config too_long
parse_config-Accepts text = elim (Bool-cases (ltb max_config_bytes (length text))) [
  | inl long ↦ (too_long, rw long, tt)
  | inr short ↦
      let (r, e, a) =
        parse_lines-Accepts (length text) text 0 initial_parser (omega arith)
          initial_parser-IsParsed in
      (r, rw short e, a)
]
