-- ===== src/Config/Parser/Complete.antt =====
-- Every valid configuration can be written down: a text of one entry to a line, which the parser
-- reads back.
use mathlib.Core.List.{append_assoc, append-nil}
use mathlib.Core.Path.{ap₂}
use l4_load_balancer_with_xd.Prelude.{
  ℕ, zero, suc, ◌+◌, ◌-◌, ◌≤◌, ◌<◌, ◌≡◌, ◌≢◌, refl, sym, ap, ◌∙◌, true, false, some, List, [], ◌∷◌,
  ◌++◌, arith, ltb, ◌==◌, length, length-append,
}
use l4_load_balancer_with_xd.Config.Bytes.{Bytes, codes, bytes_eq, Lacks}
use l4_load_balancer_with_xd.Config.Endpoint.{Endpoint, endpoint_eq, IsWord, format_endpoint}
use l4_load_balancer_with_xd.Config.Parser.Lines.Visible.{IsVisible}
use l4_load_balancer_with_xd.Config.Parser.{
  Config, config, Parser, initial_parser, accepted, Protocol, tcp, udp, MetricsKind, stderr,
  HealthCheck, tcp_connect, SchedulerKind, round_robin, has_endpoint, add_listen, add_backend,
  entry_line, finish_parse, parse_lines, parse_config, max_config_bytes,
}
use l4_load_balancer_with_xd.Config.Parser.Sound.{
  or-false, false-or, endpoint_eq_comm, IsValid, AllAllowed, Distinct,
}
use l4_load_balancer_with_xd.Config.Parser.Render.{
  render, render_backends, entry, protocol_name, metrics_name, health_check_name, parse_lines-entry,
  format_endpoint-IsVisible, format_endpoint-Lacks, reads, format_endpoint-ne-nil,
  entry_line-backend, entry_line-listen, length-entry,
}

has_endpoint-middle :
    (x : Endpoint) (xs : List Endpoint) (e : Endpoint) (ys : List Endpoint)
    → has_endpoint x (xs ++ e ∷ ys) ≡ false
    → endpoint_eq e x ≡ false
unfolding has_endpoint
has_endpoint-middle x [] e ys h = (or-false (endpoint_eq e x) (has_endpoint x ys) h).0
has_endpoint-middle x (y ∷ xs) e ys h =
    has_endpoint-middle x xs e ys (or-false (endpoint_eq y x) (has_endpoint x (xs ++ e ∷ ys)) h).1

has_endpoint-Distinct :
    (xs : List Endpoint) (e : Endpoint) (ys : List Endpoint)
    → Distinct (xs ++ e ∷ ys)
    → has_endpoint e xs ≡ false
unfolding has_endpoint
has_endpoint-Distinct [] e ys v = refl
has_endpoint-Distinct (x ∷ xs) e ys v =
    false-or (endpoint_eq x e) (has_endpoint e xs)
      (endpoint_eq_comm x e ∙ has_endpoint-middle x xs e ys v.0) (has_endpoint-Distinct xs e ys v.1)

abbrev pub AllWord : List Endpoint → Type 0
AllWord [] = Unit {0}
AllWord (e ∷ es) = IsWord e × AllWord es

abbrev with_backends : Parser → List Endpoint → Parser
with_backends p es = record p { config = record (p.config) { backends = es } }

add_backend-accepted :
    (p : Parser) (e : Endpoint)
    → length p.config.backends < 256
    → has_endpoint e p.config.backends ≡ false
    → add_backend p e ≡ accepted (with_backends p (p.config.backends ++ e ∷ []))
unfolding add_backend
add_backend-accepted p e room fresh = ground arith

parse_lines-nil : (fuel n : ℕ) (p : Parser) → parse_lines fuel [] n p ≡ some (finish_parse n p)
unfolding parse_lines
parse_lines-nil zero n p = refl
parse_lines-nil (suc fuel) n p = refl

parse_lines-backends :
    (es : List Endpoint) (fuel n : ℕ) (p : Parser)
    → length (render_backends es) ≤ fuel
    → AllAllowed es
    → AllWord es
    → Distinct (p.config.backends ++ es)
    → length (p.config.backends ++ es) ≤ 256
    → parse_lines fuel (render_backends es) n p
      ≡ some (finish_parse (n + length es) (with_backends p (p.config.backends ++ es)))
unfolding render_backends
parse_lines-backends [] fuel n p enough va vw distinct few =
    parse_lines-nil fuel n p
    ∙ ap₂ (λ k bs. some (finish_parse k (with_backends p bs))) (omega arith)
        (sym (append-nil p.config.backends))
parse_lines-backends (e ∷ es) zero n p enough va vw distinct few =
    absurd (omega (arith, length-entry (codes "backend") (format_endpoint e) (render_backends es)))
parse_lines-backends (e ∷ es) (suc fuel) n p enough va vw distinct few =
    let bs = p.config.backends in
    let regroup = append_assoc bs (e ∷ []) es in
    let added =
      add_backend-accepted p e (omega (arith, length-append bs (e ∷ es)))
        (has_endpoint-Distinct bs e es distinct) in
    parse_lines-entry b'b' (codes "ackend") (format_endpoint e) (render_backends es) fuel n p
      (with_backends p (bs ++ e ∷ [])) (omega arith) (omega arith) (omega arith)
      (format_endpoint-IsVisible e) (format_endpoint-Lacks e)
      (format_endpoint-ne-nil e true vw.0 va.0)
      (entry_line-backend e p (reads e true vw.0 va.0) ∙ added)
    ∙ parse_lines-backends es fuel (n + 1) (with_backends p (bs ++ e ∷ []))
        (omega (arith, length-entry (codes "backend") (format_endpoint e) (render_backends es)))
        va.1 vw.1 (rw regroup distinct) (rw regroup few)
    ∙ ap₂ (λ k bs. some (finish_parse k (with_backends p bs))) (omega arith) regroup

-- The local variables after the lines that stand before the first endpoint.
abbrev after_protocol : Protocol → Parser
after_protocol x = record initial_parser {
  config = record (initial_parser.config) { protocol = x };
  has_protocol = true;
}

abbrev after_metrics : Protocol → MetricsKind → Parser
after_metrics x m =
    let p = after_protocol x in
    record p { config = record (p.config) { metrics = m }; has_metrics = true }

abbrev after_health : Protocol → MetricsKind → HealthCheck → Parser
after_health x m h =
    let p = after_metrics x m in
    record p { config = record (p.config) { health_check = h }; has_health = true }

abbrev after_scheduler : Protocol → MetricsKind → HealthCheck → Parser
after_scheduler x m h = record (after_health x m h) { has_scheduler = true }

abbrev after_listen : Protocol → MetricsKind → HealthCheck → Endpoint → Parser
after_listen x m h e =
    let p = after_scheduler x m h in
    record p { config = record (p.config) { listen = e }; has_listen = true }

entry_line-protocol :
    (x : Protocol)
    → entry_line (codes "protocol") (protocol_name x) initial_parser ≡ accepted (after_protocol x)
unfolding entry_line bytes_eq
entry_line-protocol tcp = refl
entry_line-protocol udp = refl

entry_line-metrics :
    (x : Protocol) (m : MetricsKind)
    → entry_line (codes "metrics") (metrics_name m) (after_protocol x)
      ≡ accepted (after_metrics x m)
unfolding entry_line bytes_eq
entry_line-metrics x MetricsKind.off = refl
entry_line-metrics x stderr = refl

entry_line-health :
    (x : Protocol) (m : MetricsKind) (h : HealthCheck)
    → entry_line (codes "health_check") (health_check_name h) (after_metrics x m)
      ≡ accepted (after_health x m h)
unfolding entry_line bytes_eq
entry_line-health x m HealthCheck.off = refl
entry_line-health x m tcp_connect = refl

entry_line-scheduler :
    (x : Protocol) (m : MetricsKind) (h : HealthCheck)
    → entry_line (codes "scheduler") (codes "round_robin") (after_health x m h)
      ≡ accepted (after_scheduler x m h)
unfolding entry_line bytes_eq
entry_line-scheduler x m h = refl

names-protocol :
    (x : Protocol)
    → IsVisible (protocol_name x) × Lacks b'=' (protocol_name x) × (protocol_name x ≢ [])
names-protocol tcp = (omega arith, omega arith, λ e. cc)
names-protocol udp = (omega arith, omega arith, λ e. cc)

names-metrics :
    (m : MetricsKind)
    → IsVisible (metrics_name m) × Lacks b'=' (metrics_name m) × (metrics_name m ≢ [])
names-metrics MetricsKind.off = (omega arith, omega arith, λ e. cc)
names-metrics stderr = (omega arith, omega arith, λ e. cc)

names-health :
    (h : HealthCheck)
    → IsVisible (health_check_name h)
      × Lacks b'=' (health_check_name h)
      × (health_check_name h ≢ [])
names-health HealthCheck.off = (omega arith, omega arith, λ e. cc)
names-health tcp_connect = (omega arith, omega arith, λ e. cc)

-- A line with fuel enough for the text, and what is left of the fuel for the lines after it.
parse_lines-enough :
    (k : ℕ) (key value rest : Bytes) (fuel n : ℕ) (p q : Parser)
    → length (entry (k ∷ key) value rest) ≤ fuel
    → IsVisible (k ∷ key)
    → Lacks b'=' (k ∷ key)
    → k ≢ b'#'
    → IsVisible value × Lacks b'=' value × (value ≢ [])
    → entry_line (k ∷ key) value p ≡ accepted q
    → (parse_lines fuel (entry (k ∷ key) value rest) n p ≡ parse_lines (fuel - 1) rest (n + 1) q)
      × (length rest ≤ fuel - 1)
parse_lines-enough k key value rest zero n p q enough vk lk ne (vx, lx, full) e =
    absurd (omega (arith, length-entry (k ∷ key) value rest))
parse_lines-enough k key value rest (suc fuel) n p q enough vk lk ne (vx, lx, full) e = (
  parse_lines-entry k key value rest fuel n p q vk lk ne vx lx full e
      ∙ ap (λ f. parse_lines f rest (n + 1) q) {x = fuel} {y = suc fuel - 1} (omega arith),
  omega (arith, length-entry (k ∷ key) value rest),
)

only_scheduler : (s : SchedulerKind) → round_robin ≡ s
only_scheduler round_robin = refl

finish_parse-full :
    (c : Config) (n : ℕ)
    → 1 ≤ length c.backends
    → finish_parse n
        (with_backends (after_listen c.protocol c.metrics c.health_check c.listen) c.backends)
      ≡ config c
unfolding finish_parse
finish_parse-full c n some_backend =
    let nonempty : (length c.backends == 0) ≡ false = ground arith in
    rw nonempty (ap (λ s. config (record c { scheduler = s })) (only_scheduler c.scheduler))

-- The round trip with the fuel apart from the text.
parse_lines-render :
    (c : Config) (fuel : ℕ)
    → IsValid c
    → IsWord c.listen
    → AllWord c.backends
    → length (render c) ≤ fuel
    → parse_lines fuel (render c) 0 initial_parser ≡ some (config c)
unfolding render add_listen
parse_lines-render c fuel v wl wb enough =
    let x = c.protocol in
    let m = c.metrics in
    let h = c.health_check in
    let endpoints =
      entry (codes "listen") (format_endpoint c.listen) (render_backends c.backends) in
    let schedulers = entry (codes "scheduler") (codes "round_robin") endpoints in
    let healths = entry (codes "health_check") (health_check_name h) schedulers in
    let metricss = entry (codes "metrics") (metrics_name m) healths in
    let (e1, l1) =
      parse_lines-enough b'p' (codes "rotocol") (protocol_name x) metricss fuel 0 initial_parser
        (after_protocol x) enough (omega arith) (omega arith) (omega arith) (names-protocol x)
        (entry_line-protocol x) in
    let (e2, l2) =
      parse_lines-enough b'm' (codes "etrics") (metrics_name m) healths (fuel - 1) 1
        (after_protocol x) (after_metrics x m) l1 (omega arith) (omega arith) (omega arith)
        (names-metrics m) (entry_line-metrics x m) in
    let (e3, l3) =
      parse_lines-enough b'h' (codes "ealth_check") (health_check_name h) schedulers (fuel - 1 - 1)
        2 (after_metrics x m) (after_health x m h) l2 (omega arith) (omega arith) (omega arith)
        (names-health h) (entry_line-health x m h) in
    let (e4, l4) =
      parse_lines-enough b's' (codes "cheduler") (codes "round_robin") endpoints (fuel - 1 - 1 - 1)
        3 (after_health x m h) (after_scheduler x m h) l3 (omega arith) (omega arith) (omega arith)
        (omega arith, omega arith, λ e. cc) (entry_line-scheduler x m h) in
    let (e5, l5) =
      parse_lines-enough b'l' (codes "isten") (format_endpoint c.listen)
        (render_backends c.backends) (fuel - 1 - 1 - 1 - 1) 4 (after_scheduler x m h)
        (after_listen x m h c.listen) l4 (omega arith) (omega arith) (omega arith)
        (
          format_endpoint-IsVisible c.listen,
          format_endpoint-Lacks c.listen,
          format_endpoint-ne-nil c.listen false wl v.listen,
        )
        (entry_line-listen c.listen (after_scheduler x m h) refl
          (reads c.listen false wl v.listen)) in
    let backends =
      parse_lines-backends c.backends (fuel - 1 - 1 - 1 - 1 - 1) 5 (after_listen x m h c.listen) l5
        v.backends wb v.distinct v.max_backends in
    e1
    ∙ e2
    ∙ e3
    ∙ e4
    ∙ e5
    ∙ backends
    ∙ ap some (finish_parse-full c (5 + length c.backends) v.some_backend)

-- A valid configuration whose octets and ports are in their ranges, written down one entry to a line
-- in at most 65536 bytes, is read back by the parser unchanged: nothing is refused, and no field is
-- lost or reordered.
pub parse_config-render :
    (c : Config)
    → IsValid c
    → IsWord c.listen
    → AllWord c.backends
    → length (render c) ≤ 65536
    → parse_config (render c) ≡ some (config c)
unfolding parse_config
parse_config-render c v wl wb small =
    let fits : ltb max_config_bytes (length (render c)) ≡ false = ground arith in
    rw fits (parse_lines-render c (length (render c)) v wl wb (omega arith))
