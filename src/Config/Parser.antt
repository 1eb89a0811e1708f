-- ===== src/Config/Parser.antt =====
-- `parseConfig` of src/config/Config.cpp: one line at a time, the first error ends the parse.
-- `Lines` cuts the text, `Sound` is about what an accepted
-- configuration satisfies, `Render` and `Complete` about writing a configuration down.
pub mod Lines
pub mod Sound
pub mod Render
pub mod Complete
use Prim.Native.String.{String}
use l4_load_balancer_with_xd.Prelude.{
  ℕ, zero, suc, ◌+◌, ◌≤◌, ◌<◌, ◌≡◌, ◌≢◌, refl, Bool, true, false, not, ◌&&◌, ◌||◌, Option, none,
  some, List, [], ◌∷◌, ◌++◌, ltb, ◌==◌, if◌then◌else◌, drop, length,
}
use l4_load_balancer_with_xd.Config.Bytes.{Bytes, codes, bytes_eq, find_byte, before, contains}
use l4_load_balancer_with_xd.Config.Endpoint.{
  Endpoint, endpoint_eq, zero_address, parse_ipv4_endpoint,
}
use l4_load_balancer_with_xd.Config.Parser.Lines.{trim, has_forbidden_bytes, next_line, is_nil}

pub data Protocol : Type 0 where
  tcp udp : Protocol

pub data MetricsKind : Type 0 where
  off stderr : MetricsKind

pub data HealthCheck : Type 0 where
  off tcp_connect : HealthCheck

pub data SchedulerKind : Type 0 where
  round_robin : SchedulerKind

pub record Config : Type 0 where
  pub listen : Endpoint
  pub backends : List Endpoint
  pub protocol : Protocol
  pub metrics : MetricsKind
  pub health_check : HealthCheck
  pub scheduler : SchedulerKind

pub data ErrorKind : Type 0 where
  file syntax field missing : ErrorKind

pub record ConfigError : Type 0 where
  pub kind : ErrorKind
  pub line : ℕ
  pub eof : Bool
  pub message : String

-- `ConfigResult`
pub data ConfigResult : Type 0 where
  config : Config → ConfigResult
  error : ConfigError → ConfigResult

-- The local variables of `parseConfig`.
pub record Parser : Type 0 where
  pub config : Config
  pub has_listen : Bool
  pub has_protocol : Bool
  pub has_scheduler : Bool
  pub has_health : Bool
  pub has_metrics : Bool

abbrev pub no_endpoint : Endpoint
no_endpoint = record { address = zero_address; port = 0 }

abbrev pub initial_parser : Parser
initial_parser = record {
  config = record {
    listen = no_endpoint;
    backends = [];
    protocol = tcp;
    metrics = MetricsKind.off;
    health_check = HealthCheck.off;
    scheduler = round_robin;
  };
  has_listen = false;
  has_protocol = false;
  has_scheduler = false;
  has_health = false;
  has_metrics = false;
}

-- What a line comes to: a `continue`, or the error that is returned.
pub data Step : Type 0 where
  accepted : Parser → Step
  refused : ErrorKind → String → Step

protocol_line : Bytes → Parser → Step
protocol_line value p =
    let c = p.config in
    if p.has_protocol
    then refused field "protocol 不能重复"
    else if bytes_eq value (codes "tcp")
    then accepted (record p { config = record c { protocol = tcp }; has_protocol = true })
    else if bytes_eq value (codes "udp")
    then accepted (record p { config = record c { protocol = udp }; has_protocol = true })
    else refused field "protocol 仅支持 tcp/udp"

metrics_line : Bytes → Parser → Step
metrics_line value p =
    let c = p.config in
    if p.has_metrics
    then refused field "metrics 不能重复"
    else if bytes_eq value (codes "off")
    then accepted (record p { config = record c { metrics = MetricsKind.off }; has_metrics = true })
    else if bytes_eq value (codes "stderr")
    then accepted (record p { config = record c { metrics = stderr }; has_metrics = true })
    else refused field "metrics 仅支持 off/stderr"

health_line : Bytes → Parser → Step
health_line value p =
    let c = p.config in
    if p.has_health
    then refused field "health_check 不能重复"
    else if bytes_eq value (codes "off")
    then accepted
        (record p { config = record c { health_check = HealthCheck.off }; has_health = true })
    else if bytes_eq value (codes "tcp_connect")
    then accepted (record p { config = record c { health_check = tcp_connect }; has_health = true })
    else refused field "health_check 仅支持 off/tcp_connect"

scheduler_line : Bytes → Parser → Step
scheduler_line value p =
    let c = p.config in
    if p.has_scheduler
    then refused field "scheduler 不能重复"
    else if not (bytes_eq value (codes "round_robin"))
    then refused field "scheduler 仅支持 round_robin"
    else accepted (record p { config = record c { scheduler = round_robin }; has_scheduler = true })

-- `std::find(backends.begin(), backends.end(), endpoint) != backends.end()`
unfoldable pub has_endpoint : Endpoint → List Endpoint → Bool
has_endpoint e [] = false
has_endpoint e (x ∷ xs) = endpoint_eq x e || has_endpoint e xs

pub add_listen : Parser → Endpoint → Step
add_listen p e =
    accepted (record p { config = record (p.config) { listen = e }; has_listen = true })

pub add_backend : Parser → Endpoint → Step
add_backend p e =
    let c = p.config in
    if length c.backends == 256
    then refused field "backend 最多 256 个"
    else if has_endpoint e c.backends
    then refused field "backend 端点不能重复"
    else accepted (record p { config = record c { backends = c.backends ++ e ∷ [] } })

or_invalid : Option Endpoint → (Endpoint → Step) → Step
or_invalid none add = refused field "无效的 IPv4 地址或端口"
or_invalid (some e) add = add e

endpoint_line : Bytes → Bytes → Parser → Step
unfolding or_invalid add_listen add_backend
endpoint_line key value p =
    let is_listen = bytes_eq key (codes "listen") in
    let is_backend = bytes_eq key (codes "backend") in
    if not is_listen && not is_backend
    then refused field "未知配置键"
    else if is_listen && p.has_listen
    then refused field "listen 不能重复"
    else or_invalid (parse_ipv4_endpoint value is_backend)
        (λ e. if is_listen then add_listen p e else add_backend p e)

unfoldable pub entry_line : Bytes → Bytes → Parser → Step
unfolding protocol_line metrics_line health_line scheduler_line endpoint_line
entry_line key value p =
    if bytes_eq key (codes "protocol")
    then protocol_line value p
    else if bytes_eq key (codes "metrics")
    then metrics_line value p
    else if bytes_eq key (codes "health_check")
    then health_line value p
    else if bytes_eq key (codes "scheduler")
    then scheduler_line value p
    else endpoint_line key value p

-- From the equals sign on.
keyed_line : Bytes → Option ℕ → Parser → Step
keyed_line line none p = refused syntax "每个字段必须恰有一个等号"
keyed_line line (some equal) p =
    let rest = drop (equal + 1) line in
    let key = trim (before (some equal) line) in
    let value = trim rest in
    if contains b'=' rest
    then refused syntax "每个字段必须恰有一个等号"
    else if is_nil key || is_nil value
    then refused syntax "键和值不能为空"
    else entry_line key value p

abbrev is_comment : Bytes → Bool
is_comment [] = true
is_comment (c ∷ cs) = c == b'#'

-- One round of the loop, after the line was cut off.
unfoldable pub parse_line : Bytes → Parser → Step
unfolding keyed_line
parse_line line p =
    let trimmed = trim line in
    if has_forbidden_bytes line
    then refused syntax "不允许 NUL、BOM 或孤立 CR"
    else if is_comment trimmed
    then accepted p
    else keyed_line trimmed (find_byte b'=' trimmed) p

-- After the last line.
unfoldable pub finish_parse : ℕ → Parser → ConfigResult
finish_parse line_number p =
    if not p.has_listen || length p.config.backends == 0
    then error (record {
      kind = missing;
      line = line_number + 1;
      eof = true;
      message = "必须包含一个 listen 和至少一个 backend";
    })
    else config p.config

-- The `while` loop. A round uses one unit of fuel; `none` is the end of the fuel.
unfoldable pub parse_lines : ℕ → Bytes → ℕ → Parser → Option ConfigResult
parse_lines fuel [] line_number p = some (finish_parse line_number p)
parse_lines zero (c ∷ cs) line_number p = none
parse_lines (suc fuel) (c ∷ cs) line_number p =
    let (line, rest) = next_line (c ∷ cs) in
    elim (parse_line line p) [
      | accepted p' ↦ parse_lines fuel rest (line_number + 1) p'
      | refused kind message ↦
          some
            (error (record { kind = kind; line = line_number + 1; eof = false; message = message }))
    ]

abbrev pub max_config_bytes : ℕ
max_config_bytes = 65536

unfoldable pub parse_config : Bytes → Option ConfigResult
parse_config text =
    if ltb max_config_bytes (length text)
    then some (error (record { kind = file; line = 0; eof = false; message = "配置超过 65536 字节" }))
    else parse_lines (length text) text 0 initial_parser
