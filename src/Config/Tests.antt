-- ===== src/Config/Tests.antt =====
-- The parsers on short texts.
use l4_load_balancer_with_xd.Prelude.{◌≤◌, ◌≡◌, ◌↔◌, refl, true, false, none, some, [], ◌∷◌, arith}
use l4_load_balancer_with_xd.Config.Bytes.{codes, find_byte}
use l4_load_balancer_with_xd.Config.Decimal.{scan_digits, parse_unsigned_decimal, to_string}
use l4_load_balancer_with_xd.Config.Decimal.RoundTrip.{decimal_iff}
use l4_load_balancer_with_xd.Config.Endpoint.{
  Endpoint, IsWord, forbidden_address, parse_octets, parse_ipv4_endpoint, format_endpoint,
}
use l4_load_balancer_with_xd.Config.Endpoint.RoundTrip.{parse-format_endpoint}
use l4_load_balancer_with_xd.Config.Parser.{
  Config, ConfigResult, config, tcp, stderr, tcp_connect, round_robin, has_endpoint, parse_config,
}
use l4_load_balancer_with_xd.Config.Parser.Sound.{IsValid, Accepts, parse_config-Accepts}
use l4_load_balancer_with_xd.Config.Parser.Render.{render, entry, render_backends}
use l4_load_balancer_with_xd.Config.Parser.Complete.{parse_config-render}

abbrev listener : Endpoint
listener = record { address = record { b0 = 10; b1 = 0; b2 = 0; b3 = 1 }; port = 80 }

abbrev server : Endpoint
server = record { address = record { b0 = 10; b1 = 0; b2 = 0; b3 = 9 }; port = 8080 }

listener-IsWord : IsWord listener
listener-IsWord = record {
  octet0 = omega arith;
  octet1 = omega arith;
  octet2 = omega arith;
  octet3 = omega arith;
  port16 = omega arith;
}

server-IsWord : IsWord server
server-IsWord = record {
  octet0 = omega arith;
  octet1 = omega arith;
  octet2 = omega arith;
  octet3 = omega arith;
  port16 = omega arith;
}

abbrev small : Config
small = record {
  listen = listener;
  backends = server ∷ [];
  protocol = tcp;
  metrics = stderr;
  health_check = tcp_connect;
  scheduler = round_robin;
}

small-IsValid : IsValid small
unfolding forbidden_address has_endpoint
small-IsValid = record {
  listen = record { port = omega arith; address = refl };
  some_backend = omega arith;
  max_backends = omega arith;
  backends = (record { port = omega arith; address = refl }, tt);
  distinct = (refl, tt);
}

no_leading_zero : parse_unsigned_decimal (codes "080") 65535 ≡ none
unfolding parse_unsigned_decimal
no_leading_zero = refl

multicast_is_refused : parse_ipv4_endpoint (codes "224.0.0.1:80") false ≡ none
unfolding parse_ipv4_endpoint find_byte parse_unsigned_decimal scan_digits parse_octets
multicast_is_refused = refl

decimal_iff_example :
    (parse_unsigned_decimal (codes "80") 65535 ≡ some 80)
    ↔ ((codes "80" ≡ to_string 80) × (80 ≤ 65535))
decimal_iff_example = decimal_iff 65535 (codes "80") 80 (omega arith) (omega arith)

parse-format_endpoint_example : parse_ipv4_endpoint (format_endpoint server) true ≡ some server
unfolding forbidden_address
parse-format_endpoint_example = parse-format_endpoint server true server-IsWord (omega arith) refl

parse_config-Accepts_example :
    (r : ConfigResult) × (parse_config (codes "listen=10.0.0.1:80\n") ≡ some r) × Accepts r
parse_config-Accepts_example = parse_config-Accepts (codes "listen=10.0.0.1:80\n")

parse_config-render_example : parse_config (render small) ≡ some (config small)
unfolding render entry format_endpoint to_string render_backends
parse_config-render_example =
    parse_config-render small small-IsValid listener-IsWord (server-IsWord, tt) (omega arith)
