-- ===== src/Scan/Tests.antt =====
-- The theorem on targets at a concrete specification.
use rust_fundamentals.Base.{◌≡◌, refl, [], ◌∷◌}
use rust_fundamentals.Base.Fallible.{ok, err}
use rust_fundamentals.Base.Bytes.{Bytes}
use rust_fundamentals.Base.Decimal.{digit, read_digits, read_number, parse_u16}
use rust_fundamentals.Scan.Target.{
  Target, missing_host_or_ports, empty_range, rsplit_once, split_once, split, ports_from, port,
  token_ports, tokens_loop, insert_port, sort, dedup_from, dedup, parse_target,
}
use rust_fundamentals.Scan.Target.Parsed.{Accepted, parse_target-Accepted}

-- `h:80-82,81,9`
abbrev spec : Bytes
spec = b'h' ∷ b':' ∷ b'8' ∷ b'0' ∷ b'-' ∷ b'8' ∷ b'2' ∷ b',' ∷ b'8' ∷ b'1' ∷ b',' ∷ b'9' ∷ []

abbrev target : Target
target = record { host = b'h' ∷ []; ports = 9 ∷ 80 ∷ 81 ∷ 82 ∷ [] }

parses : parse_target spec ≡ ok target
unfolding parse_target rsplit_once split_once split ports_from port token_ports tokens_loop
    insert_port sort dedup_from dedup digit read_digits read_number parse_u16
parses = refl

-- `h:90-80` and `h`
refuses_backwards :
    parse_target (b'h' ∷ b':' ∷ b'9' ∷ b'0' ∷ b'-' ∷ b'8' ∷ b'0' ∷ []) ≡ err (empty_range 90 80)
unfolding parse_target rsplit_once split_once split ports_from port token_ports tokens_loop digit
    read_digits read_number parse_u16
refuses_backwards = refl

refuses_bare : parse_target (b'h' ∷ []) ≡ err missing_host_or_ports
unfolding parse_target rsplit_once
refuses_bare = refl

parse_target-Accepted_example : (port_spec : Bytes) × Accepted spec target port_spec
parse_target-Accepted_example = parse_target-Accepted spec target parses
