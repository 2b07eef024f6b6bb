-- ===== src/Config/Tests.antt =====
-- The theorems on the loader at a concrete environment.
use rust_fundamentals.Base.{
  ℕ, ◌≡◌, ◌≢◌, ◌↔◌, refl, Bool, true, false, none, some, List, [], ◌∷◌, ◌++◌, leb, ltb, ◌==◌,
  if◌then◌else◌, All, ◌&&◌, ◌||◌,
}
use rust_fundamentals.Base.Map.{insert, key_eq}
use rust_fundamentals.Base.Decimal.{digit, read_digits, read_number, parse_unsigned}
use rust_fundamentals.Config.VarName.{
  Text, missing, parse_failed, invalid_name, first_char, parse, rest_valid, Validated,
  parse-Validated,
}
use rust_fundamentals.Config.FromEnv.{
  u16, u64, string, bool, from_env_str, parse_bool, trim_start, trim_end, to_ascii_lowercase, boxed,
  u16_value, string_value,
}
use rust_fundamentals.Config.Loader.{
  Environment, Env, loaded, new, require, optional_or, load, Request, required, wanted, defaulted,
  declare, declare_all,
}
use rust_fundamentals.Config.Loader.Reports.{problem_of, problems, Reported, declare_all-Reported}
use rust_fundamentals.Config.Loader.Reads.{Readable, required-Readable}

-- `P`, `PL` and `d`
abbrev port : Text
port = b'P' ∷ []

abbrev level : Text
level = b'P' ∷ b'L' ∷ []

abbrev lower : Text
lower = b'd' ∷ []

-- `P` is `80`, and nothing else is set.
unfoldable only_port : Environment
only_port name = if key_eq name port then some (b'8' ∷ b'0' ∷ []) else none

parses_bool : parse_bool (32 ∷ b'T' ∷ b'r' ∷ b'U' ∷ b'e' ∷ 9 ∷ []) ≡ some true
unfolding parse_bool trim_start trim_end to_ascii_lowercase key_eq rust_fundamentals.Base.Order.cmp
parses_bool = refl

abbrev good : Env
good = record { bag = (port, u16_value 80) ∷ (level, string_value (b'x' ∷ [])) ∷ [] }

loads_good :
    load (
      declare_all only_port
        ([] ++ (required u16 port ∷ defaulted string level (b'x' ∷ []) ∷ []))
        new)
    ≡ loaded good
unfolding load declare_all declare require optional_or only_port parse rest_valid from_env_str
    parse_unsigned digit read_digits read_number boxed insert key_eq
    rust_fundamentals.Base.Order.cmp
loads_good = refl

abbrev bad : List Request
bad = required u64 level ∷ wanted bool port ∷ wanted u16 lower ∷ required u16 port ∷ []

reports_bad :
    problems only_port bad ≡ missing level ∷ parse_failed port ∷ invalid_name lower first_char ∷ []
unfolding problems problem_of only_port parse rest_valid from_env_str parse_bool parse_unsigned
    trim_start trim_end to_ascii_lowercase digit read_digits read_number key_eq
    rust_fundamentals.Base.Order.cmp
reports_bad = refl

declare_all-Reported_example :
    Reported (problems only_port bad) (load (declare_all only_port bad new))
declare_all-Reported_example = declare_all-Reported only_port bad

required-Readable_example : Readable only_port u16 port good
required-Readable_example =
    required-Readable only_port [] (defaulted string level (b'x' ∷ []) ∷ []) u16 port good
      loads_good ((λ e. cc e), tt)

parse-Validated_example : Validated lower (parse lower)
parse-Validated_example = parse-Validated lower
