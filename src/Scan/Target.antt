-- ===== src/Scan/Target.antt =====
-- 05-async-tokio/src/target.rs. Text is its bytes; the separators are ASCII, so cutting bytes at
-- them is cutting text.
pub mod Ports
pub mod Parsed
use rust_fundamentals.Base.{
  ℕ, zero, suc, ◌+◌, ◌-◌, Bool, true, false, ◌||◌, Option, none, some, List, [], ◌∷◌, ◌++◌, ltb,
  leb, ◌==◌, if◌then◌else◌,
}
use rust_fundamentals.Base.Fallible.{Result, ok, err, ◌>>=◌}
use rust_fundamentals.Base.Bytes.{Bytes}
use rust_fundamentals.Base.Decimal.{parse_u16}

pub record Target : Type 0 where
  pub host : Bytes
  pub ports : List ℕ

pub data TargetError : Type 0 where
  missing_host_or_ports : TargetError
  bad_port : Bytes → TargetError
  empty_range : ℕ → ℕ → TargetError

-- `rsplit_once` cuts at the last `c`, `split_once` at the first, `split` at each.
unfoldable pub rsplit_once : ℕ → Bytes → Option (Bytes × Bytes)
rsplit_once c [] = none
rsplit_once c (x ∷ xs) = elim (rsplit_once c xs) [
  | some (before, after) ↦ some (x ∷ before, after)
  | none ↦ if x == c then some ([], xs) else none
]

unfoldable pub split_once : ℕ → Bytes → Option (Bytes × Bytes)
split_once c [] = none
split_once c (x ∷ xs) =
    let later = split_once c xs in
    if x == c
    then some ([], xs)
    else elim later [ none ↦ none | some (before, after) ↦ some (x ∷ before, after) ]

abbrev prepend : ℕ → List Bytes → List Bytes
prepend x [] = (x ∷ []) ∷ []
prepend x (part ∷ parts) = (x ∷ part) ∷ parts

unfoldable pub split : ℕ → Bytes → List Bytes
split c [] = [] ∷ []
split c (x ∷ xs) = let parts = split c xs in if x == c then [] ∷ parts else prepend x parts

-- `n` ports from `start` on.
unfoldable pub ports_from : ℕ → ℕ → List ℕ
ports_from zero start = []
ports_from (suc n) start = start ∷ ports_from n (start + 1)

-- `start..=end`
abbrev pub range_inclusive : ℕ → ℕ → List ℕ
range_inclusive start end = ports_from (end + 1 - start) start

-- A number of a token, or the error that names the token.
unfoldable pub port : Bytes → Bytes → Result TargetError ℕ
port token text = elim (parse_u16 text) [ none ↦ err (bad_port token) | some n ↦ ok n ]

unfoldable pub token_ports : Bytes → Result TargetError (List ℕ)
token_ports token = elim (split_once b'-' token) [
  | some (first, last) ↦ port token first >>= λ start. port token last >>= λ end.
      if ltb end start then err (empty_range start end) else ok (range_inclusive start end)
  | none ↦ port token token >>= λ p. ok (p ∷ [])
]

unfoldable pub tokens_loop : List Bytes → List ℕ → Result TargetError (List ℕ)
tokens_loop [] ports = ok ports
tokens_loop (token ∷ tokens) ports =
    token_ports token >>= λ more. tokens_loop tokens (ports ++ more)

-- `sort_unstable`
unfoldable pub insert_port : ℕ → List ℕ → List ℕ
insert_port p [] = p ∷ []
insert_port p (q ∷ qs) = let rest = insert_port p qs in if leb p q then p ∷ q ∷ qs else q ∷ rest

unfoldable pub sort : List ℕ → List ℕ
sort [] = []
sort (p ∷ ps) = insert_port p (sort ps)

-- `dedup`: of a run of equal ports the first stays.
unfoldable pub dedup_from : ℕ → List ℕ → List ℕ
dedup_from p [] = p ∷ []
dedup_from p (q ∷ qs) = let rest = dedup_from q qs in if p == q then rest else p ∷ rest

unfoldable pub dedup : List ℕ → List ℕ
dedup [] = []
dedup (p ∷ ps) = dedup_from p ps

abbrev pub is_empty : Bytes → Bool
is_empty [] = true
is_empty (c ∷ cs) = false

unfoldable pub parse_target : Bytes → Result TargetError Target
parse_target spec = elim (rsplit_once b':' spec) [
  | none ↦ err missing_host_or_ports
  | some (host, port_spec) ↦
      if is_empty host || is_empty port_spec
      then err missing_host_or_ports
      else (tokens_loop (split b',' port_spec) [] >>= λ ports.
          ok (record { host = host; ports = dedup (sort ports) }))
]
