-- ===== src/Config/FromEnv.antt =====
-- 03-error-handling-api-design/src/from_env.rs: the types that implement the sealed trait, and
-- their parsers; `none` is a failure. `usize` has 64 bits.
use rust_fundamentals.Base.{
  ℕ, ◌+◌, ◌≡◌, ◌≢◌, refl, Bool, true, false, ◌&&◌, ◌||◌, Option, none, some, [], ◌∷◌, leb,
  if◌then◌else◌,
}
use rust_fundamentals.Base.Decimal.{ℤ, parse_unsigned, parse_signed}
use rust_fundamentals.Base.Map.{key_eq}
use rust_fundamentals.Base.Chars.{is_whitespace}
use rust_fundamentals.Config.VarName.{Text}

pub data VarType : Type 0 where
  u16 : VarType
  u32 : VarType
  u64 : VarType
  usize : VarType
  i32 : VarType
  i64 : VarType
  string : VarType
  bool : VarType

abbrev pub Meaning : VarType → Type 0
Meaning u16 = ℕ
Meaning u32 = ℕ
Meaning u64 = ℕ
Meaning usize = ℕ
Meaning i32 = ℤ
Meaning i64 = ℤ
Meaning string = Text
Meaning bool = Bool

unfoldable pub trim_start : Text → Text
trim_start [] = []
trim_start (c ∷ cs) = if is_whitespace c then trim_start cs else c ∷ cs

unfoldable pub trim_end : Text → Text
trim_end [] = []
trim_end (c ∷ cs) = elim (trim_end cs) [
  | [] ↦ if is_whitespace c then [] else c ∷ []
  | d ∷ ds ↦ c ∷ d ∷ ds
]

unfoldable pub to_ascii_lowercase : Text → Text
to_ascii_lowercase [] = []
to_ascii_lowercase (c ∷ cs) =
    (if leb b'A' c && leb c b'Z' then c + 32 else c) ∷ to_ascii_lowercase cs

unfoldable pub parse_bool : Text → Option Bool
parse_bool raw =
    let normalized = to_ascii_lowercase (trim_end (trim_start raw)) in
    if key_eq normalized (b't' ∷ b'r' ∷ b'u' ∷ b'e' ∷ []) || key_eq normalized (b'1' ∷ [])
    then some true
    else if key_eq normalized (b'f' ∷ b'a' ∷ b'l' ∷ b's' ∷ b'e' ∷ [])
        || key_eq normalized (b'0' ∷ [])
    then some false
    else none

unfoldable pub from_env_str : (t : VarType) → Text → Option (Meaning t)
from_env_str u16 raw = parse_unsigned 16 raw
from_env_str u32 raw = parse_unsigned 32 raw
from_env_str u64 raw = parse_unsigned 64 raw
from_env_str usize raw = parse_unsigned 64 raw
from_env_str i32 raw = parse_signed 31 raw
from_env_str i64 raw = parse_signed 63 raw
from_env_str string raw = some raw
from_env_str bool raw = parse_bool raw

-- A value that has forgotten its type, `Box<dyn Any>`.
pub data Value : Type 0 where
  u16_value : ℕ → Value
  u32_value : ℕ → Value
  u64_value : ℕ → Value
  usize_value : ℕ → Value
  i32_value : ℤ → Value
  i64_value : ℤ → Value
  string_value : Text → Value
  bool_value : Bool → Value

unfoldable pub boxed : (t : VarType) → Meaning t → Value
boxed u16 v = u16_value v
boxed u32 v = u32_value v
boxed u64 v = u64_value v
boxed usize v = usize_value v
boxed i32 v = i32_value v
boxed i64 v = i64_value v
boxed string v = string_value v
boxed bool v = bool_value v

-- `downcast_ref`
unfoldable pub downcast : (t : VarType) → Value → Option (Meaning t)
downcast u16 (u16_value v) = some v
downcast u32 (u32_value v) = some v
downcast u64 (u64_value v) = some v
downcast usize (usize_value v) = some v
downcast i32 (i32_value v) = some v
downcast i64 (i64_value v) = some v
downcast string (string_value v) = some v
downcast bool (bool_value v) = some v
downcast t v = none

pub downcast-boxed : (t : VarType) (v : Meaning t) → downcast t (boxed t v) ≡ some v
unfolding downcast boxed
downcast-boxed u16 v = refl
downcast-boxed u32 v = refl
downcast-boxed u64 v = refl
downcast-boxed usize v = refl
downcast-boxed i32 v = refl
downcast-boxed i64 v = refl
downcast-boxed string v = refl
downcast-boxed bool v = refl

-- A box does not open at another type.
pub downcast-other : (t u : VarType) (v : Meaning t) → t ≢ u → downcast u (boxed t v) ≡ none
unfolding downcast boxed
downcast-other u16 u v = elim u as (λ u. u16 ≢ u → downcast u (u16_value v) ≡ none) [
  | u16 ↦ λ h. absurd (h refl)
  | _ ↦ λ h. refl
]
downcast-other u32 u v = elim u as (λ u. u32 ≢ u → downcast u (u32_value v) ≡ none) [
  | u32 ↦ λ h. absurd (h refl)
  | _ ↦ λ h. refl
]
downcast-other u64 u v = elim u as (λ u. u64 ≢ u → downcast u (u64_value v) ≡ none) [
  | u64 ↦ λ h. absurd (h refl)
  | _ ↦ λ h. refl
]
downcast-other usize u v = elim u as (λ u. usize ≢ u → downcast u (usize_value v) ≡ none) [
  | usize ↦ λ h. absurd (h refl)
  | _ ↦ λ h. refl
]
downcast-other i32 u v = elim u as (λ u. i32 ≢ u → downcast u (i32_value v) ≡ none) [
  | i32 ↦ λ h. absurd (h refl)
  | _ ↦ λ h. refl
]
downcast-other i64 u v = elim u as (λ u. i64 ≢ u → downcast u (i64_value v) ≡ none) [
  | i64 ↦ λ h. absurd (h refl)
  | _ ↦ λ h. refl
]
downcast-other string u v = elim u as (λ u. string ≢ u → downcast u (string_value v) ≡ none) [
  | string ↦ λ h. absurd (h refl)
  | _ ↦ λ h. refl
]
downcast-other bool u v = elim u as (λ u. bool ≢ u → downcast u (bool_value v) ≡ none) [
  | bool ↦ λ h. absurd (h refl)
  | _ ↦ λ h. refl
]
