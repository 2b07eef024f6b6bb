-- ===== src/Config/Loader.antt =====
-- 03-error-handling-api-design/src/loader.rs. The environment is a function from names to values,
-- `none` for a variable that is not set; the bag of values is kept in the order of the names.
pub mod Reports
pub mod Declared
pub mod Reads
use rust_fundamentals.Base.{
  ℕ, ◌≡◌, refl, Bool, true, false, Option, none, some, List, [], ◌∷◌, ◌++◌,
}
use rust_fundamentals.Base.Fallible.{Result, ok, err}
use rust_fundamentals.Base.Map.{Map}
use rust_fundamentals.Config.VarName.{
  Text, Error, missing, parse_failed, invalid_name, not_requested, VarName, parse,
}
use rust_fundamentals.Config.FromEnv.{VarType, Meaning, from_env_str, Value, boxed, downcast}

abbrev pub Environment : Type 0
Environment = Text → Option Text

abbrev pub ValueBag : Type 0
ValueBag = Map Value

pub record Loader : Type 0 where
  pub values : ValueBag
  pub errors : List Error

pub record Env : Type 0 where
  pub bag : ValueBag

pub data Loaded : Type 0 where
  loaded : Env → Loaded
  refused : List Error → Loaded

abbrev pub new : Loader
new = record { values = []; errors = [] }

abbrev pub push : Error → Loader → Loader
push e l = record { values = l.values; errors = l.errors ++ (e ∷ []) }

abbrev pub stash : VarName → Value → Loader → Loader
stash var_name v l = record {
  values = rust_fundamentals.Base.Map.insert var_name.name v l.values;
  errors = l.errors;
}

unfoldable pub require : Environment → (t : VarType) → Text → Loader → Loader
require env t name l = elim (parse name) [
  | err e ↦ push e l
  | ok var_name ↦ elim (env name) [
    | none ↦ push (missing name) l
    | some raw ↦ elim (from_env_str t raw) [
      | none ↦ push (parse_failed name) l
      | some parsed ↦ stash var_name (boxed t parsed) l
    ]
  ]
]

unfoldable pub optional : Environment → (t : VarType) → Text → Loader → Loader
optional env t name l = elim (parse name) [
  | err e ↦ push e l
  | ok var_name ↦ elim (env name) [
    | none ↦ l
    | some raw ↦ elim (from_env_str t raw) [
      | none ↦ push (parse_failed name) l
      | some parsed ↦ stash var_name (boxed t parsed) l
    ]
  ]
]

unfoldable pub optional_or : Environment → (t : VarType) → Text → Meaning t → Loader → Loader
optional_or env t name default l = elim (parse name) [
  | err e ↦ push e l
  | ok var_name ↦ elim (env name) [
    | none ↦ stash var_name (boxed t default) l
    | some raw ↦ elim (from_env_str t raw) [
      | none ↦ push (parse_failed name) l
      | some value ↦ stash var_name (boxed t value) l
    ]
  ]
]

unfoldable pub load : Loader → Loaded
load l = elim l.errors [ [] ↦ loaded (record { bag = l.values }) | e ∷ es ↦ refused (e ∷ es) ]

unfoldable pub env_get : (t : VarType) → Text → Env → Result Error (Meaning t)
env_get t name env = elim (rust_fundamentals.Base.Map.get name env.bag) [
  | none ↦ err (not_requested name)
  | some any_box ↦ elim (downcast t any_box) [
    | none ↦ err (not_requested name)
    | some value ↦ ok value
  ]
]

-- A call of the builder.
pub data Request : Type 0 where
  required : VarType → Text → Request
  wanted : VarType → Text → Request
  defaulted : (t : VarType) → Text → Meaning t → Request

unfoldable pub declare : Environment → Request → Loader → Loader
declare env (required t name) l = require env t name l
declare env (wanted t name) l = optional env t name l
declare env (defaulted t name v) l = optional_or env t name v l

-- A chain of calls.
unfoldable pub declare_all : Environment → List Request → Loader → Loader
declare_all env [] l = l
declare_all env (r ∷ rs) l = declare_all env rs (declare env r l)
