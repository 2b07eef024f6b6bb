-- ===== src/Config/Loader/Reports.antt =====
-- Loading reports every problem, in the order of the declarations.
use mathlib.Core.Path.{sym, subst}
use rust_fundamentals.Base.{
  ◌≡◌, refl, none, some, List, [], ◌∷◌, ◌++◌, append-nil, append_assoc, arith,
}
use rust_fundamentals.Base.Fallible.{ok, err}
use rust_fundamentals.Config.VarName.{Text, Error, missing, parse_failed, parse}
use rust_fundamentals.Config.FromEnv.{VarType, Meaning, from_env_str}
use rust_fundamentals.Config.Loader.{
  Environment, ValueBag, Loader, Loaded, loaded, refused, new, require, optional, optional_or, load,
  Request, required, wanted, defaulted, declare, declare_all,
}

-- What is wrong with a variable, when its absence is `absent`.
unfoldable pub problem_of : Environment → VarType → Text → List Error → List Error
problem_of env t name absent = elim (parse name) [
  | err e ↦ e ∷ []
  | ok var_name ↦ elim (env name) [
    | none ↦ absent
    | some raw ↦ elim (from_env_str t raw) [ none ↦ parse_failed name ∷ [] | some parsed ↦ [] ]
  ]
]

unfoldable pub problems : Environment → List Request → List Error
problems env [] = []
problems env (required t name ∷ rs) = problem_of env t name (missing name ∷ []) ++ problems env rs
problems env (wanted t name ∷ rs) = problem_of env t name [] ++ problems env rs
problems env (defaulted t name v ∷ rs) = problem_of env t name [] ++ problems env rs

abbrev pub Reported : List Error → Loaded → Type 0
Reported [] (loaded env) = Unit
Reported (e ∷ es) (refused found) = found ≡ e ∷ es
Reported es result = ⊥

pub require-errors :
    (env : Environment) (t : VarType) (name : Text) (l : Loader)
    → (require env t name l).errors ≡ l.errors ++ problem_of env t name (missing name ∷ [])
unfolding require problem_of
require-errors env t name l = ground (arith, append-nil l.errors)

optional-errors :
    (env : Environment) (t : VarType) (name : Text) (l : Loader)
    → (optional env t name l).errors ≡ l.errors ++ problem_of env t name []
unfolding optional problem_of
optional-errors env t name l = ground (arith, append-nil l.errors)

optional_or-errors :
    (env : Environment) (t : VarType) (name : Text) (v : Meaning t) (l : Loader)
    → (optional_or env t name v l).errors ≡ l.errors ++ problem_of env t name []
unfolding optional_or problem_of
optional_or-errors env t name v l = ground (arith, append-nil l.errors)

pub declare_all-errors :
    (env : Environment) (rs : List Request) (l : Loader)
    → (declare_all env rs l).errors ≡ l.errors ++ problems env rs
unfolding declare_all declare problems
declare_all-errors env [] l = sym (append-nil l.errors)
declare_all-errors env (required t name ∷ rs) l = cc (
  declare_all-errors env rs (require env t name l),
  require-errors env t name l,
  append_assoc l.errors (problem_of env t name (missing name ∷ [])) (problems env rs),
)
declare_all-errors env (wanted t name ∷ rs) l = cc (
  declare_all-errors env rs (optional env t name l),
  optional-errors env t name l,
  append_assoc l.errors (problem_of env t name []) (problems env rs),
)
declare_all-errors env (defaulted t name v ∷ rs) l = cc (
  declare_all-errors env rs (optional_or env t name v l),
  optional_or-errors env t name v l,
  append_assoc l.errors (problem_of env t name []) (problems env rs),
)

load-Reported :
    (vs : ValueBag) (es : List Error) → Reported es (load (record { values = vs; errors = es }))
unfolding load
load-Reported vs [] = tt
load-Reported vs (e ∷ es) = refl

-- Loading a chain of declarations succeeds when none of them has a problem, and otherwise refuses
-- with exactly their problems, in the order of the declarations.
pub declare_all-Reported :
    (env : Environment) (rs : List Request)
    → Reported (problems env rs) (load (declare_all env rs new))
declare_all-Reported env rs =
    subst (λ es. Reported es (load (declare_all env rs new))) (declare_all-errors env rs new)
      (load-Reported (declare_all env rs new).values (declare_all env rs new).errors)
