-- ===== src/Config/Loader/Reads.antt =====
-- What can be read from loaded variables.
use mathlib.Core.Path.{sym, ap, subst, ◌∙◌}
use rust_fundamentals.Base.{
  ◌≡◌, ◌≢◌, inl, inr, Option-cases, refl, Option, none, some, List, [], ◌∷◌, ◌++◌, All,
}
use rust_fundamentals.Base.Map.{get}
use rust_fundamentals.Base.Map.Laws.{get-insert, key_eq_refl}
use rust_fundamentals.Base.Fallible.{ok, err, Result-cases}
use rust_fundamentals.Config.VarName.{Text, Error, missing, not_requested, parse}
use rust_fundamentals.Config.FromEnv.{
  VarType, Meaning, from_env_str, Value, boxed, downcast, downcast-boxed, downcast-other,
}
use rust_fundamentals.Config.Loader.{
  Environment, ValueBag, Loader, Env, Loaded, loaded, refused, new, require, load, env_get, Request,
  required, declare, declare_all,
}
use rust_fundamentals.Config.Loader.Reports.{
  declare_all-errors, require-errors, problem_of, problems,
}
use rust_fundamentals.Config.Loader.Declared.{name_of, parse-name, get-declare_all}

abbrev bag_of : Loaded → ValueBag
bag_of (loaded e) = e.bag
bag_of (refused es) = []

-- A required variable that had no problem.
record Stored (env : Environment) (t : VarType) (name : Text) (values : ValueBag) : Type 0 where
  raw : Text
  value : Meaning t
  is_set : env name ≡ some raw
  parses : from_env_str t raw ≡ some value
  kept : get name values ≡ some (boxed t value)

Stored-require :
    (env : Environment) (t : VarType) (name : Text) (l : Loader)
    → problem_of env t name (missing name ∷ []) ≡ []
    → Stored env t name (require env t name l).values
unfolding require problem_of
Stored-require env t name l fine = elim (Result-cases (parse name)) [
  | inr (e, p) ↦ absurd (cc (rw (p, problem_of) at fine))
  | inl (var_name, p) ↦ elim (Option-cases (env name)) [
    | inl q ↦ absurd (cc (rw (p, q, problem_of) at fine))
    | inr (raw, q) ↦ elim (Option-cases (from_env_str t raw)) [
      | inl r ↦ absurd (cc (rw (p, q, r, problem_of) at fine))
      | inr (value, r) ↦ record {
        raw = raw;
        value = value;
        is_set = q;
        parses = r;
        kept =
            rw (p, q, r, require)
              (get-insert var_name.name name (boxed t value) l.values
                ∙ rw (parse-name name var_name p) (rw (key_eq_refl name) refl));
      }
    ]
  ]
]

loaded-errors :
    (vs : ValueBag) (es : List Error) (e : Env)
    → load (record { values = vs; errors = es }) ≡ loaded e
    → (es ≡ []) × (e.bag ≡ vs)
unfolding load
loaded-errors vs [] e h = (refl, sym (ap bag_of h))
loaded-errors vs (x ∷ xs) e h = absurd (cc h)

declare_all-append :
    (env : Environment) (rs qs : List Request) (l : Loader)
    → declare_all env (rs ++ qs) l ≡ declare_all env qs (declare_all env rs l)
unfolding declare_all
declare_all-append env [] qs l = refl
declare_all-append env (r ∷ rs) qs l = declare_all-append env rs qs (declare env r l)

nil_parts {ℓ} : {A : Type ℓ} (xs ys : List A) → xs ++ ys ≡ [] → (xs ≡ []) × (ys ≡ [])
nil_parts [] ys h = (refl, h)
nil_parts (x ∷ xs) ys h = absurd (cc h)

-- What reads of a required variable give.
pub record Readable (env : Environment) (t : VarType) (name : Text) (e : Env) : Type 0 where
  pub raw : Text
  pub value : Meaning t
  pub is_set : env name ≡ some raw
  pub parses : from_env_str t raw ≡ some value
  pub reads : env_get t name e ≡ ok value
  pub reads_otherwise : (u : VarType) → t ≢ u → env_get u name e ≡ err (not_requested name)

env_get-kept :
    (t u : VarType) (name : Text) (v : Value) (e : Env) (o : Option (Meaning u))
    → get name e.bag ≡ some v
    → downcast u v ≡ o
    → env_get u name e ≡ (elim o [ none ↦ err (not_requested name) | some x ↦ ok x ])
unfolding env_get
env_get-kept t u name v e o h d = rw (h, env_get) (rw d refl)

Readable-of :
    (env : Environment) (t : VarType) (name : Text) (e : Env)
    → Stored env t name e.bag
    → Readable env t name e
Readable-of env t name e s = record {
  raw = s.raw;
  value = s.value;
  is_set = s.is_set;
  parses = s.parses;
  reads =
      env_get-kept t t name (boxed t s.value) e (some s.value) s.kept (downcast-boxed t s.value);
  reads_otherwise =
      λ u h. env_get-kept t u name (boxed t s.value) e none s.kept (downcast-other t u s.value h);
}

-- When loading a chain of declarations succeeds, a variable that it requires and does not declare
-- again later was set, to text that parses at its type; reading it at this type gives the parsed
-- value, and reading it at another type is refused as not requested.
pub required-Readable :
    (env : Environment) (before after : List Request) (t : VarType) (name : Text) (e : Env)
    → load (declare_all env (before ++ (required t name ∷ after)) new) ≡ loaded e
    → All (λ r. name_of r ≢ name) after
    → Readable env t name e
unfolding declare_all declare
required-Readable env before after t name e success later =
    let earlier = declare_all env before new in
    let mid = require env t name earlier in
    let last = declare_all env after mid in
    let split = declare_all-append env before (required t name ∷ after) new in
    let (clean, bag) =
      loaded-errors last.values last.errors e (subst (λ l. load l ≡ loaded e) split success) in
    let (mid_clean, _) =
      nil_parts mid.errors (problems env after) (sym (declare_all-errors env after mid) ∙ clean) in
    let (_, fine) =
      nil_parts earlier.errors (problem_of env t name (missing name ∷ []))
        (sym (require-errors env t name earlier) ∙ mid_clean) in
    let s = Stored-require env t name earlier fine in
    Readable-of env t name e (record {
      raw = s.raw;
      value = s.value;
      is_set = s.is_set;
      parses = s.parses;
      kept = ap (get name) bag ∙ get-declare_all env after name mid later ∙ s.kept;
    })

-- A name that no declaration has is not requested.
pub undeclared-env_get :
    (env : Environment) (rs : List Request) (t : VarType) (name : Text) (e : Env)
    → load (declare_all env rs new) ≡ loaded e
    → All (λ r. name_of r ≢ name) rs
    → env_get t name e ≡ err (not_requested name)
unfolding env_get get
undeclared-env_get env rs t name e success others =
    let last = declare_all env rs new in
    let (_, bag) = loaded-errors last.values last.errors e success in
    rw (ap (get name) bag ∙ get-declare_all env rs name new others, env_get) refl
