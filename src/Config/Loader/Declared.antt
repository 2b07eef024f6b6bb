-- ===== src/Config/Loader/Declared.antt =====
-- What a declaration leaves alone: the values of other names.
use mathlib.Core.Path.{sym, ap, ◌∙◌}
use rust_fundamentals.Base.{
  ℕ, ◌≡◌, ◌≢◌, inl, inr, Bool-cases, Option-cases, refl, none, some, List, [], ◌∷◌, All,
}
use rust_fundamentals.Base.Map.{get}
use rust_fundamentals.Base.Map.Laws.{get-insert, key_eq_of_ne}
use rust_fundamentals.Base.Fallible.{Result, ok, err, Result-cases}
use rust_fundamentals.Config.VarName.{
  Text, Error, missing, parse_failed, VarName, parse, rest_valid, is_ascii_uppercase,
}
use rust_fundamentals.Config.FromEnv.{VarType, from_env_str, Value, boxed}
use rust_fundamentals.Config.Loader.{
  Environment, Loader, require, optional, optional_or, Request, required, wanted, defaulted, stash,
  push, declare, declare_all,
}

abbrev pub name_of : Request → Text
name_of (required t name) = name
name_of (wanted t name) = name
name_of (defaulted t name v) = name

abbrev accepted_name : Result Error VarName → Text
accepted_name (ok v) = v.name
accepted_name (err e) = []

parse_cons-name : (c : ℕ) (cs : Text) (n : VarName) → parse (c ∷ cs) ≡ ok n → n.name ≡ c ∷ cs
unfolding parse
parse_cons-name c cs n h = elim (Bool-cases (is_ascii_uppercase c)) [
  | inl upper ↦ elim (Bool-cases (rest_valid cs)) [
    | inl rest ↦ sym (ap accepted_name (rw rest at (rw upper at h)))
    | inr bad ↦ absurd (cc (rw bad at (rw upper at h)))
  ]
  | inr lower ↦ absurd (cc (rw lower at h))
]

-- A name that is accepted is kept as it is.
pub parse-name : (s : Text) (n : VarName) → parse s ≡ ok n → n.name ≡ s
parse-name [] n h = absurd (unfold parse in cc h)
parse-name (c ∷ cs) n h = parse_cons-name c cs n h

get-stash :
    (n name : Text) (var_name : VarName) (v : Value) (l : Loader)
    → parse n ≡ ok var_name
    → n ≢ name
    → get name (stash var_name v l).values ≡ get name l.values
get-stash n name var_name v l accepted apart =
    get-insert var_name.name name v l.values
    ∙ rw (parse-name n var_name accepted) (rw (key_eq_of_ne n name apart) refl)

-- The three kinds of declaration differ only in what they do when the variable is not set.
unfoldable declare_with : Environment → VarType → Text → (VarName → Loader) → Loader → Loader
declare_with env t name absent l = elim (parse name) [
  | err e ↦ push e l
  | ok var_name ↦ elim (env name) [
    | none ↦ absent var_name
    | some raw ↦ elim (from_env_str t raw) [
      | none ↦ push (parse_failed name) l
      | some parsed ↦ stash var_name (boxed t parsed) l
    ]
  ]
]

get-declare_with :
    (env : Environment) (t : VarType) (n name : Text) (absent : VarName → Loader) (l : Loader)
    → ((v : VarName) → parse n ≡ ok v → get name (absent v).values ≡ get name l.values)
    → n ≢ name
    → get name (declare_with env t n absent l).values ≡ get name l.values
unfolding declare_with
get-declare_with env t n name absent l unset apart = elim (Result-cases (parse n)) [
  | inr (e, p) ↦ rw (p, declare_with) refl
  | inl (var_name, p) ↦
      rw (p, declare_with)
        (elim (Option-cases (env n)) [
          | inl q ↦ rw (q, declare_with) (unset var_name p)
          | inr (raw, q) ↦
              rw (q, declare_with)
                (elim (Option-cases (from_env_str t raw)) [
                  | inl r ↦ rw (r, declare_with) refl
                  | inr (parsed, r) ↦
                      rw (r, declare_with) (get-stash n name var_name (boxed t parsed) l p apart)
                ])
        ])
]

get-declare :
    (env : Environment) (r : Request) (name : Text) (l : Loader)
    → name_of r ≢ name
    → get name (declare env r l).values ≡ get name l.values
unfolding declare require optional optional_or declare_with
get-declare env (required t n) name l apart =
    get-declare_with env t n name (λ _. push (missing n) l) l (λ _ _. refl) apart
get-declare env (wanted t n) name l apart =
    get-declare_with env t n name (λ _. l) l (λ _ _. refl) apart
get-declare env (defaulted t n v) name l apart =
    get-declare_with env t n name (λ var_name. stash var_name (boxed t v) l) l
      (λ var_name p. get-stash n name var_name (boxed t v) l p apart) apart

pub get-declare_all :
    (env : Environment) (rs : List Request) (name : Text) (l : Loader)
    → All (λ r. name_of r ≢ name) rs
    → get name (declare_all env rs l).values ≡ get name l.values
unfolding declare_all
get-declare_all env [] name l apart = refl
get-declare_all env (r ∷ rs) name l apart =
    get-declare_all env rs name (declare env r l) apart.1 ∙ get-declare env r name l apart.0
