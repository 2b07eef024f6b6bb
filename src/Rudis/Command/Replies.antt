-- ===== src/Rudis/Command/Replies.antt =====
-- What the commands reply, and the names of commands.
use rust_fundamentals.Base.{
  ℕ, ◌≡◌, refl, sym, ap, ◌∙◌, subst, Bool, true, Option, none, some, List, [], ◌∷◌, In, arith, inl,
  inr, Bool-cases, ◌>>=◌,
}
use rust_fundamentals.Base.Bytes.{Bytes}
use rust_fundamentals.Base.Map.{key_eq}
use rust_fundamentals.Base.Map.Laws.{key_eq_refl}
use rust_fundamentals.Rudis.Store
use rust_fundamentals.Rudis.Store.{Store, value_of, filter_live}
use rust_fundamentals.Rudis.Store.View.{look, look-set, IsValid, get-look, del-look}
use rust_fundamentals.Rudis.Store.Count.{gets, sets, dels, tests, counts, expires, Step-IsValid}
use rust_fundamentals.Rudis.Resp.{Resp, Items, array, empty, item, bulk}
use rust_fundamentals.Rudis.Command.{
  Command, bulk_args, args_of, upper, to_ascii_uppercase, by_name, parse, value_reply, count_keys,
  execute,
}

-- `SET` and later `GET` replies the value, or nil once the deadline has passed.
pub set-get :
    (now t : ℕ) (saved : Bool) (key value : Bytes) (deadline : Option ℕ) (store : Store)
    → IsValid store
    → (execute t saved
        (Command.get key)
        (execute now saved (Command.set key value deadline) store).1).0
      ≡ value_reply
          (value_of (filter_live t (some (record { value = value; expires_at = deadline }))))
unfolding execute
set-get now t saved key value deadline store v =
    let after = Store.set key value deadline store in
    ap value_reply (
      (get-look t key after (Step-IsValid v (sets key value deadline))).0
      ∙ ap value_of (look-set t key key value deadline store ∙ rw (key_eq_refl key)))

-- Every key of a list is tested with an operation that keeps the invariant.
count_keys-IsValid :
    (test : Bytes → Store → Bool × Store) (keys : List Bytes) (store : Store)
    → ((key : Bytes) (s : Store) → IsValid s → IsValid (test key s).1)
    → IsValid store
    → IsValid (count_keys test keys store).1
unfolding count_keys
count_keys-IsValid test [] store keeps v = v
count_keys-IsValid test (key ∷ keys) store keeps v =
    count_keys-IsValid test keys (test key store).1 keeps (keeps key store v)

-- What is not seen stays unseen while keys are deleted.
del_unseen :
    (now t : ℕ) (keys : List Bytes) (store : Store) (j : Bytes)
    → IsValid store
    → look t j store ≡ none
    → look t j (count_keys (Store.del now) keys store).1 ≡ none
unfolding count_keys
del_unseen now t [] store j v h = h
del_unseen now t (key ∷ keys) store j v h =
    del_unseen now t keys (Store.del now key store).1 j (Step-IsValid v (dels now key)) (
      (del-look now key store v).1 t j
      ∙ elim (Bool-cases (key_eq key j)) [ inl same ↦ rw same | inr other ↦ rw other h ])

del_all :
    (now t : ℕ) (keys : List Bytes) (store : Store) (j : Bytes)
    → IsValid store
    → In j keys
    → look t j (count_keys (Store.del now) keys store).1 ≡ none
unfolding count_keys
del_all now t [] store j v i = absurd i
del_all now t (key ∷ keys) store j v (inl e) =
    del_unseen now t keys (Store.del now key store).1 j (Step-IsValid v (dels now key))
      ((del-look now key store v).1 t j ∙ rw (subst (λ k. key_eq k j ≡ true) e (key_eq_refl j)))
del_all now t (key ∷ keys) store j v (inr i) =
    del_all now t keys (Store.del now key store).1 j (Step-IsValid v (dels now key)) i

-- Behind `DEL` none of its keys is seen.
pub del-unseen :
    (now t : ℕ) (saved : Bool) (keys : List Bytes) (store : Store) (j : Bytes)
    → IsValid store
    → In j keys
    → look t j (execute now saved (Command.del keys) store).1 ≡ none
unfolding execute
del-unseen now t saved keys store j v i = del_all now t keys store j v i

-- Every command keeps the keyspace's invariant.
pub execute-IsValid :
    (now : ℕ) (saved : Bool) (c : Command) (store : Store)
    → IsValid store
    → IsValid (execute now saved c store).1
unfolding execute
execute-IsValid now saved (Command.ping none) store v = v
execute-IsValid now saved (Command.ping (some m)) store v = v
execute-IsValid now saved (Command.echo m) store v = v
execute-IsValid now saved (Command.get key) store v = Step-IsValid v (gets now key)
execute-IsValid now saved (Command.set key value d) store v = Step-IsValid v (sets key value d)
execute-IsValid now saved (Command.del keys) store v =
    count_keys-IsValid (Store.del now) keys store (λ k s w. Step-IsValid w (dels now k)) v
execute-IsValid now saved (Command.exists keys) store v =
    count_keys-IsValid (Store.exists now) keys store (λ k s w. Step-IsValid w (tests now k)) v
execute-IsValid now saved (Command.incr key) store v = Step-IsValid v (counts now key)
execute-IsValid now saved (Command.expire key n) store v = Step-IsValid v (expires now key n)
execute-IsValid now saved (Command.ttl key) store v = v
execute-IsValid now saved Command.db_size store v = v
execute-IsValid now saved Command.save store v = v
execute-IsValid now saved Command.command store v = v

-- A request: an array of bulk strings.
unfoldable pub request_items : List Bytes → Items
request_items [] = empty
request_items (arg ∷ args) = item (bulk arg) (request_items args)

abbrev pub request : List Bytes → Resp
request args = array (request_items args)

bulk_args-request : (args : List Bytes) → bulk_args (request_items args) ≡ some args
unfolding bulk_args request_items
bulk_args-request [] = refl
bulk_args-request (arg ∷ args) = rw (bulk_args-request args, ◌>>=◌)

upper-upper : (c : ℕ) → upper (upper c) ≡ upper c
unfolding upper
upper-upper c = ground arith

to_ascii_uppercase-twice :
    (name : Bytes) → to_ascii_uppercase (to_ascii_uppercase name) ≡ to_ascii_uppercase name
unfolding to_ascii_uppercase
to_ascii_uppercase-twice [] = refl
to_ascii_uppercase-twice (c ∷ cs) =
    ap (λ d. d ∷ to_ascii_uppercase (to_ascii_uppercase cs)) (upper-upper c)
    ∙ ap (λ t. upper c ∷ t) (to_ascii_uppercase-twice cs)

parse-request :
    (now : ℕ) (name : Bytes) (args : List Bytes)
    → parse now (request (name ∷ args)) ≡ by_name now (to_ascii_uppercase name) args
unfolding parse args_of
parse-request now name args = rw (bulk_args-request (name ∷ args), ◌>>=◌)

-- A request names its command in whatever case: it parses like the one in upper case.
pub parse-upper :
    (now : ℕ) (name : Bytes) (args : List Bytes)
    → parse now (request (name ∷ args)) ≡ parse now (request (to_ascii_uppercase name ∷ args))
parse-upper now name args =
    parse-request now name args
    ∙ ap (λ n. by_name now n args) (sym (to_ascii_uppercase-twice name))
    ∙ sym (parse-request now (to_ascii_uppercase name) args)
