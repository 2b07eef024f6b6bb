-- ===== src/Rudis/Command/Answers.antt =====
-- `execute` of 07-systems-programming/src/command.rs against the keyspace of the live entries.
use rust_fundamentals.Base.{
  ℕ, ◌+◌, ◌≤◌, ◌≡◌, refl, sym, ap, ◌∙◌, Bool, Option, none, some, List, [], ◌∷◌,
}
use rust_fundamentals.Base.Bytes.{Bytes}
use rust_fundamentals.Base.Map
use rust_fundamentals.Base.Map.{Map, key_eq}
use rust_fundamentals.Base.Decimal.{pos}
use rust_fundamentals.Rudis.Store
use rust_fundamentals.Rudis.Store.{
  Entry, Store, is_expired, value_of, filter_live, is_live, is_some, succ_i64, deadline_in,
  time_left, remaining, count_up, current, set_deadline,
}
use rust_fundamentals.Rudis.Store.View.{IsValid}
use rust_fundamentals.Rudis.Resp.{integer}
use rust_fundamentals.Rudis.Command.{
  Command, value_reply, number_reply, truth, count_keys, save_reply, execute,
}
use rust_fundamentals.Rudis.Command.Replies.{execute-IsValid}
use rust_fundamentals.Rudis.Command.Keyspace.{
  shown, Keyspace, seen, put, erase, erased, present, after, reply_of, count_alive,
}
use rust_fundamentals.Rudis.Command.Follows.{
  filter_live-shown, retain-count_alive, Becomes, Follows-seen, get-Follows, del-Follows,
  set-Becomes, incr-next, expire-delay, time_left-seconds_left, Follows,
}

count_keys-erased :
    (now : ℕ) (keys : List Bytes) (store : Store) (ks : Keyspace)
    → Follows now store ks
    → ((count_keys (Store.del now) keys store).0 ≡ erased keys ks)
      × Becomes now (count_keys (Store.del now) keys store).1 (erase keys ks)
unfolding count_keys Becomes
count_keys-erased now [] store ks f = (refl, f.later)
count_keys-erased now (k ∷ keys) store ks f =
    let (hit, g) = del-Follows now k store ks f in
    let (n, b) = count_keys-erased now keys (Store.del now k store).1 (put k none ks) g in
    (
      ap (λ h. truth h + (count_keys (Store.del now) keys (Store.del now k store).1).0) hit
          ∙ ap (λ m. truth (is_some (ks k)) + m) n,
      b,
    )

is_some-value : (o : Option Entry) → is_some (value_of o) ≡ is_some o
is_some-value none = refl
is_some-value (some e) = refl

count_keys-present :
    (now : ℕ) (keys : List Bytes) (store : Store) (ks : Keyspace)
    → Follows now store ks
    → ((count_keys (Store.exists now) keys store).0 ≡ present keys ks)
      × Becomes now (count_keys (Store.exists now) keys store).1 ks
unfolding count_keys Becomes Store.exists
count_keys-present now [] store ks f = (refl, f.later)
count_keys-present now (k ∷ keys) store ks f =
    let (value, g) = get-Follows now k store ks f in
    let (n, b) = count_keys-present now keys (Store.get now k store).1 ks g in
    (
      ap (λ o. truth (is_some o) + (count_keys (Store.exists now) keys (Store.get now k store).1).0)
            value
          ∙ ap (λ h. truth h + (count_keys (Store.exists now) keys (Store.get now k store).1).0)
              (is_some-value (ks k))
          ∙ ap (λ m. truth (is_some (ks k)) + m) n,
      b,
    )

execute-after :
    (now : ℕ) (saved : Bool) (c : Command) (store : Store) (ks : Keyspace)
    → Follows now store ks
    → ((execute now saved c store).0
        ≡ reply_of now (count_alive now store.map) (save_reply saved store.snapshot_path) c ks)
      × Becomes now (execute now saved c store).1 (after now c ks)
unfolding execute Becomes Store.ttl Store.len
execute-after now saved (Command.ping none) store ks f = (refl, f.later)
execute-after now saved (Command.ping (some m)) store ks f = (refl, f.later)
execute-after now saved (Command.echo m) store ks f = (refl, f.later)
execute-after now saved (Command.get k) store ks f =
    let (value, g) = get-Follows now k store ks f in (ap value_reply value, g.later)
execute-after now saved (Command.set k value d) store ks f =
    (refl, set-Becomes now k value d store ks f)
execute-after now saved (Command.del keys) store ks f =
    let (n, b) = count_keys-erased now keys store ks f in (ap (λ m. integer (pos m)) n, b)
execute-after now saved (Command.exists keys) store ks f =
    let (n, b) = count_keys-present now keys store ks f in (ap (λ m. integer (pos m)) n, b)
execute-after now saved (Command.incr k) store ks f =
    let (n, b) = incr-next now k store ks f in (ap number_reply n, b)
execute-after now saved (Command.expire k seconds) store ks f =
    let (hit, b) = expire-delay now k seconds store ks f in
    (ap (λ h. integer (pos (truth h))) hit, b)
execute-after now saved (Command.ttl k) store ks f = (
  ap (λ e. integer (time_left now e)) (f.at_now k) ∙ ap integer (time_left-seconds_left now (ks k)),
  f.later,
)
execute-after now saved Command.db_size store ks f =
    (ap (λ n. integer (pos n)) (retain-count_alive now store.map), f.later)
execute-after now saved Command.save store ks f = (refl, f.later)
execute-after now saved Command.command store ks f = (refl, f.later)

-- In a store whose map is in order, every command replies as the keyspace of the entries that are
-- alive says, with their number for `DBSIZE` and the given success of the save for `SAVE`. At this and
-- each later time every key shows what is then alive of the keyspace behind the command. The map
-- stays in order.
pub execute-Answers :
    (now : ℕ) (saved : Bool) (c : Command) (store : Store)
    → IsValid store
    → ((execute now saved c store).0
        ≡ reply_of now
            (count_alive now store.map)
            (save_reply saved store.snapshot_path)
            c
            (seen now store))
      × ((t : ℕ) (key : Bytes)
          → now ≤ t
          → seen t (execute now saved c store).1 key ≡ shown t (after now c (seen now store) key))
      × IsValid (execute now saved c store).1
unfolding Becomes
execute-Answers now saved c store v =
    let (reply, later) =
      execute-after now saved c store (seen now store) (Follows-seen now store v) in
    (
      reply,
      λ t key h.
          sym (filter_live-shown t (Map.get key (execute now saved c store).1.map))
          ∙ later t key h
          ∙ filter_live-shown t (after now c (seen now store) key),
      execute-IsValid now saved c store v,
    )
