-- ===== src/Rudis/Command/Keyspace.antt =====
-- What the commands of 07-systems-programming/src/command.rs mean on a keyspace without any machinery
-- of expiry: a function from keys to the entries that are alive.
use rust_fundamentals.Base.{
  ℕ, suc, ◌+◌, ◌-◌, ◌/◌, Bool, true, Option, none, some, List, [], ◌∷◌, ltb, if◌then◌else◌,
}
use rust_fundamentals.Base.Bytes.{Bytes}
use rust_fundamentals.Base.Map
use rust_fundamentals.Base.Map.{Map, key_eq}
use rust_fundamentals.Base.Decimal.{ℤ, pos, negsuc, show_int, parse_i64}
use rust_fundamentals.Rudis.Store.{Entry, Store, value_of, is_some, succ_i64, deadline_in}
use rust_fundamentals.Rudis.Resp.{Resp, simple, bulk, integer, array, empty}
use rust_fundamentals.Rudis.Command.{Command, value_reply, number_reply, truth, pong_text, ok_text}

-- An entry is alive before its deadline, or for ever.
abbrev pub alive : ℕ → Option ℕ → Bool
alive t none = true
alive t (some deadline) = ltb t deadline

abbrev pub shown : ℕ → Option Entry → Option Entry
shown t none = none
shown t (some e) = if alive t e.expires_at then some e else none

abbrev pub Keyspace : Type 0
Keyspace = Bytes → Option Entry

-- The entries of a store that are alive.
abbrev pub seen : ℕ → Store → Keyspace
seen t store key = shown t (Map.get key store.map)

abbrev pub put : Bytes → Option Entry → Keyspace → Keyspace
put k e ks key = if key_eq k key then e else ks key

abbrev pub erase : List Bytes → Keyspace → Keyspace
erase [] ks = ks
erase (k ∷ keys) ks = erase keys (put k none ks)

-- How many keys are there, each erased before the next is looked for.
abbrev pub erased : List Bytes → Keyspace → ℕ
erased [] ks = 0
erased (k ∷ keys) ks = truth (is_some (ks k)) + erased keys (put k none ks)

-- How many of the keys are there, each as often as it is named.
abbrev pub present : List Bytes → Keyspace → ℕ
present [] ks = 0
present (k ∷ keys) ks = truth (is_some (ks k)) + present keys ks

-- The next number behind an entry's; a key that is not there counts as zero.
abbrev pub next_number : Option Entry → Option ℤ
next_number none = some (pos 1)
next_number (some e) = elim (parse_i64 e.value) [ none ↦ none | some z ↦ some (succ_i64 z) ]

abbrev pub same_deadline : Option Entry → Option ℕ
same_deadline none = none
same_deadline (some e) = e.expires_at

abbrev pub count_in : Option ℤ → Option Entry → Bytes → Keyspace → Keyspace
count_in none e k ks = ks
count_in (some n) e k ks =
    put k (some (record { value = show_int n; expires_at = same_deadline e })) ks

abbrev pub delay : Option Entry → Bytes → ℕ → Keyspace → Keyspace
delay none k deadline ks = ks
delay (some e) k deadline ks = put k (some (record e { expires_at = some deadline })) ks

-- The keyspace behind a command.
abbrev pub after : ℕ → Command → Keyspace → Keyspace
after now (Command.ping m) ks = ks
after now (Command.echo m) ks = ks
after now (Command.get k) ks = ks
after now (Command.set k v d) ks = put k (some (record { value = v; expires_at = d })) ks
after now (Command.del keys) ks = erase keys ks
after now (Command.exists keys) ks = ks
after now (Command.incr k) ks = count_in (next_number (ks k)) (ks k) k ks
after now (Command.expire k seconds) ks = delay (ks k) k (deadline_in now seconds) ks
after now (Command.ttl k) ks = ks
after now Command.db_size ks = ks
after now Command.save ks = ks
after now Command.command ks = ks

-- Seconds to the deadline, -1 for none, and -2 for a key that is not there.
abbrev pub seconds_left : ℕ → Option Entry → ℤ
seconds_left now none = negsuc 1
seconds_left now (some e) = elim e.expires_at [
  | none ↦ negsuc 0
  | some deadline ↦ pos ((deadline - now) / 1000)
]

-- The reply to a command. The size of the store and the success of a save are given.
abbrev pub reply_of : ℕ → ℕ → Resp → Command → Keyspace → Resp
reply_of now size saved (Command.ping none) ks = simple pong_text
reply_of now size saved (Command.ping (some message)) ks = bulk message
reply_of now size saved (Command.echo message) ks = bulk message
reply_of now size saved (Command.get k) ks = value_reply (value_of (ks k))
reply_of now size saved (Command.set k v d) ks = simple ok_text
reply_of now size saved (Command.del keys) ks = integer (pos (erased keys ks))
reply_of now size saved (Command.exists keys) ks = integer (pos (present keys ks))
reply_of now size saved (Command.incr k) ks = number_reply (next_number (ks k))
reply_of now size saved (Command.expire k seconds) ks = integer (pos (truth (is_some (ks k))))
reply_of now size saved (Command.ttl k) ks = integer (seconds_left now (ks k))
reply_of now size saved Command.db_size ks = integer (pos size)
reply_of now size saved Command.save ks = saved
reply_of now size saved Command.command ks = array empty

-- How many entries are alive.
abbrev pub count_alive : ℕ → Map Entry → ℕ
count_alive t [] = 0
count_alive t ((key, e) ∷ m) =
    let rest = count_alive t m in if alive t e.expires_at then suc rest else rest
