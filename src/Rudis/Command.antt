-- ===== src/Rudis/Command.antt =====
-- 07-systems-programming/src/command.rs: requests as commands, and running them. Each takes what
-- `now_ms` gives as an argument, and `execute` whether the snapshot can be written. The messages of
-- protocol errors are left out, and that of a failed save.
pub mod Replies
pub mod Keyspace
pub mod Follows
pub mod Answers
use rust_fundamentals.Base.{
  ℕ, zero, suc, ◌+◌, ◌-◌, ◌*◌, ◌%◌, ◌^◌, Bool, true, false, ◌&&◌, Option, none, some, List, [], ◌∷◌,
  length, ◌==◌, leb, if◌then◌else◌, ◌>>=◌,
}
use rust_fundamentals.Base.Bytes.{Bytes}
use rust_fundamentals.Base.Map.{key_eq}
use rust_fundamentals.Base.Decimal.{ℤ, pos, parse_u64}
use rust_fundamentals.Rudis.Store
use rust_fundamentals.Rudis.Store.{Store}
use rust_fundamentals.Rudis.Resp.{
  Resp, Items, simple, error, integer, bulk, null, array, empty, item,
}

pub data Command : Type 0 where
  ping : Option Bytes → Command
  echo : Bytes → Command
  get : Bytes → Command
  set : Bytes → Bytes → Option ℕ → Command
  del : List Bytes → Command
  exists : List Bytes → Command
  incr : Bytes → Command
  expire : Bytes → ℕ → Command
  ttl : Bytes → Command
  db_size : Command
  save : Command
  command : Command

-- The loop over the items.
unfoldable pub bulk_args : Items → Option (List Bytes)
bulk_args empty = some []
bulk_args (item (bulk bytes) items) = bulk_args items >>= λ args. some (bytes ∷ args)
bulk_args (item (simple s) items) = none
bulk_args (item (error s) items) = none
bulk_args (item (integer n) items) = none
bulk_args (item null items) = none
bulk_args (item (array xs) items) = none

abbrev nonempty : List Bytes → Option (List Bytes)
nonempty [] = none
nonempty (arg ∷ args) = some (arg ∷ args)

unfoldable pub args_of : Resp → Option (List Bytes)
args_of (array items) = bulk_args items >>= nonempty
args_of (simple s) = none
args_of (error s) = none
args_of (integer n) = none
args_of (bulk b) = none
args_of null = none

unfoldable pub upper : ℕ → ℕ
upper c = if leb 0x61 c && leb c 0x7A then c - 0x20 else c

-- A name in upper case. `from_utf8_lossy` changes only bytes that are in no name.
unfoldable pub to_ascii_uppercase : Bytes → Bytes
to_ascii_uppercase [] = []
to_ascii_uppercase (c ∷ cs) = upper c ∷ to_ascii_uppercase cs

abbrev pub ping_text : Bytes
ping_text = 0x50 ∷ 0x49 ∷ 0x4E ∷ 0x47 ∷ []

abbrev pub echo_text : Bytes
echo_text = 0x45 ∷ 0x43 ∷ 0x48 ∷ 0x4F ∷ []

abbrev pub get_text : Bytes
get_text = 0x47 ∷ 0x45 ∷ 0x54 ∷ []

abbrev pub incr_text : Bytes
incr_text = 0x49 ∷ 0x4E ∷ 0x43 ∷ 0x52 ∷ []

abbrev pub ttl_text : Bytes
ttl_text = 0x54 ∷ 0x54 ∷ 0x4C ∷ []

abbrev pub del_text : Bytes
del_text = 0x44 ∷ 0x45 ∷ 0x4C ∷ []

abbrev pub exists_text : Bytes
exists_text = 0x45 ∷ 0x58 ∷ 0x49 ∷ 0x53 ∷ 0x54 ∷ 0x53 ∷ []

abbrev pub expire_text : Bytes
expire_text = 0x45 ∷ 0x58 ∷ 0x50 ∷ 0x49 ∷ 0x52 ∷ 0x45 ∷ []

abbrev pub set_text : Bytes
set_text = 0x53 ∷ 0x45 ∷ 0x54 ∷ []

abbrev pub dbsize_text : Bytes
dbsize_text = 0x44 ∷ 0x42 ∷ 0x53 ∷ 0x49 ∷ 0x5A ∷ 0x45 ∷ []

abbrev pub save_text : Bytes
save_text = 0x53 ∷ 0x41 ∷ 0x56 ∷ 0x45 ∷ []

abbrev pub command_text : Bytes
command_text = 0x43 ∷ 0x4F ∷ 0x4D ∷ 0x4D ∷ 0x41 ∷ 0x4E ∷ 0x44 ∷ []

abbrev pub ex_text : Bytes
ex_text = 0x45 ∷ 0x58 ∷ []

abbrev pub px_text : Bytes
px_text = 0x50 ∷ 0x58 ∷ []

abbrev pub pong_text : Bytes
pong_text = 0x50 ∷ 0x4F ∷ 0x4E ∷ 0x47 ∷ []

abbrev pub ok_text : Bytes
ok_text = 0x4F ∷ 0x4B ∷ []

-- `ERR value is not an integer or out of range`
abbrev pub not_integer_text : Bytes
not_integer_text =
    0x45 ∷ 0x52 ∷ 0x52 ∷ 0x20 ∷ 0x76 ∷ 0x61 ∷ 0x6C ∷ 0x75 ∷ 0x65 ∷ 0x20 ∷ 0x69 ∷ 0x73 ∷ 0x20 ∷ 0x6E
    ∷ 0x6F ∷ 0x74 ∷ 0x20 ∷ 0x61 ∷ 0x6E ∷ 0x20 ∷ 0x69 ∷ 0x6E ∷ 0x74 ∷ 0x65 ∷ 0x67 ∷ 0x65 ∷ 0x72
    ∷ 0x20 ∷ 0x6F ∷ 0x72 ∷ 0x20 ∷ 0x6F ∷ 0x75 ∷ 0x74 ∷ 0x20 ∷ 0x6F ∷ 0x66 ∷ 0x20 ∷ 0x72 ∷ 0x61
    ∷ 0x6E ∷ 0x67 ∷ 0x65 ∷ []

-- `ERR save failed`, and `ERR persistence is not configured`
abbrev pub save_failed_text : Bytes
save_failed_text =
    0x45 ∷ 0x52 ∷ 0x52 ∷ 0x20 ∷ 0x73 ∷ 0x61 ∷ 0x76 ∷ 0x65 ∷ 0x20 ∷ 0x66 ∷ 0x61 ∷ 0x69 ∷ 0x6C ∷ 0x65
    ∷ 0x64 ∷ []

abbrev pub not_configured_text : Bytes
not_configured_text =
    0x45 ∷ 0x52 ∷ 0x52 ∷ 0x20 ∷ 0x70 ∷ 0x65 ∷ 0x72 ∷ 0x73 ∷ 0x69 ∷ 0x73 ∷ 0x74 ∷ 0x65 ∷ 0x6E ∷ 0x63
    ∷ 0x65 ∷ 0x20 ∷ 0x69 ∷ 0x73 ∷ 0x20 ∷ 0x6E ∷ 0x6F ∷ 0x74 ∷ 0x20 ∷ 0x63 ∷ 0x6F ∷ 0x6E ∷ 0x66
    ∷ 0x69 ∷ 0x67 ∷ 0x75 ∷ 0x72 ∷ 0x65 ∷ 0x64 ∷ []

abbrev one_arg : (Bytes → Command) → List Bytes → Option Command
one_arg make (arg ∷ []) = some (make arg)
one_arg make [] = none
one_arg make (arg ∷ other ∷ args) = none

abbrev some_args : (List Bytes → Command) → List Bytes → Option Command
some_args make [] = none
some_args make (arg ∷ args) = some (make (arg ∷ args))

abbrev first_arg : List Bytes → Option Bytes
first_arg [] = none
first_arg (arg ∷ args) = some arg

abbrev expire_args : List Bytes → Option Command
expire_args (key ∷ seconds ∷ []) = parse_u64 seconds >>= λ n. some (expire key n)
expire_args [] = none
expire_args (key ∷ []) = none
expire_args (key ∷ seconds ∷ other ∷ args) = none

-- The deadline of `SET .. EX` and `SET .. PX`, on `u64`.
abbrev deadline : ℕ → Bytes → ℕ → Option ℕ
deadline now unit amount =
    if key_eq (to_ascii_uppercase unit) ex_text
    then some ((now + amount * 1000 % 2 ^ 64) % 2 ^ 64)
    else if key_eq (to_ascii_uppercase unit) px_text
    then some ((now + amount) % 2 ^ 64)
    else none

abbrev set_args : ℕ → List Bytes → Option Command
set_args now (key ∷ value ∷ []) = some (set key value none)
set_args now (key ∷ value ∷ unit ∷ amount ∷ []) =
    parse_u64 amount >>= λ n. deadline now unit n >>= λ t. some (set key value (some t))
set_args now [] = none
set_args now (key ∷ []) = none
set_args now (key ∷ value ∷ unit ∷ []) = none
set_args now (key ∷ value ∷ unit ∷ amount ∷ other ∷ args) = none

-- The match on the name.
unfoldable pub by_name : ℕ → Bytes → List Bytes → Option Command
by_name now name args =
    if key_eq name ping_text
    then some (ping (first_arg args))
    else if key_eq name echo_text
    then one_arg echo args
    else if key_eq name get_text
    then one_arg get args
    else if key_eq name incr_text
    then one_arg incr args
    else if key_eq name ttl_text
    then one_arg ttl args
    else if key_eq name del_text
    then some_args del args
    else if key_eq name exists_text
    then some_args exists args
    else if key_eq name expire_text
    then expire_args args
    else if key_eq name set_text
    then set_args now args
    else if key_eq name dbsize_text
    then some db_size
    else if key_eq name save_text
    then some save
    else if key_eq name command_text
    then some command
    else none

abbrev parse_args : ℕ → List Bytes → Option Command
parse_args now [] = none
parse_args now (name ∷ args) = by_name now (to_ascii_uppercase name) args

unfoldable pub parse : ℕ → Resp → Option Command
parse now request = args_of request >>= parse_args now

abbrev pub value_reply : Option Bytes → Resp
value_reply none = null
value_reply (some value) = bulk value

abbrev pub number_reply : Option ℤ → Resp
number_reply none = error not_integer_text
number_reply (some n) = integer n

abbrev pub truth : Bool → ℕ
truth true = 1
truth false = 0

-- `keys.iter().filter(..).count()`, each key on the store that the one before has left.
unfoldable pub count_keys : (Bytes → Store → Bool × Store) → List Bytes → Store → ℕ × Store
count_keys test [] store = (0, store)
count_keys test (key ∷ keys) store =
    let (hit, store') = test key store in
    let (n, store'') = count_keys test keys store' in (truth hit + n, store'')

abbrev pub save_reply : Bool → Option Bytes → Resp
save_reply saved none = error not_configured_text
save_reply true (some path) = simple ok_text
save_reply false (some path) = error save_failed_text

unfoldable pub execute : ℕ → Bool → Command → Store → Resp × Store
execute now saved (ping none) store = (simple pong_text, store)
execute now saved (ping (some message)) store = (bulk message, store)
execute now saved (echo message) store = (bulk message, store)
execute now saved (get key) store =
    let (value, store') = Store.get now key store in (value_reply value, store')
execute now saved (set key value expire_at) store =
    (simple ok_text, Store.set key value expire_at store)
execute now saved (del keys) store =
    let (n, store') = count_keys (Store.del now) keys store in (integer (pos n), store')
execute now saved (exists keys) store =
    let (n, store') = count_keys (Store.exists now) keys store in (integer (pos n), store')
execute now saved (incr key) store =
    let (n, store') = Store.incr now key store in (number_reply n, store')
execute now saved (expire key seconds) store =
    let (was_set, store') = Store.expire now key seconds store in
    (integer (pos (truth was_set)), store')
execute now saved (ttl key) store = (integer (Store.ttl now key store), store)
execute now saved db_size store = (integer (pos (Store.len now store)), store)
execute now saved save store = (save_reply saved store.snapshot_path, store)
execute now saved command store = (array empty, store)
