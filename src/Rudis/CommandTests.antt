-- ===== src/Rudis/CommandTests.antt =====
-- The theorems on commands and connections at concrete inputs.
use rust_fundamentals.Base.{◌++◌, All, arith, ◌≡◌, refl, true, none, some, ℕ, ◌≤◌, List, [], ◌∷◌}
use rust_fundamentals.Base.Bytes.{Bytes}
use rust_fundamentals.Base.Map.{key_eq}
use rust_fundamentals.Base.Order.{cmp}
use rust_fundamentals.Rudis.Resp
use rust_fundamentals.Rudis.Resp.{Resp, array, empty, item, bulk, count, find_crlf}
use rust_fundamentals.Rudis.Resp.RoundTrip.{WellFormed}
use rust_fundamentals.Rudis.Connection.{processed, process}
use rust_fundamentals.Rudis.Connection.Pipeline.{on_wire, serve_all, process-serve_all}
use rust_fundamentals.Rudis.Store.View.{IsValid}
use rust_fundamentals.Rudis.Command
use rust_fundamentals.Rudis.Command.{
  bulk_args, args_of, upper, to_ascii_uppercase, by_name, parse, value_reply, execute, count_keys,
}
use rust_fundamentals.Rudis.Command.Replies.{request_items, request}
use rust_fundamentals.Rudis.Command.Keyspace.{count_alive, seen, shown, after, reply_of}
use rust_fundamentals.Rudis.Command.Answers.{execute-Answers}
use rust_fundamentals.Rudis.Store
use rust_fundamentals.Rudis.Store.{is_expired}
use rust_fundamentals.Base.Map
use rust_fundamentals.Base.Decimal.{pos}
use rust_fundamentals.Rudis.Tests.{store, store-IsValid}

-- `get` in small letters.
abbrev small_get : Bytes
small_get = 0x67 ∷ 0x65 ∷ 0x74 ∷ []

parse-small_get : parse 0 (request (small_get ∷ (0x61 ∷ []) ∷ [])) ≡ some (Command.get (0x61 ∷ []))
unfolding parse args_of bulk_args request_items by_name to_ascii_uppercase upper key_eq cmp
parse-small_get = refl

-- Behind the deadline of `a` there is one key to delete, however often it is named.
abbrev both_keys : List Bytes
both_keys = (0x61 ∷ []) ∷ (0x62 ∷ []) ∷ (0x62 ∷ []) ∷ []

del-both : (execute 6000 true (Command.del both_keys) store).0 ≡ Resp.integer (pos 1)
unfolding execute count_keys Store.del is_expired Map.get Map.remove cmp
del-both = refl

execute-Answers_example :
    ((execute 6000 true (Command.del both_keys) store).0
      ≡ reply_of 6000
          (count_alive 6000 store.map)
          (Command.save_reply true none)
          (Command.del both_keys)
          (seen 6000 store))
    × ((t : ℕ) (key : Bytes)
        → 6000 ≤ t
        → seen t (execute 6000 true (Command.del both_keys) store).1 key
          ≡ shown t (after 6000 (Command.del both_keys) (seen 6000 store) key))
    × IsValid (execute 6000 true (Command.del both_keys) store).1
execute-Answers_example = execute-Answers 6000 true (Command.del both_keys) store store-IsValid

-- Two requests and the beginning of a third one.
abbrev ping_request : Resp
ping_request = array (item (bulk Command.ping_text) empty)

abbrev any_error : Resp → Bytes
any_error request = 0x45 ∷ 0x52 ∷ 0x52 ∷ []

two_requests : All WellFormed (ping_request ∷ Resp.null ∷ [])
unfolding count
two_requests = ((omega arith, (omega arith, tt)), (tt, tt))

third-partial : Resp.parse 3 (0x2A ∷ 0x31 ∷ []) ≡ Resp.partial
unfolding Resp.parse find_crlf
third-partial = refl

process-serve_all_example :
    process 3 any_error 100 true
      (record {
        read_buf = on_wire (ping_request ∷ Resp.null ∷ []) ++ (0x2A ∷ 0x31 ∷ []);
        write_buf = [];
      })
      store
    ≡ (let (replies, store') = serve_all any_error 100 true (ping_request ∷ Resp.null ∷ []) store in
        (processed, record { read_buf = 0x2A ∷ 0x31 ∷ []; write_buf = [] ++ replies }, store'))
process-serve_all_example =
    process-serve_all any_error 100 true (ping_request ∷ Resp.null ∷ []) (0x2A ∷ 0x31 ∷ []) [] store
      two_requests third-partial
