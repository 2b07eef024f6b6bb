-- ===== src/Rudis/Connection.antt =====
-- 07-systems-programming/src/connection.rs: the buffers of a client. What the socket answers is a
-- list, in order; a socket that has given all its answers would block. The clock stands still during
-- a call, and the text of a protocol error is a function of the request.
pub mod Pipeline
use rust_fundamentals.Base.{
  ℕ, zero, suc, ◌+◌, Bool, true, false, List, [], ◌∷◌, ◌++◌, length, take, drop, not, ◌==◌, ltb,
  if◌then◌else◌, Option, none, some,
}
use rust_fundamentals.Base.Bytes.{Bytes}
use rust_fundamentals.Rudis.Store.{Store}
use rust_fundamentals.Rudis.Resp
use rust_fundamentals.Rudis.Resp.{Resp, Parsed}
use rust_fundamentals.Rudis.Command
use rust_fundamentals.Rudis.Command.{Command, execute}

pub record Connection : Type 0 where
  pub read_buf : Bytes
  pub write_buf : Bytes

-- Whether there is pending output.
unfoldable pub wants_write : Connection → Bool
wants_write conn = not (length conn.write_buf == 0)

-- What `stream.read` and `stream.write` answer: some bytes or their number, or an error.
pub data Answer {ℓ} (A : Type ℓ) : Type ℓ where
  took : A → Answer A
  would_block : Answer A
  interrupted : Answer A
  broken : Answer A

-- `Ok(true)`, `Ok(false)` and `Err`.
pub data Drained : Type 0 where
  closed : Drained
  drained : Drained
  failed : Drained

unfoldable pub read_into_buf : List (Answer Bytes) → Connection → Drained × Connection
read_into_buf [] conn = (drained, conn)
read_into_buf (took [] ∷ answers) conn = (closed, conn)
read_into_buf (took (b ∷ bytes) ∷ answers) conn =
    read_into_buf answers (record conn { read_buf = conn.read_buf ++ (b ∷ bytes) })
read_into_buf (would_block ∷ answers) conn = (drained, conn)
read_into_buf (interrupted ∷ answers) conn = read_into_buf answers conn
read_into_buf (broken ∷ answers) conn = (failed, conn)

-- Parsing and running one request.
abbrev pub answer : (Resp → Bytes) → ℕ → Bool → Resp → Store → Option Command → Resp × Store
answer err_text now saved value store none = (Resp.error (err_text value), store)
answer err_text now saved value store (some c) = execute now saved c store

abbrev pub serve : (Resp → Bytes) → ℕ → Bool → Resp → Store → Resp × Store
serve err_text now saved value store =
    answer err_text now saved value store (Command.parse now value)

-- How `process` ends: `Ok(())`, `Err`, a panic of the parser, or the end of the model's fuel.
pub data Processed : Type 0 where
  processed : Processed
  protocol_error : Processed
  panicked : Processed
  out_of_fuel : Processed

-- What `process` does with the outcome of the parser.
abbrev pub dispatch :
    Parsed
    → (Resp → ℕ → Processed × Connection × Store)
    → Connection
    → Store
    → Processed × Connection × Store
dispatch (Resp.parsed value consumed) next conn store = next value consumed
dispatch Resp.partial next conn store = (processed, conn, store)
dispatch Resp.protocol next conn store = (protocol_error, conn, store)
dispatch Resp.panic next conn store = (panicked, conn, store)
dispatch Resp.stuck next conn store = (out_of_fuel, conn, store)

abbrev pub replied : Connection → ℕ → Resp → Connection
replied conn consumed reply = record {
  read_buf = drop consumed conn.read_buf;
  write_buf = conn.write_buf ++ Resp.encode reply;
}

-- The loop, on fuel.
unfoldable pub process :
    ℕ → (Resp → Bytes) → ℕ → Bool → Connection → Store → Processed × Connection × Store
process zero err_text now saved conn store = (out_of_fuel, conn, store)
process (suc fuel) err_text now saved conn store =
    dispatch (Resp.parse (suc (length conn.read_buf)) conn.read_buf)
      (λ value consumed.
        let (reply, store') = serve err_text now saved value store in
        process fuel err_text now saved (replied conn consumed reply) store')
      conn store

-- The loop of `flush_write_buf` from the bytes sent so far on. It gives whether the socket is broken
-- and how many bytes were sent.
unfoldable pub send : List (Answer ℕ) → ℕ → ℕ → Bool × ℕ
send [] len sent = (true, sent)
send (took zero ∷ answers) len sent = (true, sent)
send (took (suc n) ∷ answers) len sent =
    let rest = send answers len (sent + suc n) in if ltb sent len then rest else (true, sent)
send (would_block ∷ answers) len sent = (true, sent)
send (interrupted ∷ answers) len sent =
    let rest = send answers len sent in if ltb sent len then rest else (true, sent)
send (broken ∷ answers) len sent = if ltb sent len then (false, sent) else (true, sent)

unfoldable pub flush_write_buf : List (Answer ℕ) → Connection → Bool × Connection
flush_write_buf answers conn =
    let (fine, sent) = send answers (length conn.write_buf) 0 in
    (fine, record conn { write_buf = drop sent conn.write_buf })
