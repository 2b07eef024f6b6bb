-- ===== src/Rudis/Connection/Pipeline.antt =====
-- Requests that arrive together are answered in their order.
use rust_fundamentals.Base.{
  ℕ, suc, ◌≡◌, sym, ap, ◌∙◌, Bool, List, [], ◌∷◌, ◌++◌, length, drop-append, length-append,
  append_assoc, append-nil, All, arith,
}
use rust_fundamentals.Base.Bytes.{Bytes}
use rust_fundamentals.Rudis.Store.{Store}
use rust_fundamentals.Rudis.Resp
use rust_fundamentals.Rudis.Resp.{Resp}
use rust_fundamentals.Rudis.Resp.RoundTrip.{WellFormed, parse-encode}
use rust_fundamentals.Rudis.Connection.{Connection, processed, serve, dispatch, replied, process}

-- The requests on the wire, one behind the other.
unfoldable pub on_wire : List Resp → Bytes
on_wire [] = []
on_wire (v ∷ vs) = Resp.encode v ++ on_wire vs

-- The replies and the store when the requests are served one after the other.
unfoldable pub serve_all : (Resp → Bytes) → ℕ → Bool → List Resp → Store → Bytes × Store
serve_all err_text now saved [] store = ([], store)
serve_all err_text now saved (v ∷ vs) store =
    let (reply, store') = serve err_text now saved v store in
    let (replies, store'') = serve_all err_text now saved vs store' in
    (Resp.encode reply ++ replies, store'')

module _ (err_text : Resp → Bytes) (now : ℕ) (saved : Bool) where
  process_one :
      (fuel : ℕ) (v : Resp) (rest written : Bytes) (store : Store)
      → WellFormed v
      → process
          (suc fuel)
          err_text
          now
          saved
          (record { read_buf = Resp.encode v ++ rest; write_buf = written })
          store
        ≡ (let (reply, store') = serve err_text now saved v store in
            process fuel err_text now saved
              (record { read_buf = rest; write_buf = written ++ Resp.encode reply })
              store')
  unfolding process
  process_one fuel v rest written store w =
      let buf = Resp.encode v ++ rest in
      let conn : Connection = record { read_buf = buf; write_buf = written } in
      let (reply, store') = serve err_text now saved v store in
      ap
        (λ o.
          dispatch o
            (λ value consumed.
              let (r, st) = serve err_text now saved value store in
              process fuel err_text now saved (replied conn consumed r) st)
            conn store)
        (parse-encode v (suc (length buf)) rest w
          (omega (arith, length-append (Resp.encode v) rest)))
      ∙ ap
          (λ b.
            process fuel err_text now saved
              (record { read_buf = b; write_buf = written ++ Resp.encode reply }) store')
          (drop-append (Resp.encode v) rest)

  process_rest :
      (fuel : ℕ) (tail written : Bytes) (store : Store)
      → Resp.parse (suc (length tail)) tail ≡ Resp.partial
      → process
          (suc fuel)
          err_text
          now
          saved
          (record { read_buf = tail; write_buf = written })
          store
        ≡ (processed, record { read_buf = tail; write_buf = written }, store)
  unfolding process
  process_rest fuel tail written store p =
      let conn : Connection = record { read_buf = tail; write_buf = written } in
      ap
        (λ o.
          dispatch o
            (λ value consumed.
              let (r, st) = serve err_text now saved value store in
              process fuel err_text now saved (replied conn consumed r) st)
            conn store)
        p

  -- A buffer with whole, well-formed requests and a partial one behind them: `process` serves the
  -- whole ones in their order, appends their replies to the output and leaves the partial one.
  pub process-serve_all :
      (vs : List Resp) (tail written : Bytes) (store : Store)
      → All WellFormed vs
      → Resp.parse (suc (length tail)) tail ≡ Resp.partial
      → process
          (suc (length vs))
          err_text
          now
          saved
          (record { read_buf = on_wire vs ++ tail; write_buf = written })
          store
        ≡ (let (replies, store') = serve_all err_text now saved vs store in
            (processed, record { read_buf = tail; write_buf = written ++ replies }, store'))
  unfolding on_wire serve_all
  process-serve_all [] tail written store ws p =
      process_rest 0 tail written store p
      ∙ ap (λ t. (processed, record { read_buf = tail; write_buf = t }, store))
          (sym (append-nil written))
  process-serve_all (v ∷ vs) tail written store (w, ws) p =
      let (reply, store') = serve err_text now saved v store in
      let (replies, store'') = serve_all err_text now saved vs store' in
      ap
        (λ b.
          process (suc (suc (length vs))) err_text now saved
            (record { read_buf = b; write_buf = written }) store)
        (append_assoc (Resp.encode v) (on_wire vs) tail)
      ∙ process_one (suc (length vs)) v (on_wire vs ++ tail) written store w
      ∙ process-serve_all vs tail (written ++ Resp.encode reply) store' ws p
      ∙ ap (λ t. (processed, record { read_buf = tail; write_buf = t }, store''))
          (append_assoc written (Resp.encode reply) replies)
