-- ===== src/Lsm/Db/Write.antt =====
-- What `get` gives behind `put` and `delete`, whatever the system answers.
use rust_fundamentals.Base.{
  ◌+◌, ◌≡◌, ◌≢◌, refl, sym, ap, ◌∙◌, subst, none, some, Bool, true, false, if◌then◌else◌, ◌⊎◌, inl,
  inr, Bool-cases,
}
use rust_fundamentals.Base.Bytes.{Bytes}
use rust_fundamentals.Base.Map.{key_eq}
use rust_fundamentals.Lsm.Result.{Result, ok, err, io}
use rust_fundamentals.Lsm.Encoding.{Record, put_record, tombstone}
use rust_fundamentals.Lsm.Wal
use rust_fundamentals.Lsm.MemTable
use rust_fundamentals.Lsm.MemTable.{MemTable}
use rust_fundamentals.Lsm.MemTable.Valid.{get-insert_lem}
use rust_fundamentals.Lsm.Db.{
  Db, Io, live, or_older, get_tables, get, and_then, maybe_flush, write_record, put, delete,
}
use rust_fundamentals.Lsm.Db.View.{Flushable, SameView, EndsOr, maybe_flush-keeps}

-- What a store reads with a record on top.
abbrev pub Written : Db → Record → Db → Type 0
Written db r db' =
    (key : Bytes) → get db' key ≡ (if key_eq r.key key then ok (live r.value) else get db key)

pub get-inserted :
    (db : Db) (r : Record) (key : Bytes)
    → or_older (MemTable.get key (MemTable.insert db.mem r)) (get_tables db.sstables key)
      ≡ (if key_eq r.key key then ok (live r.value) else get db key)
unfolding get
get-inserted db r key =
    rw (get-insert_lem db.mem r key)
      (elim (Bool-cases (key_eq r.key key)) [ inl same ↦ rw same | inr other ↦ rw other ])

-- `write_record` by the answers of the log.
abbrev pub write_rest : Db → Record → Wal.WriteAll → Bool → Io → Result (Unit {0}) × Db
write_rest db r outcome sync_ok sys =
    let (appended, wal) = Wal.append db.wal r outcome in
    let (synced, wal') = Wal.sync wal sync_ok in
    let applied = record db { wal = wal'; mem = MemTable.insert db.mem r } in
    and_then appended (record db { wal = wal })
      (and_then synced (record db { wal = wal' }) (maybe_flush applied sys))

write_rest-accepted :
    (db : Db) (r : Record) (sys : Io)
    → Flushable (MemTable.insert db.mem r)
    → (let outcome = write_rest db r Wal.written true sys in
        EndsOr sys.open_failure outcome.0 × Written db r outcome.1)
unfolding Wal.append Wal.sync get
write_rest-accepted db r sys f =
    let (ends, same) = maybe_flush-keeps _ sys f in (ends, λ key. same key ∙ get-inserted db r key)

-- A write whose record the log does not take reports it and changes no reading.
abbrev pub Refused : Db → Result (Unit {0}) × Db → Type 0
Refused db outcome = (outcome.0 ≡ err io) × SameView db outcome.1

write_rest-Refused :
    (db : Db) (r : Record) (outcome : Wal.WriteAll) (sync_ok : Bool) (sys : Io)
    → (outcome ≢ Wal.written) ⊎ (sync_ok ≡ false)
    → Refused db (write_rest db r outcome sync_ok sys)
unfolding Wal.append Wal.sync get
write_rest-Refused db r (Wal.failed_after n) sync_ok sys h = (refl, λ key. refl)
write_rest-Refused db r Wal.written false sys h = (refl, λ key. refl)
write_rest-Refused db r Wal.written true sys (inl h) = absurd (h refl)
write_rest-Refused db r Wal.written true sys (inr h) = absurd (cc)

pub write_record-rest :
    (db : Db) (r : Record) (sys : Io) {outcome : Wal.WriteAll} {sync_ok : Bool}
    → sys.append_outcome ≡ outcome
    → sys.sync_ok ≡ sync_ok
    → write_rest db r outcome sync_ok sys ≡ write_record db r sys
unfolding write_record
write_record-rest db r sys {outcome} {sync_ok} e f =
    ap (λ o. write_rest db r o sync_ok sys) (sym e)
    ∙ ap (λ b. write_rest db r sys.append_outcome b sys) (sym f)

write_accepted :
    (db : Db) (r : Record) (sys : Io)
    → Flushable (MemTable.insert db.mem r)
    → sys.append_outcome ≡ Wal.written
    → sys.sync_ok ≡ true
    → EndsOr sys.open_failure (write_record db r sys).0 × Written db r (write_record db r sys).1
write_accepted db r sys f appended synced =
    subst (λ (o : Result (Unit {0}) × Db). EndsOr sys.open_failure o.0 × Written db r o.1)
      (write_record-rest db r sys appended synced) (write_rest-accepted db r sys f)

-- Once the log has taken a record, `put` ends well or with an error of the system, which is the one of
-- opening the new table if that is what fails, and its key reads as the new value and every other
-- key as before, whatever a flush does then.
pub put-accepted :
    (db : Db) (key value : Bytes) (sys : Io)
    → Flushable (MemTable.insert db.mem (put_record db.seq key value))
    → sys.append_outcome ≡ Wal.written
    → sys.sync_ok ≡ true
    → (let outcome = put db key value sys in
        EndsOr sys.open_failure outcome.0
        × ((j : Bytes) → get outcome.1 j ≡ (if key_eq key j then ok (some value) else get db j)))
unfolding put get
put-accepted db key value sys f appended synced =
    write_accepted (record db { seq = db.seq + 1 }) (put_record db.seq key value) sys f appended
      synced

-- Once the log has taken a tombstone, `delete` ends well or with an error of the system, which is the
-- one of opening the new table if that is what fails, and its key reads as absent and every other key
-- as before, whatever a flush does then.
pub delete-accepted :
    (db : Db) (key : Bytes) (sys : Io)
    → Flushable (MemTable.insert db.mem (tombstone db.seq key))
    → sys.append_outcome ≡ Wal.written
    → sys.sync_ok ≡ true
    → (let outcome = delete db key sys in
        EndsOr sys.open_failure outcome.0
        × ((j : Bytes) → get outcome.1 j ≡ (if key_eq key j then ok none else get db j)))
unfolding delete get
delete-accepted db key sys f appended synced =
    write_accepted (record db { seq = db.seq + 1 }) (tombstone db.seq key) sys f appended synced

-- A `put` whose record the log does not take whole, or cannot sync, gives an error of the system,
-- and every key reads as before.
pub put-Refused :
    (db : Db) (key value : Bytes) (sys : Io)
    → (sys.append_outcome ≢ Wal.written) ⊎ (sys.sync_ok ≡ false)
    → Refused db (put db key value sys)
unfolding put get
put-Refused db key value sys h =
    let db' = record db { seq = db.seq + 1 } in
    let r = put_record db.seq key value in
    subst (Refused db) (write_record-rest db' r sys refl refl)
      (write_rest-Refused db' r sys.append_outcome sys.sync_ok sys h)
