-- ===== src/Lib.antt =====
-- Verification library of the rust-fundamentals course repository, whose folders are the projects of
-- the course. Modelled are a key-value store on a log-structured merge tree (10-database-internals/src),
-- the keyspace, the commands, the wire format, the snapshots and the connections of an in-memory
-- server (07-systems-programming/src), a Bloom filter and its C interface (09-unsafe-ffi/src), an
-- aggregation of measurements by station in parallel chunks (08-performance/src), a door and a traffic
-- light as state machines (02-ownership-types-traits/src), a typed loader of environment variables
-- (03-error-handling-api-design/src), the targets of a port scanner (05-async-tokio/src) and a log
-- analyzer with its parallel drivers (04-concurrency/src). The projects do not call one another; they share the helpers of this library.
--
-- The parts and their files. `Base` has what they share: lists and Boolean tests over the native
-- numbers, little-endian fields (Base/Bytes), exclusive and inclusive or (Base/Bits, Base/BitOr), the
-- order on byte strings (Base/Order), decimal numerals (Base/Decimal), integers (Base/Int), results
-- that can be refused (Base/Fallible), and maps as lists of entries in the order of their keys
-- (Base/Map; Map/Ext has that a map is determined by its reads). `Lsm` has a module for each source
-- file of 10-database-internals/src:
--
--   Lsm/Result    error.rs: the error type, and the panics of slice indices as values
--   Lsm/Encoding  encoding.rs: Record::encode and decode; the children read fields back, round-trip
--                 records and cut them short
--   Lsm/Crc       encoding.rs: crc32 with its table; Crc/Bitwise has the checksum bit by bit
--   Lsm/Wal       wal.rs: append, sync, reset, replay; Wal/Crash has what a crash leaves of the file
--   Lsm/MemTable  memtable.rs: the write buffer and its byte estimate
--   Lsm/Merge     keep_newest of db.rs, newest_per_key and the reduction of compaction.rs
--   Lsm/SsTable   sstable.rs: the image that write lays down, open, get by binary search, iter
--   Lsm/Db        db.rs: put, delete, flush, get; Db/Compact has compact (with compaction.rs),
--                 Db/Scan has scan and stats, Db/Recovery has open_with
--
-- The store `Db` goes from state to state: an operation takes the store and the answers of the system
-- to its calls (`Io`: how far a write gets, whether a sync succeeds, whether tables can be read and
-- opened, how far the reset of the log gets, how many files can be removed) and gives a result and the next store. A write appends its record to the log and syncs it, then
-- inserts it into the memtable, which `flush` writes to a table when it has grown; `get` asks the
-- memtable and then the tables, newest first; `open_with` opens the tables and replays the log.
--
-- `Rudis` has the server: Rudis/Store is store.rs, the map from keys to values with deadlines. Its
-- operations take the time as an argument; what a client can see at a time is `look` of
-- Rudis/Store/View, and a sequence of calls is a sequence of steps (`Step` of Rudis/Store/Count).
-- Arithmetic on 64 bits wraps around. Rudis/Resp is resp.rs: the parser of one value from the front of
-- a buffer, and the encoder. Rudis/Command is command.rs: a request, an array of bulk strings, is
-- parsed to a command, and `execute` runs it on the keyspace and gives the reply. It is measured by
-- Rudis/Command/Keyspace: what each command replies and leaves on a plain function from keys to the
-- entries that are alive.
-- Rudis/Persistence is persistence.rs: the bytes of a snapshot, and loading them.
-- Rudis/Connection is connection.rs: a client's buffers, with the socket's answers as a list; `process`
-- parses, runs and answers the requests of the read buffer.
--
-- `Bloom` has the Bloom filter. Bloom/Hash is hash.rs, FNV-1a on 64 bits and the double hashing of the
-- probes; Bloom/Filter is bloom.rs: with_params, add, contains, to_bytes and from_bytes on a list of
-- 64-bit words, where an index out of range and a division by zero are the value `panic`, in which the
-- filter of a method keeps the writes before it. The constructor from a false-positive rate takes the
-- floating-point functions as a parameter, the record `Float`. Bloom/Ffi is ffi.rs: the exported
-- functions on a memory of handles and buffers; a call on a handle that is not live, or a read outside
-- a buffer, is `none`, undefined behaviour.
--
-- `Brc` has the aggregation. Brc/Parse is parse.rs, whose search for a byte, a third-party crate, is the
-- parameter `Memchr`; Brc/FxHash is the hasher; Brc/Stats is stats.rs, the running summary of a station;
-- Brc/Runner is runner.rs, the sequential run, the cutting of the input into chunks that end with a
-- line, and the run by chunks with the merge of their maps. The hash map is kept in the order of the
-- keys, since no result depends on the order of the buckets. The subtraction of bytes in the parser
-- wraps around, as in a release build.
--
-- `Fsm` has the door of door.rs, whose lock state is an index of its type, and the traffic light of
-- traffic_light.rs and observer.rs: shared observers are cells of a heap with a borrow flag, and a
-- second borrow is a panic. `Config` is the loader: Config/VarName is var_name.rs and error.rs,
-- Config/FromEnv is from_env.rs, and Config/Loader is loader.rs; the process environment is a function
-- from names to values, a value that has forgotten its type is a tagged union, and a chain of builder
-- calls is a list of `Request`. `Scan` is target.rs, the parser of `host:ports`. Text is a list of bytes
-- where the code cuts it at ASCII characters, and of code points in `Config`.
--
-- `Log` is the log analyzer. Log/Lossy has what it uses of the standard library on text: the lossy
-- decoding of UTF-8 as an automaton on bytes, lines and words. Log/Parser is parser.rs, with the parser of f32
-- as a parameter; Log/Stats is the aggregate of stats.rs, with 64-bit sums that wrap around. Log/Runner has
-- analyze_sequential, split_into_chunks and analyze_parallel, in which a thread is a run on its chunk and
-- the results are merged in the order of the handles, and analyze_rayon, where the third-party iterator is the
-- parameter `Rayon`: it splits the lines as it likes and keeps their order. Products of usize wrap around.
-- Log/Pipeline is pipeline.rs: the producer's batches, and the workers, where the one that takes each batch
-- from the channel is an argument. `Alike` compares aggregates up to the order of the request times.
--
-- A crash is modelled on the disk: of the log it leaves what was synced and any part of the rest
-- (`Leaves`), of a table's file all or nothing, since `write` renames a synced temporary file. The
-- library's records of a store at rest are `Durable`: the tables are those on disk, and the log has,
-- whole and synced, the records of the memtable.
--
-- Loops that read a buffer run on fuel: the length of the buffer and one more round. A round of
-- `Wal::replay` takes 8 bytes at least, one of the index loop 16 and one of `iter` 17, so the fuel is
-- enough. The parser of the wire format takes fuel for the
-- nesting of arrays, and a nested value starts behind a type byte. `process` takes a unit of fuel for
-- each request and one more. Running out of fuel is the result
-- `stuck`, or `none` in `replay`.
--
-- Lengths are written modulo 2^32 where the source casts to u32, and a field's bytes are taken modulo
-- 256. `Fits`, `FrameFits` and `TableFits` say that a record's fields fit into their widths, that its
-- payload's length fits into the frame's, and that a table's file is shorter than 2^64 bytes. Sums of
-- sizes of data in memory, sequence numbers and table ids are taken to stay below 2^64.
--
-- Not modelled: the names of files (sst_path, parse_sst_id) and temporary files, messages of errors, the
-- command lines, the server's event loop (server.rs), the floating-point mean and the printed table of
-- the aggregation, memory maps (map_file, and sys.rs of 09-unsafe-ffi), the sockets of the
-- scanner and the proxy, the debug views, the percentiles and the report of the log analyzer, and the
-- other projects of the repository: the expense splitter and the web service.
pub mod Base
pub mod Lsm
pub mod Rudis
pub mod Bloom
pub mod Brc
pub mod Fsm
pub mod Scan
pub mod Config
pub mod Log
