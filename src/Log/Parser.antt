-- ===== src/Log/Parser.antt =====
-- 04-concurrency/src/parser.rs. A parser of `f32` is a parameter: `F` are the floating-point numbers.
use rust_fundamentals.Base.{ℕ, Option, none, some, List, [], ◌∷◌, length}
use rust_fundamentals.Base.Decimal.{parse_unsigned}
use rust_fundamentals.Base.Fallible.{Result, ok, err, ◌>>=◌}
use rust_fundamentals.Log.Lossy.{Text, split_whitespace}

pub record LogEntry (F : Type 0) : Type 0 where
  pub ip : Text
  pub status : ℕ
  pub bytes : ℕ
  pub request_time_ms : F
  pub method : Text
  pub path : Text

pub data Field : Type 0 where
  status_field : Field
  bytes_field : Field
  request_time_ms_field : Field

pub data ParseError : Type 0 where
  wrong_field_count : ℕ → ParseError
  bad_number : Field → ParseError

abbrev pub or_bad {ℓ} : {A : Type ℓ} → Field → Option A → Result ParseError A
or_bad field none = err (bad_number field)
or_bad field (some a) = ok a

module _ {F : Type 0} (parse_f32 : Text → Option F) where
  unfoldable pub entry_of : List Text → Result ParseError (LogEntry F)
  entry_of (ip ∷ status ∷ bytes ∷ time ∷ method ∷ path ∷ []) =
      or_bad status_field (parse_unsigned 16 status) >>= λ status.
      or_bad bytes_field (parse_unsigned 64 bytes) >>= λ bytes.
      or_bad request_time_ms_field (parse_f32 time) >>= λ time. ok (record {
        ip = ip;
        status = status;
        bytes = bytes;
        request_time_ms = time;
        method = method;
        path = path;
      })
  entry_of parts = err (wrong_field_count (length parts))

  unfoldable pub parse_line : Text → Result ParseError (LogEntry F)
  parse_line line = entry_of (split_whitespace line)
