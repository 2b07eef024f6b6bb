-- ===== src/Log/Stats.antt =====
-- 04-concurrency/src/stats.rs: the aggregate. Sums of 64 bits wrap, as in a release build; a map from
-- status codes has their one-element lists as keys, and a `HashMap` is kept in the order of the keys.
pub mod Merged
pub mod Reordered
use rust_fundamentals.Base.{ℕ, ◌+◌, ◌%◌, ◌^◌, Option, none, some, List, [], ◌∷◌, ◌++◌}
use rust_fundamentals.Base.Bytes.{Bytes}
use rust_fundamentals.Base.Map
use rust_fundamentals.Base.Map.{Map}
use rust_fundamentals.Log.Parser.{LogEntry}

unfoldable pub wrap : ℕ → ℕ
wrap n = n % 2 ^ 64

abbrev pub Counts : Type 0
Counts = Map ℕ

pub record Stats (F : Type 0) : Type 0 where
  pub requests : ℕ
  pub malformed : ℕ
  pub total_bytes : ℕ
  pub status_counts : Counts
  pub path_counts : Counts
  pub ip_counts : Counts
  pub request_times : List F

abbrev pub or_zero : Option ℕ → ℕ
or_zero none = 0
or_zero (some n) = n

-- `*counts.entry(key).or_insert(0) += count`
unfoldable pub bump : Bytes → ℕ → Counts → Counts
bump key count counts = Map.insert key (wrap (or_zero (Map.get key counts) + count)) counts

unfoldable pub merge_counts : Counts → Counts → Counts
merge_counts [] counts = counts
merge_counts ((key, count) ∷ other) counts = merge_counts other (bump key count counts)

module _ {F : Type 0} where
  abbrev pub default : Stats F
  default = record {
    requests = 0;
    malformed = 0;
    total_bytes = 0;
    status_counts = [];
    path_counts = [];
    ip_counts = [];
    request_times = [];
  }

  unfoldable pub record_entry : LogEntry F → Stats F → Stats F
  record_entry entry s = record {
    requests = wrap (s.requests + 1);
    malformed = s.malformed;
    total_bytes = wrap (s.total_bytes + entry.bytes);
    status_counts = bump (entry.status ∷ []) 1 s.status_counts;
    path_counts = bump entry.path 1 s.path_counts;
    ip_counts = bump entry.ip 1 s.ip_counts;
    request_times = s.request_times ++ (entry.request_time_ms ∷ []);
  }

  unfoldable pub record_malformed : Stats F → Stats F
  record_malformed s = record s { malformed = wrap (s.malformed + 1) }

  unfoldable pub merge : Stats F → Stats F → Stats F
  merge other s = record {
    requests = wrap (s.requests + other.requests);
    malformed = wrap (s.malformed + other.malformed);
    total_bytes = wrap (s.total_bytes + other.total_bytes);
    status_counts = merge_counts other.status_counts s.status_counts;
    path_counts = merge_counts other.path_counts s.path_counts;
    ip_counts = merge_counts other.ip_counts s.ip_counts;
    request_times = s.request_times ++ other.request_times;
  }
