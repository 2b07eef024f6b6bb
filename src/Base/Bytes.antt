-- ===== src/Base/Bytes.antt =====
-- What the programs use of Rust's byte slices and fixed-width integers: `get` on a range,
-- `to_le_bytes` and `from_le_bytes`, and an offset that walks a buffer.
use Prim.Native.Nat.{ℕ, zero, suc, ◌+◌, ◌-◌, ◌*◌, ◌/◌, ◌%◌, ◌^◌, ◌≤◌, ◌<◌}
use mathlib.Core.Path.{◌≡◌, refl, sym, ap, ◌∙◌}
use mathlib.Core.Bool.{◌&&◌}
use mathlib.Core.List.{List, [], ◌∷◌, ◌++◌, append_assoc}
use mathlib.Core.Option.{Option, none, some}
use native.Mathlib.Omega.{arith}
use native.Mathlib.Nat.{pow-suc}
use rust_fundamentals.Base.Tests.{leb, le→leb, gt→leb, if◌then◌else◌}
use rust_fundamentals.Base.Lists.{
  length, take, drop, get_elem?, length-append, take-append, drop-append, get_elem?-append_at,
  length-take, length-drop, take-append_le, drop-append_le,
}

abbrev pub Bytes : Type 0
Bytes = List ℕ

abbrev pub IsByte : ℕ → Type 0
IsByte b = b < 256

-- `v.to_le_bytes()` of a w-byte integer.
unfoldable pub to_le_bytes : ℕ → ℕ → Bytes
to_le_bytes zero v = []
to_le_bytes (suc w) v = (v % 256) ∷ to_le_bytes w (v / 256)

-- `from_le_bytes`, of as many bytes as there are.
unfoldable pub from_le_bytes : Bytes → ℕ
from_le_bytes [] = 0
from_le_bytes (b ∷ bs) = b + 256 * from_le_bytes bs

pub length-to_le_bytes : (w v : ℕ) → length (to_le_bytes w v) ≡ w
unfolding to_le_bytes
length-to_le_bytes zero v = refl
length-to_le_bytes (suc w) v = ap suc (length-to_le_bytes w (v / 256))

pub from_le_bytes-to_le_bytes : (w v : ℕ) → v < 256 ^ w → from_le_bytes (to_le_bytes w v) ≡ v
unfolding from_le_bytes to_le_bytes
from_le_bytes-to_le_bytes zero v h = omega arith
from_le_bytes-to_le_bytes (suc w) v h =
    omega (arith, from_le_bytes-to_le_bytes w (v / 256) (omega (arith, pow-suc 256 w)))

-- `buf.get(from..to)`, for `from ≤ to`.
unfoldable pub get_range : Bytes → ℕ → ℕ → Option Bytes
get_range buf from to =
    if leb from to && leb to (length buf) then some (take (to - from) (drop from buf)) else none

-- The offset `pos` of `buf` stands before `rest`.
pub record At (buf : Bytes) (pos : ℕ) (rest : Bytes) : Type 0 where
  pub before : Bytes
  pub whole : buf ≡ before ++ rest
  pub here : pos ≡ length before

pub At-start : (buf : Bytes) → At buf 0 buf
At-start buf = record { before = []; whole = refl; here = refl }

pub At-skip :
    {buf : Bytes} {pos : ℕ} (chunk rest : Bytes) {w : ℕ}
    → At buf pos (chunk ++ rest)
    → length chunk ≡ w
    → At buf (pos + w) rest
At-skip chunk rest a e = record {
  before = a.before ++ chunk;
  whole = a.whole ∙ sym (append_assoc a.before chunk rest);
  here = omega (arith, a.here, e, length-append a.before chunk);
}

pub length-At :
    {buf : Bytes} {pos : ℕ} (rest : Bytes) → At buf pos rest → length buf ≡ pos + length rest
length-At rest a = rw a.whole (omega (arith, a.here, length-append a.before rest))

pub drop-At : {buf : Bytes} {pos : ℕ} (rest : Bytes) → At buf pos rest → drop pos buf ≡ rest
drop-At rest a = rw (a.whole, a.here) (drop-append a.before rest)

-- A range inside the buffer is cut out of it.
pub get_range_inside :
    (buf : Bytes) (pos w : ℕ)
    → pos + w ≤ length buf
    → get_range buf pos (pos + w) ≡ some (take w (drop pos buf))
unfolding get_range
get_range_inside buf pos w h =
    rw (le→leb pos (pos + w) (omega arith), le→leb (pos + w) (length buf) h)
      (ap (λ (n : ℕ). some (take n (drop pos buf))) (omega arith))

-- A range that ends behind the buffer is refused.
pub get_range_outside : (buf : Bytes) (from to : ℕ) → length buf < to → get_range buf from to ≡ none
unfolding get_range
get_range_outside buf from to h = ground (arith, gt→leb to (length buf) h)

pub get_range-At :
    {buf : Bytes} {pos : ℕ} (chunk rest : Bytes) {w : ℕ}
    → At buf pos (chunk ++ rest)
    → length chunk ≡ w
    → get_range buf pos (pos + w) ≡ some chunk
get_range-At {buf} {pos} chunk rest {w} a e =
    get_range_inside buf pos w
      (omega (arith, length-At (chunk ++ rest) a, e, length-append chunk rest))
    ∙ rw (drop-At (chunk ++ rest) a, ← e) (ap some (take-append chunk rest))

-- What a successful read of a range tells.
pub get_range-some :
    (buf : Bytes) (from to : ℕ) (c : Bytes)
    → get_range buf from to ≡ some c
    → (from ≤ to) × (to ≤ length buf) × (length c ≡ to - from)
unfolding get_range
get_range-some buf from to c h =
    ground (arith, length-take (to - from) (drop from buf), length-drop from buf)

get_range_ranges :
    (buf more : Bytes) (from to : ℕ) {c : Bytes}
    → from ≤ to
    → to ≤ length buf
    → get_range buf from to ≡ some c
    → get_range (buf ++ more) from to ≡ some c
unfolding get_range
get_range_ranges buf more from to p q h = ground (
  arith,
  length-append buf more,
  drop-append_le from buf more,
  take-append_le (to - from) (drop from buf) more,
  length-drop from buf,
)

-- Bytes behind the range do not matter.
pub get_range-append :
    (buf more : Bytes) (from to : ℕ) {c : Bytes}
    → get_range buf from to ≡ some c
    → get_range (buf ++ more) from to ≡ some c
get_range-append buf more from to {c} h =
    let (ordered, fits, _) = get_range-some buf from to c h in
    get_range_ranges buf more from to ordered fits h

pub get_elem?-At :
    {buf : Bytes} {pos : ℕ} (b : ℕ) (rest : Bytes)
    → At buf pos (b ∷ rest)
    → get_elem? buf pos ≡ some b
get_elem?-At b rest a = rw (a.whole, a.here) (get_elem?-append_at a.before b rest)
