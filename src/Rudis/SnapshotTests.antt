-- ===== src/Rudis/SnapshotTests.antt =====
-- The theorem on snapshots at a concrete store.
use rust_fundamentals.Base.{ℕ, ◌≤◌, ◌≡◌, refl, none, [], ◌∷◌, All, arith}
use rust_fundamentals.Base.Bytes.{Bytes}
use rust_fundamentals.Base.Map
use rust_fundamentals.Rudis.Store
use rust_fundamentals.Rudis.Store.{is_expired, snapshot_iter, snapshot_items}
use rust_fundamentals.Rudis.Store.View.{look}
use rust_fundamentals.Rudis.Persistence.{save_bytes, loaded, load}
use rust_fundamentals.Rudis.Persistence.Reload.{ItemFits}
use rust_fundamentals.Rudis.Persistence.Restored.{load-save}
use rust_fundamentals.Rudis.Tests.{store, store-IsValid}

store_items :
    snapshot_iter 100 store ≡ (0x61 ∷ [], 0x34 ∷ 0x31 ∷ [], 5000) ∷ (0x62 ∷ [], 0x78 ∷ [], 0) ∷ []
unfolding snapshot_iter snapshot_items Map.retain is_expired
store_items = refl

store-ItemFits : All ItemFits (snapshot_iter 100 store)
store-ItemFits = rw store_items (
  record { key_fits = omega arith; value_fits = omega arith; deadline_fits = omega arith },
  (record { key_fits = omega arith; value_fits = omega arith; deadline_fits = omega arith }, tt),
)

load-save_example :
    ((load 200 (save_bytes 100 store) (Store.new none)).0 ≡ loaded)
    × ((t : ℕ) (j : Bytes)
        → 200 ≤ t
        → look t j (load 200 (save_bytes 100 store) (Store.new none)).1 ≡ look t j store)
load-save_example = load-save 100 200 store none store-IsValid (omega arith) store-ItemFits
