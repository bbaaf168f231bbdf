-- ===== src/Examples/History.antt =====
-- A disk that changes once.
use spiffile.Prelude.{ℕ, zero, suc, ◌≤◌, ◌≡◌, ◌≢◌, refl, arith}
use spiffile.Disk.{FilePath, Stat, Disk, stat, read_bytes}
use spiffile.Errors.{ok}
use spiffile.BundleSource.Fresh.{Detects}

abbrev pub once : Disk → Disk → ℕ → Disk
once old new zero = old
once old new (suc n) = new

-- A change that shows in the stat of the file is detected.
pub once-Detects :
    (old new : Disk) (p : FilePath) (s t : Stat)
    → stat old p ≡ ok s
    → stat new p ≡ ok t
    → s ≢ t
    → Detects (once old new) p
once-Detects old new p s t is_old is_new differ = record { unchanged = unchanged }
  where
    unchanged :
        (i j k : ℕ) (x : Stat)
        → i ≤ j
        → j ≤ k
        → stat (once old new i) p ≡ ok x
        → stat (once old new k) p ≡ ok x
        → read_bytes (once old new j) p ≡ read_bytes (once old new k) p
    unchanged zero zero zero x le le' e e' = refl
    unchanged zero j (suc k) x le le' e e' = absurd (differ (ground arith))
    unchanged zero (suc j) zero x le le' e e' = absurd (omega arith)
    unchanged (suc i) zero k x le le' e e' = absurd (omega arith)
    unchanged (suc i) (suc j) zero x le le' e e' = absurd (omega arith)
    unchanged (suc i) (suc j) (suc k) x le le' e e' = refl
