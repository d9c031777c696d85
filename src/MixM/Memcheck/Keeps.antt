-- ===== src/MixM/Memcheck/Keeps.antt =====
-- What the FINDs, the lock and the sleeping keep is kept by the loop of the variant, while the
-- thresholds are sane.
use ambix.Base.{ℕ, ◌<◌, ℤ}
use ambix.Controller.Memcheck.{Floats, Sys}
use ambix.Controller.Memcheck.Finds.{FloatLaws, MemcheckFind, Measured, Sized}
use ambix.MixM.Memcheck.{Thresholds, MmUsage}
use ambix.MixM.Memcheck.Finds.{IsSane, as_usage}

module _ (fl : Floats) (laws : FloatLaws fl) (page_size : ℕ) (paged : 0 < page_size) (sys : Sys fl)
    (send_find : sys.World → ℤ → ℤ → ℤ × sys.World) (thresholds : sys.World → Thresholds fl.Float)
    (P : sys.World → Type 0) (sized : (w : sys.World) → P w → Sized fl page_size sys w)
    (sane : (w : sys.World) → P w → IsSane fl (thresholds w))
    (sleeps : (n : ℤ) (w : sys.World) → P w → P (sys.usleep n w))
    (locks : (w : sys.World) → P w → P (sys.lock_placement w))
    (unlocks : (w : sys.World) → P w → P (sys.unlock_placement w))
    (finds : (w : sys.World) (n mode : ℤ)
      → MemcheckFind n mode
      → P w
      → P (send_find w n mode).1) where
  abbrev IsMeasured : MmUsage fl.Float → Type 0
  IsMeasured u = Measured fl page_size (as_usage u)
