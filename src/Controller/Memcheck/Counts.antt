-- ===== src/Controller/Memcheck/Counts.antt =====
-- The counts of the FINDs that depend on how full the tiers are.
use ambix.Base.{ℕ, ◌<◌, ◌≡◌, true, false}
use ambix.Config.{dram_mode, nvram_mode, nvram_intensive_mode}
use ambix.Controller.Memcheck.{
  Floats, Usage, dram_target, nvram_target, dram_limit, nvram_limit, pages_of,
}
use ambix.Controller.Memcheck.Finds.{FloatLaws, MemcheckFind, Measured, share-pages, least-pages}

module _ (fl : Floats) (laws : FloatLaws fl) (page_size : ℕ) (paged : 0 < page_size) where
  abbrev IsMeasured : Usage fl.Float → Type 0
  IsMeasured u = Measured fl page_size u

  -- Below the target the DRAM has room up to the limit.
  pub room-pages :
      (u : Usage fl.Float)
      → IsMeasured u
      → fl.le (dram_target fl) u.dram_usage ≡ false
      → let bytes = fl.mul (fl.sub (dram_limit fl) u.dram_usage) (fl.of_int u.dram_sz) in
        MemcheckFind (pages_of fl page_size bytes) nvram_intensive_mode
  room-pages u m below =
      let (a, sz, size) = m.dram_bytes in
      let less = laws.not_le (dram_target fl) u.dram_usage laws.target-IsShare m.dram below in
      let less' =
        laws.lt_trans u.dram_usage (dram_target fl) (dram_limit fl) less laws.target-dram_limit in
      let share =
        laws.sub-IsShare u.dram_usage (dram_limit fl) m.dram laws.dram_limit-IsShare less' in
      let (c, e, le) =
        share-pages fl laws page_size paged (fl.sub (dram_limit fl) u.dram_usage) a share size in
      rw (sz, e) (MemcheckFind.fills c le)

  -- Above the limit DRAM pages are to go, as far as NVRAM has room below its target.
  pub demoted-pages :
      (u : Usage fl.Float)
      → IsMeasured u
      → fl.lt (dram_limit fl) u.dram_usage ≡ true
      → fl.lt u.nvram_usage (nvram_target fl) ≡ true
      → let bytes =
          fl.fmin
            (fl.mul (fl.sub u.dram_usage (dram_target fl)) (fl.of_int u.dram_sz))
            (fl.mul (fl.sub (nvram_target fl) u.nvram_usage) (fl.of_int u.nvram_sz)) in
        MemcheckFind (pages_of fl page_size bytes) dram_mode
  demoted-pages u m high low =
      let (a, dram_sz, la) = m.dram_bytes in
      let (b, nvram_sz, lb) = m.nvram_bytes in
      let over =
        laws.lt_trans (dram_target fl) (dram_limit fl) u.dram_usage laws.target-dram_limit high in
      let x = laws.sub-IsShare (dram_target fl) u.dram_usage laws.target-IsShare m.dram over in
      let y = laws.sub-IsShare u.nvram_usage (nvram_target fl) m.nvram laws.target-IsShare low in
      let (c, e, le) =
        least-pages fl laws page_size paged (fl.sub u.dram_usage (dram_target fl))
          (fl.sub (nvram_target fl) u.nvram_usage) a b x y la lb in
      rw (dram_sz, nvram_sz, e) (MemcheckFind.demotes c le)

  pub promoted-pages :
      (u : Usage fl.Float)
      → IsMeasured u
      → fl.lt (nvram_limit fl) u.nvram_usage ≡ true
      → fl.lt u.dram_usage (dram_target fl) ≡ true
      → let bytes =
          fl.fmin
            (fl.mul (fl.sub u.nvram_usage (nvram_target fl)) (fl.of_int u.nvram_sz))
            (fl.mul (fl.sub (dram_target fl) u.dram_usage) (fl.of_int u.dram_sz)) in
        MemcheckFind (pages_of fl page_size bytes) nvram_mode
  promoted-pages u m high low =
      let (a, dram_sz, la) = m.dram_bytes in
      let (b, nvram_sz, lb) = m.nvram_bytes in
      let over =
        laws.lt_trans (nvram_target fl) (nvram_limit fl) u.nvram_usage laws.target-nvram_limit
          high in
      let x = laws.sub-IsShare (nvram_target fl) u.nvram_usage laws.target-IsShare m.nvram over in
      let y = laws.sub-IsShare u.dram_usage (dram_target fl) m.dram laws.target-IsShare low in
      let (c, e, le) =
        least-pages fl laws page_size paged (fl.sub u.nvram_usage (nvram_target fl))
          (fl.sub (dram_target fl) u.dram_usage) b a x y lb la in
      rw (dram_sz, nvram_sz, e) (MemcheckFind.promotes c le)
