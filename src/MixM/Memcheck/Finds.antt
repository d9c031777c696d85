-- ===== src/MixM/Memcheck/Finds.antt =====
-- The FINDs that the loop of the variant sends: their counts are in bounds while the thresholds are
-- not set below those that it starts with.
use ambix.Base.{ℕ, ◌<◌, ◌≡◌, true}
use ambix.Config.{dram_mode, nvram_mode, nvram_intensive_mode}
use ambix.Controller.Memcheck.{Floats, Usage, pages_of}
use ambix.Controller.Memcheck.Finds.{
  IsShare, FloatLaws, MemcheckFind, Measured, share-pages, least-pages,
}
use ambix.MixM.Memcheck.{Thresholds, MmUsage, mm_target_value, adm_target, adm_limit}

-- The threshold is a share, and the target is not below the constant that `mm_usage` is compared with.
pub record IsSane (fl : Floats) (th : Thresholds fl.Float) : Type 0 where
  pub thresh : IsShare fl th.mm_thresh
  pub target :
      (x : fl.Float)
      → IsShare fl x
      → fl.lt x (mm_target_value fl) ≡ true
      → IsShare fl (fl.sub th.mm_target x)

abbrev pub as_usage : {Float : Type 0} → MmUsage Float → Usage Float
as_usage u = record {
  dram_usage = u.mm_usage;
  nvram_usage = u.adm_usage;
  dram_sz = u.mm_sz;
  nvram_sz = u.adm_sz;
}

module _ (fl : Floats) (laws : FloatLaws fl) (page_size : ℕ) (paged : 0 < page_size) where
  abbrev IsMeasured : MmUsage fl.Float → Type 0
  IsMeasured u = Measured fl page_size (as_usage u)

  pub filled-pages :
      (u : MmUsage fl.Float) (th : Thresholds fl.Float)
      → IsMeasured u
      → IsSane fl th
      → fl.lt u.mm_usage th.mm_thresh ≡ true
      → let bytes = fl.mul (fl.sub th.mm_thresh u.mm_usage) (fl.of_int u.mm_sz) in
        MemcheckFind (pages_of fl page_size bytes) nvram_intensive_mode
  filled-pages u th m s less =
      let (a, sz, size) = m.dram_bytes in
      let share = laws.sub-IsShare u.mm_usage th.mm_thresh m.dram s.thresh less in
      let (c, e, le) =
        share-pages fl laws page_size paged (fl.sub th.mm_thresh u.mm_usage) a share size in
      rw (sz, e) (MemcheckFind.fills c le)

  pub demoted-pages :
      (u : MmUsage fl.Float) (th : Thresholds fl.Float)
      → IsMeasured u
      → IsSane fl th
      → fl.lt th.mm_thresh u.mm_usage ≡ true
      → fl.lt u.adm_usage (adm_target fl) ≡ true
      → let bytes =
          fl.fmin
            (fl.mul (fl.sub u.mm_usage th.mm_thresh) (fl.of_int u.mm_sz))
            (fl.mul (fl.sub (adm_target fl) u.adm_usage) (fl.of_int u.adm_sz)) in
        MemcheckFind (pages_of fl page_size bytes) dram_mode
  demoted-pages u th m s high low =
      let (a, mm_sz, la) = m.dram_bytes in
      let (b, adm_sz, lb) = m.nvram_bytes in
      let x = laws.sub-IsShare th.mm_thresh u.mm_usage s.thresh m.dram high in
      let y = laws.sub-IsShare u.adm_usage (adm_target fl) m.nvram laws.target-IsShare low in
      let (c, e, le) =
        least-pages fl laws page_size paged (fl.sub u.mm_usage th.mm_thresh)
          (fl.sub (adm_target fl) u.adm_usage) a b x y la lb in
      rw (mm_sz, adm_sz, e) (MemcheckFind.demotes c le)

  pub promoted-pages :
      (u : MmUsage fl.Float) (th : Thresholds fl.Float)
      → IsMeasured u
      → IsSane fl th
      → fl.lt (adm_limit fl) u.adm_usage ≡ true
      → fl.lt u.mm_usage (mm_target_value fl) ≡ true
      → let bytes =
          fl.fmin
            (fl.mul (fl.sub u.adm_usage (adm_target fl)) (fl.of_int u.adm_sz))
            (fl.mul (fl.sub th.mm_target u.mm_usage) (fl.of_int u.mm_sz)) in
        MemcheckFind (pages_of fl page_size bytes) nvram_mode
  promoted-pages u th m s high low =
      let (a, mm_sz, la) = m.dram_bytes in
      let (b, adm_sz, lb) = m.nvram_bytes in
      let over =
        laws.lt_trans (adm_target fl) (adm_limit fl) u.adm_usage laws.target-nvram_limit high in
      let x = laws.sub-IsShare (adm_target fl) u.adm_usage laws.target-IsShare m.nvram over in
      let y = s.target u.mm_usage m.dram low in
      let (c, e, le) =
        least-pages fl laws page_size paged (fl.sub u.adm_usage (adm_target fl))
          (fl.sub th.mm_target u.mm_usage) b a x y lb la in
      rw (mm_sz, adm_sz, e) (MemcheckFind.promotes c le)
