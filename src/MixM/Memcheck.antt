-- ===== src/MixM/Memcheck.antt =====
-- src/ambix-MixM/ambix_MixM-ctl.c: `memcheck_placement` of the variant, and the command `set`, which
-- changes its thresholds. The rest of the loop is that of the hybrid controller: the free space, the
-- bandwidth file with its limits, the counts of pages and the sleeping.
pub mod Finds
pub mod Keeps
pub mod Negative
use Prim.Native.String.{String}
use text.Mathlib.Text.{◌==◌ as ◌eq◌}
use ambix.Base.{
  ℕ, zero, suc, Bool, true, false, not, ◌&&◌, ◌||◌, ℤ, pos, ltb_ℤ, ◌==◌, some, List, [], ◌∷◌,
  if◌then◌else◌,
}
use ambix.Config.{
  max_n_switch, dram_mode, nvram_mode, nvram_intensive_mode, nvram_clear, switch_mode,
}
use ambix.Controller.Commands.{int_of_long}
use ambix.Controller.Memcheck.{
  Floats, Memdata, Sys, clear_interval, check_memdata, read_memdata, get_memdata_mtime,
  free_space_tot_per, pages_of,
}
use ambix.Controller.Memcheck.Round.{locked_find, sleep_interval}

-- `mm_thresh`, `mm_target`, `cache_thresh` and `ratio`
pub record Thresholds (Float : Type 0) : Type 0 where
  pub mm_thresh : Float
  pub mm_target : Float
  pub cache_thresh : Float
  pub ratio : ℤ

pub record MmUsage (Float : Type 0) : Type 0 where
  pub mm_usage : Float
  pub adm_usage : Float
  pub mm_sz : ℤ
  pub adm_sz : ℤ

pub record MmLocals (Float : Type 0) : Type 0 where
  pub usage : MmUsage Float
  pub prev_memdata_lmod : ℕ

module _ (fl : Floats) where
  -- `CACHE_THRESH/MM_RATIO`
  abbrev pub mm_limit_value : fl.Float
  mm_limit_value = fl.div (fl.literal 125 100) (fl.of_int (pos 4))

  -- `MM_LIMIT - 0.01`
  abbrev pub mm_target_value : fl.Float
  mm_target_value = fl.sub mm_limit_value (fl.literal 1 100)

  abbrev pub adm_target : fl.Float
  adm_target = fl.literal 95 100

  abbrev pub adm_limit : fl.Float
  adm_limit = fl.literal 98 100

  abbrev pub adm_bw_thresh : fl.Float
  adm_bw_thresh = fl.of_int (pos 10)

  -- The values of the globals at the start.
  abbrev pub initial_thresholds : Thresholds fl.Float
  initial_thresholds = record {
    mm_thresh = fl.to_float mm_limit_value;
    mm_target = fl.to_float mm_target_value;
    cache_thresh = fl.to_float (fl.literal 125 100);
    ratio = pos 4;
  }

  -- `mm_thresh = cache_thresh/ratio; mm_target = mm_thresh - 0.01;`
  unfoldable pub set_thresholds : fl.Float → ℤ → Thresholds fl.Float
  set_thresholds cache_thresh ratio =
      let mm_thresh = fl.to_float (fl.div cache_thresh (fl.to_float (fl.of_int ratio))) in
      record {
        mm_thresh = mm_thresh;
        mm_target = fl.to_float (fl.sub mm_thresh (fl.literal 1 100));
        cache_thresh = cache_thresh;
        ratio = ratio;
      }

  -- `set`, given the words behind it.
  unfoldable pub set_command :
      (String → ℤ) → List String → Thresholds fl.Float → Thresholds fl.Float
  set_command strtol [] th = th
  set_command strtol (word ∷ []) th = th
  set_command strtol (word ∷ number ∷ words) th =
      let n = strtol number in
      if word eq "ratio"
      then set_thresholds th.cache_thresh (int_of_long n)
      else if word eq "cacheThresh"
      then set_thresholds
          (fl.to_float (fl.div (fl.to_float (fl.of_int n)) (fl.to_float (fl.of_int (pos 100)))))
          th.ratio
      else th

-- `thresholds` are those that the loop reads; `process_stdin` sets them.
module _ (fl : Floats) (sys : Sys fl) (send_find : sys.World → ℤ → ℤ → ℤ × sys.World)
    (thresholds : sys.World → Thresholds fl.Float) (page_size : ℕ) where
  unfoldable pub measure_mm : sys.World → MmUsage fl.Float
  measure_mm w =
      let mm = free_space_tot_per fl sys w dram_mode in
      let adm = free_space_tot_per fl sys w nvram_mode in
      record { mm_usage = mm.0; adm_usage = adm.0; mm_sz = mm.1; adm_sz = adm.1 }

  -- `if (mm_usage < mm_thresh) { … }`, with the thresholds read once: a command `set` between the test
  -- and the use of them is left out.
  unfoldable pub switch_or_fill : MmUsage fl.Float → sys.World → ℤ × MmUsage fl.Float × sys.World
  switch_or_fill u w =
      let th = thresholds w in
      if not (fl.lt u.mm_usage th.mm_thresh)
      then (pos 0, u, w)
      else if fl.le th.mm_target u.mm_usage
      then (let r = locked_find fl sys send_find page_size w (pos max_n_switch) switch_mode in
          (r.0, u, r.1))
      else (let bytes = fl.mul (fl.sub th.mm_thresh u.mm_usage) (fl.of_int u.mm_sz) in
          let n_pages = pages_of fl page_size bytes in
          let r = locked_find fl sys send_find page_size w n_pages nvram_intensive_mode in
          if ltb_ℤ (pos 0) r.0 then (r.0, measure_mm r.1, r.1) else (r.0, u, r.1))

  -- The lock is released between the clearing walk and what follows it.
  unfoldable pub clear_and_switch : MmUsage fl.Float → sys.World → ℤ × MmUsage fl.Float × sys.World
  clear_and_switch u w =
      let cleared = send_find (sys.lock_placement w) (pos 0) nvram_clear in
      switch_or_fill u (sys.unlock_placement (sys.usleep clear_interval cleared.1))

  unfoldable pub check_bandwidth : MmUsage fl.Float → sys.World → ℤ × MmUsage fl.Float × sys.World
  check_bandwidth u w =
      let md = read_memdata fl sys w in
      let pmm_bw = md.sys_pmm_app_bw in
      if not (check_memdata fl (some md))
      then (pos 0, u, w)
      else if fl.lt (adm_bw_thresh fl) pmm_bw
      then clear_and_switch u w
      else (pos 0, u, w)

  unfoldable pub switch_step : MmLocals fl.Float → sys.World → ℤ × MmLocals fl.Float × sys.World
  switch_step l w =
      let memdata_lmod = get_memdata_mtime fl sys w in
      let r = check_bandwidth l.usage w in
      if not (sys.switch_act w)
      then (pos 0, l, w)
      else if memdata_lmod == 0 || memdata_lmod == l.prev_memdata_lmod
      then (pos 0, l, w)
      else (r.0, record { usage = r.1; prev_memdata_lmod = memdata_lmod }, r.2)

  unfoldable pub thresh_step : MmUsage fl.Float → sys.World → ℤ × sys.World
  thresh_step u w =
      let th = thresholds w in
      if not (sys.thresh_act w)
      then (pos 0, w)
      else if fl.lt th.mm_thresh u.mm_usage && fl.lt u.adm_usage (adm_target fl)
      then (let n_bytes =
            fl.fmin (fl.mul (fl.sub u.mm_usage th.mm_thresh) (fl.of_int u.mm_sz))
              (fl.mul (fl.sub (adm_target fl) u.adm_usage) (fl.of_int u.adm_sz)) in
          locked_find fl sys send_find page_size w (pages_of fl page_size n_bytes) dram_mode)
      else if not (sys.switch_act w)
          && fl.lt (adm_limit fl) u.adm_usage
          && fl.lt u.mm_usage (mm_target_value fl)
      then (let n_bytes =
            fl.fmin (fl.mul (fl.sub u.adm_usage (adm_target fl)) (fl.of_int u.adm_sz))
              (fl.mul (fl.sub th.mm_target u.mm_usage) (fl.of_int u.mm_sz)) in
          locked_find fl sys send_find page_size w (pages_of fl page_size n_bytes) nvram_mode)
      else (pos 0, w)

  unfoldable pub measure_step : MmLocals fl.Float → sys.World → MmLocals fl.Float
  measure_step l w =
      if sys.thresh_act w || sys.switch_act w then record l { usage = measure_mm w } else l

  unfoldable pub memcheck_round : MmLocals fl.Float → sys.World → MmLocals fl.Float × sys.World
  memcheck_round l w =
      let s = switch_step (measure_step l w) w in
      let t = thresh_step s.1.usage s.2 in
      (s.1, sys.usleep (sleep_interval fl sys send_find page_size s.0 t.0) t.1)

  unfoldable pub memcheck_placement :
      ℕ → MmLocals fl.Float → sys.World → MmLocals fl.Float × sys.World
  memcheck_placement zero l w = (l, w)
  memcheck_placement (suc rounds) l w =
      let r = memcheck_round l w in
      let rest = memcheck_placement rounds r.0 r.1 in if sys.exit_sig w then (l, w) else rest
