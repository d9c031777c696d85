-- ===== src/Controller/Memcheck/Round.antt =====
-- src/ambix_hyb-ctl.c: the body of the loop of `memcheck_placement`, and the loop.
use ambix.Base.{ℕ, zero, suc, not, ◌&&◌, ◌||◌, ℤ, pos, ◌+ℤ◌, ◌-ℤ◌, ltb_ℤ, ◌==◌, some, if◌then◌else◌}
use ambix.Config.{
  max_n_switch, dram_mode, nvram_mode, nvram_intensive_mode, nvram_clear, switch_mode,
}
use ambix.Controller.Memcheck.{
  Floats, Sys, Usage, Locals, memcheck_interval, clear_interval, dram_target, nvram_target,
  dram_limit, nvram_limit, nvram_bw_thresh, check_memdata, read_memdata, get_memdata_mtime, measure,
  pages_of,
}

-- `send_find` is that of the controller: the pages moved, and the system then.
module _ (fl : Floats) (sys : Sys fl) (send_find : sys.World → ℤ → ℤ → ℤ × sys.World)
    (page_size : ℕ) where
  -- `if (dram_usage >= DRAM_TARGET) … else …` when the accessed bits have been cleared: a switch, or
  -- intensive pages of NVRAM. The result is `switch_migrated`, what is measured, and the system.
  unfoldable pub switch_or_fill : Usage fl.Float → sys.World → ℤ × Usage fl.Float × sys.World
  switch_or_fill u w =
      if fl.le (dram_target fl) u.dram_usage
      then (let r = send_find w (pos max_n_switch) switch_mode in (r.0, u, r.1))
      else (let bytes = fl.mul (fl.sub (dram_limit fl) u.dram_usage) (fl.of_int u.dram_sz) in
          let r = send_find w (pages_of fl page_size bytes) nvram_intensive_mode in
          if ltb_ℤ (pos 0) r.0 then (r.0, measure fl sys r.1, r.1) else (r.0, u, r.1))

  -- What a high bandwidth leads to, with the lock held.
  unfoldable pub clear_and_switch : Usage fl.Float → sys.World → ℤ × Usage fl.Float × sys.World
  clear_and_switch u w =
      let cleared = send_find (sys.lock_placement w) (pos 0) nvram_clear in
      let r = switch_or_fill u (sys.usleep clear_interval cleared.1) in
      (r.0, r.1, sys.unlock_placement r.2)

  -- With new values of the bandwidth. `PMM_MIXED` is 1.
  unfoldable pub check_bandwidth : Usage fl.Float → sys.World → ℤ × Usage fl.Float × sys.World
  check_bandwidth u w =
      let md = read_memdata fl sys w in
      let pmm_bw = md.sys_pmm_app_bw in
      if not (check_memdata fl (some md))
      then (pos 0, u, w)
      else if fl.lt (nvram_bw_thresh fl) pmm_bw
      then clear_and_switch u w
      else (pos 0, u, w)

  -- `if (switch_act) { … }`
  unfoldable pub switch_step : Locals fl.Float → sys.World → ℤ × Locals fl.Float × sys.World
  switch_step l w =
      let memdata_lmod = get_memdata_mtime fl sys w in
      let r = check_bandwidth l.usage w in
      if not (sys.switch_act w)
      then (pos 0, l, w)
      else if memdata_lmod == 0 || memdata_lmod == l.prev_memdata_lmod
      then (pos 0, l, w)
      else (r.0, record { usage = r.1; prev_memdata_lmod = memdata_lmod }, r.2)

  -- A FIND with the lock held.
  abbrev pub locked_find : sys.World → ℤ → ℤ → ℤ × sys.World
  locked_find w n_pages mode =
      let r = send_find (sys.lock_placement w) n_pages mode in (r.0, sys.unlock_placement r.1)

  -- `if (thresh_act) { … }`
  unfoldable pub thresh_step : Usage fl.Float → sys.World → ℤ × sys.World
  thresh_step u w =
      if not (sys.thresh_act w)
      then (pos 0, w)
      else if fl.lt (dram_limit fl) u.dram_usage && fl.lt u.nvram_usage (nvram_target fl)
      then (let n_bytes =
            fl.fmin (fl.mul (fl.sub u.dram_usage (dram_target fl)) (fl.of_int u.dram_sz))
              (fl.mul (fl.sub (nvram_target fl) u.nvram_usage) (fl.of_int u.nvram_sz)) in
          locked_find w (pages_of fl page_size n_bytes) dram_mode)
      else if not (sys.switch_act w)
          && fl.lt (nvram_limit fl) u.nvram_usage
          && fl.lt u.dram_usage (dram_target fl)
      then (let n_bytes =
            fl.fmin (fl.mul (fl.sub u.nvram_usage (nvram_target fl)) (fl.of_int u.nvram_sz))
              (fl.mul (fl.sub (dram_target fl) u.dram_usage) (fl.of_int u.dram_sz)) in
          locked_find w (pages_of fl page_size n_bytes) nvram_mode)
      else (pos 0, w)

  -- What the round sleeps for.
  unfoldable pub sleep_interval : ℤ → ℤ → ℤ
  sleep_interval switch_migrated thresh_migrated =
      if ltb_ℤ (pos 0) (switch_migrated +ℤ thresh_migrated)
      then (if ltb_ℤ (pos 0) switch_migrated
          then memcheck_interval +ℤ memcheck_interval -ℤ clear_interval
          else memcheck_interval +ℤ memcheck_interval)
      else memcheck_interval

  -- The measuring at the start of a round.
  unfoldable pub measure_step : Locals fl.Float → sys.World → Locals fl.Float
  measure_step l w =
      if sys.thresh_act w || sys.switch_act w then record l { usage = measure fl sys w } else l

  unfoldable pub memcheck_round : Locals fl.Float → sys.World → Locals fl.Float × sys.World
  memcheck_round l w =
      let s = switch_step (measure_step l w) w in
      let t = thresh_step s.1.usage s.2 in (s.1, sys.usleep (sleep_interval s.0 t.0) t.1)

  -- The loop for so many rounds, or until `exit_sig` is set.
  unfoldable pub memcheck_placement : ℕ → Locals fl.Float → sys.World → Locals fl.Float × sys.World
  memcheck_placement zero l w = (l, w)
  memcheck_placement (suc rounds) l w =
      let r = memcheck_round l w in
      let rest = memcheck_placement rounds r.0 r.1 in if sys.exit_sig w then (l, w) else rest
