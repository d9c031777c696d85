-- ===== src/Controller/Memcheck/Keeps.antt =====
-- What the FINDs, the lock and the sleeping keep is kept by `memcheck_placement`.
use ambix.Base.{
  ℕ, zero, suc, ◌<◌, ◌≡◌, true, false, not, ◌&&◌, ◌||◌, ℤ, pos, ltb_ℤ, ◌==◌, Bool-cases, inl, inr,
  arith, some,
}
use ambix.Config.{dram_mode, nvram_mode, nvram_intensive_mode, nvram_clear}
use ambix.Controller.Memcheck.{
  Floats, Sys, Usage, Locals, clear_interval, dram_target, nvram_target, dram_limit, nvram_limit,
  nvram_bw_thresh, measure, pages_of, check_memdata, read_memdata, get_memdata_mtime,
}
use ambix.Controller.Memcheck.Round.{
  switch_or_fill, clear_and_switch, check_bandwidth, switch_step, locked_find, thresh_step,
  measure_step, memcheck_round, memcheck_placement,
}
use ambix.Controller.Memcheck.Finds.{FloatLaws, MemcheckFind, Measured, Sized, measure-Measured}
use ambix.Controller.Memcheck.Counts.{room-pages, demoted-pages, promoted-pages}

module _ (fl : Floats) (laws : FloatLaws fl) (page_size : ℕ) (paged : 0 < page_size) (sys : Sys fl)
    (send_find : sys.World → ℤ → ℤ → ℤ × sys.World) (P : sys.World → Type 0)
    (sized : (w : sys.World) → P w → Sized fl page_size sys w)
    (sleeps : (n : ℤ) (w : sys.World) → P w → P (sys.usleep n w))
    (locks : (w : sys.World) → P w → P (sys.lock_placement w))
    (unlocks : (w : sys.World) → P w → P (sys.unlock_placement w))
    (finds : (w : sys.World) (n mode : ℤ)
      → MemcheckFind n mode
      → P w
      → P (send_find w n mode).1) where
  abbrev IsMeasured : Usage fl.Float → Type 0
  IsMeasured u = Measured fl page_size u

  switch_or_fill-keeps :
      (u : Usage fl.Float) (w : sys.World)
      → IsMeasured u
      → P w
      → let r = switch_or_fill fl sys send_find page_size u w in IsMeasured r.1 × P r.2
  unfolding switch_or_fill
  switch_or_fill-keeps u w m p = elim (Bool-cases (fl.le (dram_target fl) u.dram_usage)) [
    | inl high ↦ rw high (m, finds w _ _ MemcheckFind.switches p)
    | inr low ↦
        let bytes = fl.mul (fl.sub (dram_limit fl) u.dram_usage) (fl.of_int u.dram_sz) in
        let r = send_find w (pages_of fl page_size bytes) nvram_intensive_mode in
        let kept : P r.1 = finds w _ _ (room-pages fl laws page_size paged u m low) p in
        let again : IsMeasured (measure fl sys r.1) =
          measure-Measured fl laws page_size paged sys r.1 (sized r.1 kept) in
        elim (Bool-cases (ltb_ℤ (pos 0) r.0)) [
          | inl some_moved ↦ rw (low, some_moved) (again, kept)
          | inr none_moved ↦ rw (low, none_moved) (m, kept)
        ]
  ]

  clear_and_switch-keeps :
      (u : Usage fl.Float) (w : sys.World)
      → IsMeasured u
      → P w
      → let r = clear_and_switch fl sys send_find page_size u w in IsMeasured r.1 × P r.2
  unfolding clear_and_switch
  clear_and_switch-keeps u w m p =
      let cleared = send_find (sys.lock_placement w) (pos 0) nvram_clear in
      let kept = finds (sys.lock_placement w) _ _ MemcheckFind.clears (locks w p) in
      let r =
        switch_or_fill-keeps u (sys.usleep clear_interval cleared.1) m
          (sleeps clear_interval cleared.1 kept) in
      (r.0, unlocks _ r.1)

  check_bandwidth-keeps :
      (u : Usage fl.Float) (w : sys.World)
      → IsMeasured u
      → P w
      → let r = check_bandwidth fl sys send_find page_size u w in IsMeasured r.1 × P r.2
  unfolding check_bandwidth
  check_bandwidth-keeps u w m p =
      let r = clear_and_switch-keeps u w m p in
      elim (Bool-cases (not (check_memdata fl (some (read_memdata fl sys w))))) [
        | inl bad ↦ rw bad (m, p)
        | inr good ↦
            elim (Bool-cases (fl.lt (nvram_bw_thresh fl) (read_memdata fl sys w).sys_pmm_app_bw)) [
              | inl busy ↦ rw (good, busy) r
              | inr idle ↦ rw (good, idle) (m, p)
            ]
      ]

  switch_step-keeps :
      (l : Locals fl.Float) (w : sys.World)
      → IsMeasured l.usage
      → P w
      → let r = switch_step fl sys send_find page_size l w in IsMeasured r.1.usage × P r.2
  unfolding switch_step
  switch_step-keeps l w m p =
      let r = check_bandwidth-keeps l.usage w m p in
      let lmod = get_memdata_mtime fl sys w in
      elim (Bool-cases (not (sys.switch_act w))) [
        | inl off ↦ rw off (m, p)
        | inr on ↦ elim (Bool-cases (lmod == 0 || lmod == l.prev_memdata_lmod)) [
          | inl old ↦ rw (on, old) (m, p)
          | inr new ↦ rw (on, new) r
        ]
      ]

  locked_find-keeps :
      (w : sys.World) (n mode : ℤ)
      → MemcheckFind n mode
      → P w
      → P (locked_find fl sys send_find page_size w n mode).1
  locked_find-keeps w n mode find p = unlocks _ (finds _ n mode find (locks w p))

  thresh_step-keeps :
      (u : Usage fl.Float) (w : sys.World)
      → IsMeasured u
      → P w
      → P (thresh_step fl sys send_find page_size u w).1
  unfolding thresh_step
  thresh_step-keeps u w m p =
      let full = fl.lt (dram_limit fl) u.dram_usage && fl.lt u.nvram_usage (nvram_target fl) in
      let empty =
        not (sys.switch_act w)
        && fl.lt (nvram_limit fl) u.nvram_usage
        && fl.lt u.dram_usage (dram_target fl) in
      elim (Bool-cases (not (sys.thresh_act w))) [
        | inl off ↦ rw off p
        | inr on ↦ elim (Bool-cases full) [
          | inl demote ↦
              let find = demoted-pages fl laws page_size paged u m (ground arith) (ground arith) in
              rw (on, demote) (locked_find-keeps w _ dram_mode find p)
          | inr stay ↦ elim (Bool-cases empty) [
            | inl promote ↦
                let find =
                  promoted-pages fl laws page_size paged u m (ground arith) (ground arith) in
                rw (on, stay, promote) (locked_find-keeps w _ nvram_mode find p)
            | inr stay' ↦ rw (on, stay, stay') p
          ]
        ]
      ]

  -- With both flags clear a round asks for nothing.
  idle-keeps :
      (l : Locals fl.Float) (w : sys.World)
      → (sys.thresh_act w || sys.switch_act w) ≡ false
      → P w
      → P (memcheck_round fl sys send_find page_size l w).1
  unfolding memcheck_round measure_step switch_step thresh_step
  idle-keeps l w off p =
      let no_thresh : sys.thresh_act w ≡ false = ground arith in
      let no_switch : sys.switch_act w ≡ false = ground arith in
      rw (no_thresh, no_switch) (rw (no_thresh) (sleeps _ w p))

  active-keeps :
      (l : Locals fl.Float) (w : sys.World)
      → (sys.thresh_act w || sys.switch_act w) ≡ true
      → P w
      → P (memcheck_round fl sys send_find page_size l w).1
  unfolding memcheck_round measure_step
  active-keeps l w on p =
      let l' : Locals fl.Float = record l { usage = measure fl sys w } in
      let s =
        switch_step-keeps l' w (measure-Measured fl laws page_size paged sys w (sized w p)) p in
      let t = thresh_step-keeps (switch_step fl sys send_find page_size l' w).1.usage _ s.0 s.1 in
      rw on (sleeps _ _ t)

  memcheck_round-keeps :
      (l : Locals fl.Float) (w : sys.World)
      → P w
      → P (memcheck_round fl sys send_find page_size l w).1
  memcheck_round-keeps l w p = elim (Bool-cases (sys.thresh_act w || sys.switch_act w)) [
    | inl on ↦ active-keeps l w on p
    | inr off ↦ idle-keeps l w off p
  ]

  -- Where each node has a size whose pages an `int` counts: what sleeping, the lock and the FINDs of
  -- `MemcheckFind` keep is kept by any number of rounds of `memcheck_placement`. So the loop sends no
  -- other FIND: each count is 0 for a clearing walk, MAX_N_SWITCH for a switch, and from 0 to
  -- MAX_N_FIND for the other modes.
  pub memcheck_placement-keeps :
      (rounds : ℕ) (l : Locals fl.Float) (w : sys.World)
      → P w
      → P (memcheck_placement fl sys send_find page_size rounds l w).1
  unfolding memcheck_placement
  memcheck_placement-keeps zero l w p = p
  memcheck_placement-keeps (suc rounds) l w p =
      let r = memcheck_round fl sys send_find page_size l w in
      let rest = memcheck_placement-keeps rounds r.0 r.1 (memcheck_round-keeps l w p) in
      elim (Bool-cases (sys.exit_sig w)) [ inl ends ↦ rw ends p | inr goes_on ↦ rw goes_on rest ]
