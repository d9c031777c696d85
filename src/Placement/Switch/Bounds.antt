-- ===== src/Placement/Switch/Bounds.antt =====
-- `switch_walk` stays in bounds, and what it leaves is balanced: as many NVRAM pages as DRAM pages
-- round a separator.
use ambix.Base.{
  ℕ, zero, suc, ◌+◌, ◌-◌, ◌*◌, ◌≤◌, ◌<◌, ◌≡◌, refl, ◌∙◌, false, ℤ, pos, pos_part, if◌then◌else◌,
  arith, Bool-cases, inl, inr, min, ltb, ◌==◌, ◌&&◌,
}
use ambix.Config.{AddrInfo, int_min, max_n_find, max_n_switch}
use ambix.Kernel.{Kernel}
use ambix.Placement.State.{State, Search, put_found, put_found_retval}
use ambix.Placement.Callbacks.Bounds.{Bounded}
use ambix.Placement.Walk.TopUp.{n_found-add_backups}
use ambix.Placement.Walk.Memory.{Ready, Handled, Ready-Handled, add_backups-Ready}
use ambix.Placement.Switch.{
  copy_up, copy_down, fill_nvram, drop_nvram, add_nvram, add_dram, balance,
}

-- What the copying of entries leaves alone: all but the entries themselves.
record Copied (s t : Search) : Type 0 where
  found : t.n_found ≡ s.n_found
  backup : t.n_backup ≡ s.n_backup
  switch_backup : t.n_switch_backup ≡ s.n_switch_backup
  target : t.n_to_find ≡ s.n_to_find
  fault : t.fault ≡ s.fault

put_found-Copied : (s : Search) (i : ℕ) (e : AddrInfo) → i ≤ max_n_find → Copied s (put_found s i e)
put_found-Copied s i e h = ground arith

put_found_retval-Copied :
    (s : Search) (i : ℕ) (v : ℤ) → i ≤ max_n_find → Copied s (put_found_retval s i v)
put_found_retval-Copied s i v h = ground arith

Copied-trans : (s t u : Search) → Copied s t → Copied t u → Copied s u
Copied-trans s t u a b = ground arith

copy_up-Copied :
    (rounds i old new : ℕ) (s : Search)
    → new + i + rounds ≤ max_n_find + 1
    → Copied s (copy_up rounds i old new s)
unfolding copy_up
copy_up-Copied zero i old new s h = ground arith
copy_up-Copied (suc rounds) i old new s h =
    Copied-trans s _ _ (put_found-Copied s (new + i) (s.found_addrs (old + i)) (omega arith))
      (copy_up-Copied rounds (i + 1) old new _ (omega arith))

copy_down-Copied :
    (rounds old new : ℕ) (s : Search)
    → new + rounds ≤ max_n_find + 1
    → Copied s (copy_down rounds old new s)
unfolding copy_down
copy_down-Copied zero old new s h = ground arith
copy_down-Copied (suc rounds) old new s h =
    Copied-trans s _ _
      (put_found-Copied s (new + rounds) (s.found_addrs (old + rounds)) (omega arith))
      (copy_down-Copied rounds old new _ (omega arith))

fill_nvram-Copied :
    (rounds i at : ℕ) (s : Search)
    → at + rounds ≤ max_n_find + 1
    → Copied s (fill_nvram rounds i at s)
unfolding fill_nvram
fill_nvram-Copied zero i at s h = ground arith
fill_nvram-Copied (suc rounds) i at s h =
    Copied-trans s _ _ (put_found-Copied s at (s.switch_backup_addrs i) (omega arith))
      (fill_nvram-Copied rounds (i + 1) (at + 1) _ (omega arith))

-- Too few DRAM pages in the backup: `d + n_backup` pages of each tier are left.
drop_nvram-Bounded :
    (b n nvram d : ℕ) (s : Search)
    → n ≤ max_n_find
    → nvram + nvram + 1 ≤ n
    → d + s.n_backup < nvram
    → Bounded b n s
    → Bounded 0 n (drop_nvram nvram d s)
      × ((drop_nvram nvram d s).n_found ≡ d + s.n_backup + 1 + d)
      × ((drop_nvram nvram d s).n_backup ≡ s.n_backup)
unfolding drop_nvram
drop_nvram-Bounded b n nvram d s h room few v =
    let kept = d + s.n_backup in
    let marked = put_found_retval s kept (pos 0) in
    let c : Copied s (copy_up d 0 (nvram + 1) (kept + 1) marked) =
      Copied-trans s marked _ (put_found_retval-Copied s kept (pos 0) (omega arith))
        (copy_up-Copied d 0 (nvram + 1) (kept + 1) marked (omega arith)) in
    (ground arith, refl, c.backup)

-- Too few NVRAM pages: the gap is filled from the switch backup.
add_nvram-Bounded :
    (nvram d : ℕ) (s : Search)
    → d ≤ max_n_switch
    → nvram < d
    → s.fault ≡ false
    → ((add_nvram nvram d s).fault ≡ false)
      × ((add_nvram nvram d s).n_found ≡ 2 * min d (nvram + s.n_switch_backup) + 1)
      × ((add_nvram nvram d s).n_backup ≡ s.n_backup)
      × ((add_nvram nvram d s).n_switch_backup ≡ s.n_switch_backup)
unfolding add_nvram int_min
add_nvram-Bounded nvram d s h less sound =
    let to_add = pos_part (int_min (pos s.n_switch_backup) (pos (d - nvram))) in
    let exact : nvram + to_add ≡ min d (nvram + s.n_switch_backup) = ground arith in
    let moved = copy_down (nvram + to_add) (nvram + 1) (nvram + 1 + to_add) s in
    let filled = fill_nvram to_add 0 nvram moved in
    let c : Copied s (put_found_retval filled (nvram + to_add) (pos 0)) =
      Copied-trans s filled _
        (Copied-trans s moved filled
          (copy_down-Copied (nvram + to_add) (nvram + 1) (nvram + 1 + to_add) s (omega arith))
          (fill_nvram-Copied to_add 0 nvram moved (omega arith)))
        (put_found_retval-Copied filled (nvram + to_add) (pos 0) (omega arith)) in
    (c.fault ∙ sound, omega arith, c.backup, c.switch_backup)

module _ (k : Kernel) where
  -- How many pages of each tier are left: the smaller count, raised as far as the backup of the
  -- tier that is short allows; none where that tier has no backup.
  abbrev pub balanced : ℕ → ℕ → ℕ → ℕ → ℕ
  balanced nvram d n_backup n_switch_backup =
      if d == nvram
      then nvram
      else if ltb d nvram && ltb 0 n_backup
      then min nvram (d + n_backup)
      else if ltb nvram d && ltb 0 n_switch_backup
      then min d (nvram + n_switch_backup)
      else 0

  Ready-weaken : (b n : ℕ) (s : State k.Space) → Ready k b n s → Ready k 0 n s
  Ready-weaken b n s r = record {
    pids = r.pids;
    busy = r.busy;
    bounded = ground (arith, r.bounded);
  }

  add_dram-Ready :
      (b n nvram d : ℕ) (s : State k.Space)
      → n ≤ max_n_find
      → nvram + nvram + 1 ≤ n
      → d < nvram
      → s.n_found ≡ nvram + 1 + d
      → Ready k b n s
      → Ready k 0 n (add_dram k nvram d s)
        × ((add_dram k nvram d s).n_found ≡ 2 * min nvram (d + s.n_backup) + 1)
  unfolding add_dram
  add_dram-Ready b n nvram d s h room less count r =
      elim (Bool-cases (ltb s.n_backup (nvram - d))) [
        | inl few ↦
            let v = drop_nvram-Bounded b n nvram d s.search h room (ground arith) r.bounded in
            let s' : State k.Space = record s { search = drop_nvram nvram d s.search } in
            let lt : s.n_backup < nvram - d = ground arith in
            rw few (
              add_backups-Ready k 0 n s.n_backup 0 s' h (omega (arith, v.1))
                  (record { pids = r.pids; busy = r.busy; bounded = v.0 }),
              omega (arith, n_found-add_backups k s.n_backup 0 s', v.1),
            )
        | inr enough ↦
            let le : nvram - d ≤ s.n_backup = ground arith in
            rw enough (
              add_backups-Ready k 0 n (nvram - d) 0 s h (omega arith) (Ready-weaken b n s r),
              omega (arith, n_found-add_backups k (nvram - d) 0 s),
            )
      ]

  pub record Balanced (count : ℕ) (s : State k.Space) : Type 0 where
    pub handled : Handled k s
    pub exact : s.n_found ≡ 2 * count + 1

  Ready-Balanced :
      (n count : ℕ) (s : State k.Space)
      → n ≤ max_n_find
      → Ready k 0 n s
      → s.n_found ≡ 2 * count + 1
      → Balanced count s
  Ready-Balanced n count s h r e = record { handled = Ready-Handled k 0 n s h r; exact = e }

  pub balance-Balanced :
      (n nvram : ℕ) (s : State k.Space)
      → n ≤ max_n_find
      → nvram + nvram + 1 ≤ n
      → n ≤ nvram + 1 + max_n_switch
      → Ready k (nvram + 1) n s
      → Balanced
          (balanced nvram (s.n_found - nvram - 1) s.n_backup s.n_switch_backup)
          (balance k nvram s)
  unfolding balance
  balance-Balanced n nvram s h room most r =
      let d = s.n_found - nvram - 1 in
      let grown : nvram + 1 ≤ s.n_found = r.bounded.grown in
      let found : s.n_found ≤ n = r.bounded.found in
      let count : s.n_found ≡ nvram + 1 + d = omega arith in
      elim (Bool-cases (d == nvram)) [
        | inl same ↦
            let e : d ≡ nvram = ground arith in
            rw same (Ready-Balanced n nvram s h (Ready-weaken (nvram + 1) n s r) (omega arith))
        | inr differ ↦ elim (Bool-cases (ltb d nvram && ltb 0 s.n_backup)) [
          | inl few ↦
              let a = add_dram-Ready (nvram + 1) n nvram d s h room (ground arith) count r in
              rw (differ, few) (Ready-Balanced n (min nvram (d + s.n_backup)) _ h a.0 a.1)
          | inr not_few ↦ elim (Bool-cases (ltb nvram d && ltb 0 s.n_switch_backup)) [
            | inl many ↦
                let a =
                  add_nvram-Bounded nvram d s.search (omega arith) (ground arith) r.bounded.sound in
                rw (differ, not_few, many)
                  (record {
                    handled = record {
                      pids = r.pids;
                      room = omega (arith, a.1);
                      backup = omega (arith, a.2, r.bounded.backup);
                      switch_backup = omega (arith, a.3, r.bounded.switch_backup);
                      sound = a.0;
                    };
                    exact = a.1;
                  })
            | inr not_many ↦
                rw (differ, not_few, not_many)
                  (record {
                    handled = record {
                      pids = r.pids;
                      room = omega arith;
                      backup = r.bounded.backup;
                      switch_backup = r.bounded.switch_backup;
                      sound = ground (arith, r.bounded.sound);
                    };
                    exact = refl;
                  })
          ]
        ]
      ]
