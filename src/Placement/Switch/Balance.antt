-- ===== src/Placement/Switch/Balance.antt =====
-- `switch_walk` as a whole, from a fresh request on.
use ambix.Base.{ℕ, ◌+◌, ◌*◌, ◌≤◌, ◌<◌, ◌≡◌, pos, arith, Bool-cases, inl, inr, min, ◌==◌, ◌&&◌}
use ambix.Config.{int_min, max_n_find, max_n_switch}
use ambix.Kernel.{Kernel}
use ambix.Placement.State.{State}
use ambix.Placement.Callbacks.{pte_callback_mem, pte_callback_nvram_switch}
use ambix.Placement.Callbacks.Bounds.{
  pte_callback_mem-KeepsSafe, pte_callback_nvram_switch-KeepsSafe,
}
use ambix.Placement.Walk.{walk_dram}
use ambix.Placement.Walk.Memory.{Ready, Fresh, Handled, walk_dram-Ready, walk_nvram-Ready}
use ambix.Placement.Switch.{start_switch, start_dram, separate, switch_rest, switch_walk}
use ambix.Placement.Switch.Bounds.{balanced, balance-Balanced}

module _ (k : Kernel) where
  pub start_switch-Ready :
      (n : ℕ) (s : State k.Space)
      → 0 < s.n_pids
      → Fresh k s
      → Ready k 0 n (start_switch k (pos n) s)
  start_switch-Ready n s p f = record {
    pids = f.pids;
    busy = p;
    bounded = ground (arith, f.empty, f.backup, f.sound);
  }

  pub separate-Ready :
      (n : ℕ) (s : State k.Space) → n ≤ max_n_switch → Ready k 0 n s → Ready k 0 n (separate k s)
  separate-Ready n s h r = record {
    pids = r.pids;
    busy = r.busy;
    bounded = ground (arith, r.bounded);
  }

  -- The count that the second walk looks for, the separator and the NVRAM pages included.
  abbrev pub dram_target : ℕ → State k.Space → ℕ
  dram_target n s = s.n_found + 1 + min (s.n_found + s.n_switch_backup) n

  pub start_dram-Ready :
      (n : ℕ) (s : State k.Space)
      → n ≤ max_n_switch
      → Ready k 0 n s
      → Ready k (s.n_found + 1) (dram_target n s) (start_dram k (pos n) s)
  unfolding start_dram int_min
  start_dram-Ready n s h r = record {
    pids = r.pids;
    busy = r.busy;
    bounded = ground (arith, r.bounded);
  }

  pub balanced-le : (nvram d nb nsb n : ℕ) → nvram ≤ n → d ≤ n → balanced k nvram d nb nsb ≤ n
  balanced-le nvram d nb nsb n h l = ground arith

  -- What a switch leaves: an odd number of entries, at most twice the number that was asked for and
  -- one more.
  pub record Switched (n : ℕ) (s : State k.Space) : Type 0 where
    pub handled : Handled k s
    pub pages : ℕ
    pub most : pages ≤ n
    pub exact : s.n_found ≡ 2 * pages + 1

  switch_rest-Switched :
      (n : ℕ) (s : State k.Space)
      → n ≤ max_n_switch
      → Ready k 0 n s
      → Switched n (switch_rest k (pos n) s).1
  unfolding switch_rest
  switch_rest-Switched n s h r = elim (Bool-cases (s.n_found == 0 && s.n_switch_backup == 0)) [
    | inl nothing ↦ rw nothing (record {
      handled = record {
        pids = r.pids;
        room = ground arith;
        backup = r.bounded.backup;
        switch_backup = r.bounded.switch_backup;
        sound = r.bounded.sound;
      };
      pages = 0;
      most = omega arith;
      exact = ground arith;
    })
    | inr something ↦
        let N = dram_target n s in
        let s' = start_dram k (pos n) s in
        let found : s.n_found ≤ n = r.bounded.found in
        let le : N ≤ max_n_find = omega arith in
        let w =
          walk_dram-Ready k (s.n_found + 1) N (pte_callback_mem k)
            (pte_callback_mem-KeepsSafe k (s.n_found + 1) N le) s' (start_dram-Ready n s h r) in
        let b =
          balance-Balanced k N s.n_found (walk_dram k (pte_callback_mem k) s') le (omega arith)
            (omega arith) w in
        rw something (record {
          handled = b.handled;
          pages = _;
          most = balanced-le s.n_found _ _ _ n found (omega (arith, w.bounded.found));
          exact = b.exact;
        })
  ]

  -- `switch_walk` on a count of at most MAX_N_SWITCH, with a bound process and from a fresh request,
  -- makes no write out of bounds. It leaves an odd number of entries, at most `2 * n + 1`.
  pub switch_walk-Switched :
      (n : ℕ) (s : State k.Space)
      → n ≤ max_n_switch
      → 0 < s.n_pids
      → Fresh k s
      → Switched n (switch_walk k (pos n) s).1
  unfolding switch_walk
  switch_walk-Switched n s h p f = switch_rest-Switched n _ h (
      separate-Ready n _ h (
        walk_nvram-Ready k 0 n (pte_callback_nvram_switch k)
          (pte_callback_nvram_switch-KeepsSafe k 0 n h) (start_switch k (pos n) s)
          (start_switch-Ready n s p f)))
