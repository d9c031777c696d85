-- ===== src/Placement/Switch/Answer.antt =====
-- What `switch_walk` leaves for the controller: pages that are named round one separator.
use ambix.Base.{
  ℕ, ◌+◌, ◌-◌, ◌*◌, ◌≤◌, ◌<◌, ◌≡◌, refl, sym, ap, ◌∙◌, pos, arith, Bool-cases, inl, inr, ltb, ◌==◌,
  ◌&&◌,
}
use ambix.Config.{AddrInfo, max_n_find, max_n_switch}
use ambix.Kernel.{Kernel}
use ambix.Placement.State.{State, Search}
use ambix.Placement.Callbacks.{pte_callback_mem, pte_callback_nvram_switch}
use ambix.Placement.Callbacks.Bounds.{
  pte_callback_mem-KeepsSafe, pte_callback_nvram_switch-KeepsSafe,
}
use ambix.Placement.Walk.{walk_dram, walk_nvram}
use ambix.Placement.Walk.Memory.{Ready, Fresh, Handled, walk_dram-Ready, walk_nvram-Ready}
use ambix.Placement.Walk.Named.{
  IsPositive, IsNamed, tasks-IsPositive, AllNamed, mem-KeepsNamed, nvram_switch-KeepsNamed,
}
use ambix.Placement.Walk.Answer.{walk_dram-AllNamed, walk_nvram-AllNamed}
use ambix.Placement.Switch.{start_switch, start_dram, separate, switch_rest, switch_walk, balance}
use ambix.Placement.Switch.Bounds.{balanced}
use ambix.Placement.Switch.Balance.{
  switch_walk-Switched, start_switch-Ready, separate-Ready, start_dram-Ready, dram_target,
  balanced-le,
}
use ambix.Placement.Switch.Layout.{Layout, balance-Layout}

-- So many named pages of each tier, with the separator between them.
pub record NamedPairs (count : ℕ) (s : Search) : Type 0 where
  pub total : s.n_found ≡ 2 * count + 1
  pub before : (i : ℕ) → i < count → IsNamed (s.found_addrs i)
  pub separator : (s.found_addrs count).pid_retval ≡ pos 0
  pub behind : (i : ℕ) → i < count → IsNamed (s.found_addrs (count + 1 + i))

module _ (k : Kernel) where
  -- The pages that are left do not run out of those found and backed up.
  balanced-enough :
      (nvram d nb nsb : ℕ)
      → (balanced k nvram d nb nsb ≤ nvram + nsb) × (balanced k nvram d nb nsb ≤ d + nb)
  balanced-enough nvram d nb nsb = ground arith

  Layout-NamedPairs :
      (nvram d count : ℕ) (s t : Search)
      → s.n_found ≡ nvram + 1 + d
      → count ≤ nvram + s.n_switch_backup
      → count ≤ d + s.n_backup
      → ((i : ℕ) → i < nvram → IsNamed (s.found_addrs i))
      → AllNamed IsPositive (nvram + 1) 0 0 s.found_addrs s
      → Layout nvram d count s t
      → NamedPairs count t
  Layout-NamedPairs nvram d count s t total le₁ le₂ first a l = record {
    total = l.total;
    before = λ i lt. rw (l.before i lt) (elim (Bool-cases (ltb i nvram)) [
      | inl found ↦ rw found (first i (ground arith))
      | inr backed ↦ rw backed (a.switch_backup (i - nvram) (omega arith) (ground arith))
    ]);
    separator = l.separator;
    behind = λ i lt. rw (l.behind i lt) (elim (Bool-cases (ltb i d)) [
      | inl found ↦ rw found (a.found (nvram + 1 + i) (omega arith) (ground arith))
      | inr backed ↦ rw backed (a.backup (i - d) (omega arith) (ground arith))
    ]);
  }

  -- What the first walk leaves, the separator written.
  record Separated (s : Search) : Type 0 where
    first : (i : ℕ) → i < s.n_found → IsNamed (s.found_addrs i)
    separator : (s.found_addrs s.n_found).pid_retval ≡ pos 0
    switch_backup : (i : ℕ) → i < s.n_switch_backup → IsNamed (s.switch_backup_addrs i)

  start_dram-AllNamed :
      (n : ℕ) (s : State k.Space)
      → Separated s.search
      → AllNamed IsPositive (s.n_found + 1) 0 0 s.found_addrs (start_dram k (pos n) s).search
  unfolding start_dram
  start_dram-AllNamed n s a = record {
    kept = λ i l. refl;
    found = λ i b l. absurd (omega arith);
    backup = λ i b l. absurd (omega arith);
    switch_backup = λ i b l. a.switch_backup i l;
  }

  nothing-NamedPairs :
      (s : Search)
      → s.n_found ≡ 0
      → Separated s
      → NamedPairs 0 (record s { n_found = s.n_found + 1 })
  nothing-NamedPairs s e a = record {
    total = omega (arith, e);
    before = λ i l. absurd (omega arith);
    separator = ap (λ i. (s.found_addrs i).pid_retval) (sym e) ∙ a.separator;
    behind = λ i l. absurd (omega arith);
  }

  kept-Layout-total : (nvram N : ℕ) → nvram + 1 ≤ N → N ≡ nvram + 1 + (N - nvram - 1)
  kept-Layout-total nvram N h = omega arith

  -- The second walk and the balancing.
  paired-NamedPairs :
      (n : ℕ) (s : State k.Space)
      → n ≤ max_n_switch
      → Ready k 0 n s
      → Separated s.search
      → let t = walk_dram k (pte_callback_mem k) (start_dram k (pos n) s) in
        (c : ℕ) × (c ≤ n) × NamedPairs c (balance k s.n_found t).search
  paired-NamedPairs n s h r a =
      let N = dram_target k n s in
      let s' = start_dram k (pos n) s in
      let t = walk_dram k (pte_callback_mem k) s' in
      let found : s.n_found ≤ n = r.bounded.found in
      let le : N ≤ max_n_find = omega arith in
      let keeps = pte_callback_mem-KeepsSafe k (s.n_found + 1) N le in
      let ready = start_dram-Ready k n s h r in
      let w = walk_dram-Ready k (s.n_found + 1) N (pte_callback_mem k) keeps s' ready in
      let names =
        walk_dram-AllNamed k IsPositive (s.n_found + 1) N 0 0 s.found_addrs (pte_callback_mem k)
          keeps (mem-KeepsNamed k) s' (tasks-IsPositive s'.task_items s'.n_pids ready.pids.tasks)
          ready (start_dram-AllNamed n s a) in
      let d = t.n_found - s.n_found - 1 in
      let total : t.n_found ≡ s.n_found + 1 + d =
        kept-Layout-total s.n_found t.n_found w.bounded.grown in
      let c = balanced k s.n_found d t.n_backup t.n_switch_backup in
      let enough = balanced-enough s.n_found d t.n_backup t.n_switch_backup in
      let sep : (t.found_addrs s.n_found).pid_retval ≡ pos 0 =
        ap (λ e. e.pid_retval) (names.kept s.n_found (omega arith)) ∙ a.separator in
      let layout = balance-Layout k s.n_found d t total sep in
      (
        c,
        balanced-le k s.n_found d t.n_backup t.n_switch_backup n found
            (omega (arith, w.bounded.found)),
        Layout-NamedPairs s.n_found d c t.search (balance k s.n_found t).search total enough.0
            enough.1 (λ i l. rw (names.kept i (omega arith)) (a.first i l))
            (record {
              kept = λ i l. refl;
              found = names.found;
              backup = names.backup;
              switch_backup = names.switch_backup;
            })
            layout,
      )

  -- Pairs of named pages, at most `n` of each tier.
  abbrev pub AtMost : ℕ → Search → Type 0
  AtMost n s = (c : ℕ) × (c ≤ n) × NamedPairs c s

  switch_rest-NamedPairs :
      (n : ℕ) (s : State k.Space)
      → n ≤ max_n_switch
      → Ready k 0 n s
      → Separated s.search
      → AtMost n (switch_rest k (pos n) s).1.search
  unfolding switch_rest
  switch_rest-NamedPairs n s h r a = elim (Bool-cases (s.n_found == 0 && s.n_switch_backup == 0)) [
    | inl nothing ↦ rw nothing (0, omega arith, nothing-NamedPairs s.search (ground arith) a)
    | inr something ↦ rw something (paired-NamedPairs n s h r a)
  ]

  separate-Separated :
      (x n : ℕ) (f : ℕ → AddrInfo) (s : State k.Space)
      → AllNamed IsPositive 0 x 0 f s.search
      → Separated (separate k s).search
  separate-Separated x n f s a = record {
    first = λ i l.
        let same : (separate k s).found_addrs i ≡ s.found_addrs i = ground arith in
        rw same (a.found i (omega arith) l);
    separator = ground arith;
    switch_backup = λ i l. a.switch_backup i (omega arith) l;
  }

  start_switch-AllNamed :
      (n : ℕ) (s : State k.Space)
      → Fresh k s
      → AllNamed IsPositive 0 s.n_backup 0 s.found_addrs (start_switch k (pos n) s).search
  start_switch-AllNamed n s f = record {
    kept = λ i l. absurd (omega arith);
    found = λ i b l. absurd (omega (arith, f.empty));
    backup = λ i b l. absurd (omega arith);
    switch_backup = λ i b l. absurd (omega arith);
  }

  -- A switch leaves pairs of named entries, at most `n`, with the separator between them.
  pub switch_walk-NamedPairs :
      (n : ℕ) (s : State k.Space)
      → n ≤ max_n_switch
      → 0 < s.n_pids
      → Fresh k s
      → AtMost n (switch_walk k (pos n) s).1.search
  unfolding switch_walk
  switch_walk-NamedPairs n s h p f =
      let s' = start_switch k (pos n) s in
      let t = walk_nvram k (pte_callback_nvram_switch k) s' in
      let keeps = pte_callback_nvram_switch-KeepsSafe k 0 n h in
      let ready = start_switch-Ready k n s p f in
      let names =
        walk_nvram-AllNamed k IsPositive 0 n s.n_backup 0 s.found_addrs
          (pte_callback_nvram_switch k) keeps (nvram_switch-KeepsNamed k) s'
          (tasks-IsPositive s'.task_items s'.n_pids ready.pids.tasks) ready
          (start_switch-AllNamed n s f) in
      switch_rest-NamedPairs n (separate k t) h
        (separate-Ready k n t h
          (walk_nvram-Ready k 0 n (pte_callback_nvram_switch k) keeps s' ready))
        (separate-Separated s.n_backup n s.found_addrs t names)

  -- `switch_walk` on a count of at most MAX_N_SWITCH, with a bound process and from a fresh request,
  -- makes no write out of bounds, and leaves for some number of at most `n`: so many entries with
  -- positive pids, then the separator, whose pid is 0, then as many entries with positive pids, and
  -- nothing else.
  pub switch_walk-Paired :
      (n : ℕ) (s : State k.Space)
      → n ≤ max_n_switch
      → 0 < s.n_pids
      → Fresh k s
      → let t = (switch_walk k (pos n) s).1 in Handled k t × AtMost n t.search
  switch_walk-Paired n s h p f =
      ((switch_walk-Switched k n s h p f).handled, switch_walk-NamedPairs n s h p f)
