-- ===== src/Controller/Searched.antt =====
-- What the module has found for a FIND, and what the controller stores of it.
use ambix.Base.{
  ℕ, ◌≤◌, ◌<◌, ◌≡◌, ◌⊎◌, refl, sym, subst, false, ◌||◌, some, ℤ, pos, ◌==ℤ◌, ltb, arith, Bool-cases,
  inl, inr, List, min, true,
}
use ambix.Config.{
  AddrInfo, Req, dram_mode, nvram_mode, nvram_write_mode, nvram_intensive_mode, switch_mode,
  nvram_clear, max_n_find, max_n_switch,
}
use ambix.Netlink.{Message}
use ambix.Kernel.{Kernel, Processes}
use ambix.Placement.State.{State}
use ambix.Placement.Pids.{refresh_pids}
use ambix.Placement.Pids.Invariant.{refresh_pids-IsWellFormed}
use ambix.Placement.Walk.{mem_walk}
use ambix.Placement.Switch.{switch_walk}
use ambix.Placement.Walk.Memory.{Fresh}
use ambix.Placement.Walk.Named.{IsBoundPid}
use ambix.Placement.Walk.Answer.{mem_walk-IsBoundPid}
use ambix.Placement.Switch.Answer.{NamedPairs, switch_walk-NamedPairs}
use ambix.Placement.Request.{find_pages, dispatch, put_result, process_req}
use ambix.Placement.Request.Bounds.{Valid, int_min-pos}
use ambix.Placement.Reply.{placement_nl_process_msg}
use ambix.Controller.Comm.{send_req}
use ambix.Controller.RoundTrip.{send_req-process_msg}
use ambix.Controller.Switch.{find_req}
use ambix.Controller.Find.{IsResult, dispatch-IsResult}

-- The modes that `mem_walk` serves.
abbrev pub IsMemMode : ℤ → Type 0
IsMemMode mode =
    (mode ==ℤ dram_mode
      || mode ==ℤ nvram_mode
      || mode ==ℤ nvram_write_mode
      || mode ==ℤ nvram_intensive_mode)
    ≡ true

pub not_clear : (mode : ℤ) → IsMemMode mode → ¬ (mode ≡ nvram_clear)
not_clear mode m e = let m' = subst IsMemMode e m in ground arith

module _ (k : Kernel) (ps : Processes) (s : State k.Space) where
  abbrev pub fresh : State k.Space
  fresh = record s { search = record (s.search) { n_found = 0 } }

  -- The state of the module when it has handled a FIND, before it stores the result.
  abbrev pub searched : ℤ → ℤ → State k.Space
  searched n_pages mode = (dispatch k ps (find_req n_pages mode) fresh).1

  -- The state in which the walks start.
  abbrev pub started : State k.Space
  started = record fresh { pids = refresh_pids ps s.pids }

  pub started-Fresh : Valid k s → Fresh k started
  started-Fresh v = record {
    pids = refresh_pids-IsWellFormed ps s.pids v.pids;
    empty = refl;
    backup = v.backup;
    switch_backup = v.switch_backup;
    sound = v.sound;
  }

  pub searched-mem :
      (n : ℕ) (mode : ℤ)
      → IsMemMode mode
      → ltb 0 started.n_pids ≡ true
      → searched (pos n) mode ≡ (mem_walk k (pos (min max_n_find n)) mode started).1
  unfolding dispatch find_pages
  searched-mem n mode m busy =
      let least = int_min-pos max_n_find n in rw (searched, busy, m, least) refl

  pub searched-switch :
      (n : ℕ)
      → ltb 0 started.n_pids ≡ true
      → searched (pos n) switch_mode ≡ (switch_walk k (pos (min max_n_switch n)) started).1
  unfolding dispatch find_pages
  searched-switch n busy = let least = int_min-pos max_n_switch n in rw (searched, busy, least) refl

  searched-idle :
      (n_pages mode : ℤ) → ltb 0 started.n_pids ≡ false → searched n_pages mode ≡ started
  unfolding dispatch
  searched-idle n_pages mode idle = rw (searched, idle) refl

  -- Each entry found carries the pid of a process that is bound when the walks start.
  abbrev pub FoundNamed : State k.Space → Type 0
  FoundNamed t =
      (i : ℕ) → i < t.n_found → IsBoundPid (refresh_pids ps s.pids) (t.found_addrs i).pid_retval

  pub mem_mode-named :
      (n : ℕ) (mode : ℤ) → Valid k s → IsMemMode mode → FoundNamed (searched (pos n) mode)
  mem_mode-named n mode v m = elim (Bool-cases (ltb 0 started.n_pids)) [
    | inl busy ↦ subst FoundNamed (sym (searched-mem n mode m busy)) (
        mem_walk-IsBoundPid k (min max_n_find n) started (omega arith) (ground arith)
          (started-Fresh v) mode)
    | inr idle ↦
        subst FoundNamed (sym (searched-idle (pos n) mode idle)) (λ i l. absurd (omega arith))
  ]

  abbrev pub Pairs : ℕ → State k.Space → Type 0
  Pairs n t = (t.n_found ≡ 0) ⊎ ((c : ℕ) × (c ≤ n) × NamedPairs c t.search)

  pub switch_mode-Pairs :
      (n : ℕ) → Valid k s → Pairs (min max_n_switch n) (searched (pos n) switch_mode)
  switch_mode-Pairs n v = elim (Bool-cases (ltb 0 started.n_pids)) [
    | inl busy ↦ subst (Pairs (min max_n_switch n)) (sym (searched-switch n busy)) (
        inr (
          switch_walk-NamedPairs k (min max_n_switch n) started (omega arith) (ground arith)
            (started-Fresh v)))
    | inr idle ↦
        subst (Pairs (min max_n_switch n)) (sym (searched-idle (pos n) switch_mode idle)) (inl refl)
  ]

  abbrev answer : Req → List Message
  answer r = (placement_nl_process_msg k ps true (some r) s).0

  -- The candidates that the controller has stored when the answer is read.
  abbrev pub stored : (ℕ → AddrInfo) → ℤ → ℤ → ℕ → AddrInfo
  stored candidates n_pages mode = (send_req answer (find_req n_pages mode) candidates).1

  -- What the controller stores of a FIND: what was found, and then the result.
  pub received :
      (n_pages mode : ℤ) (candidates : ℕ → AddrInfo)
      → let answer = λ (r : Req). (placement_nl_process_msg k ps true (some r) s).0 in
        let out = (send_req answer (find_req n_pages mode) candidates).1 in
        let t = searched n_pages mode in
        ((j : ℕ) → j < t.n_found → out j ≡ t.found_addrs j) × IsResult (out t.n_found).pid_retval
  unfolding placement_nl_process_msg process_req put_result
  received n_pages mode candidates =
      let req = find_req n_pages mode in
      let t = searched n_pages mode in
      let arrived = (send_req-process_msg k ps s req candidates (omega arith)).1 in
      (
        λ j l. let e = arrived j in ground arith,
        let e = arrived t.n_found in let r = dispatch-IsResult k ps req fresh in ground arith,
      )
