-- ===== src/Placement/Walk/FirstFit.antt =====
-- A walk over a range finds the first pages that pass the callback's test, up to the count.
use ambix.Base.{
  ℕ, ◌+◌, ◌≤◌, ◌<◌, ◌≡◌, sym, ap, ap₂, ◌∙◌, Bool, true, false, Option, pos, List, [], ◌∷◌, ◌++◌,
  arith, Bool-cases, inl, inr, take, take-append_all, take-append_full, slice, slice-update_end,
  length-slice, append_assoc,
}
use ambix.Kernel.{Kernel}
use ambix.Placement.State.{State}
use ambix.Placement.Callbacks.{
  Callback, found_all, candidate, pte_callback_mem, pte_callback_nvram_force,
  pte_callback_nvram_write, pte_callback_nvram_intensive, pte_callback_nvram_switch,
}
use ambix.Placement.Walk.{walk_entries}
use ambix.Placement.Walk.Selection.{
  Passes, Selects, found_list, candidates_of, is_idle_dram, is_intensive_nvram, mem-Selects,
  nvram_force-Selects, nvram_write-Selects, nvram_intensive-Selects, nvram_switch-Selects,
}

module _ (k : Kernel) where
  pub Passes-found_list : (s t : State k.Space) → Passes k s t → found_list k t ≡ found_list k s
  Passes-found_list s t p = ap₂ (λ f n. slice f 0 n) p.found p.count

  pub found_all_iff :
      (n : ℕ) (s : State k.Space)
      → s.n_to_find ≡ pos n
      → s.n_found ≤ n
      → ((found_all k s ≡ true) → s.n_found ≡ n) × ((found_all k s ≡ false) → s.n_found < n)
  found_all_iff n s e h = (λ a. ground arith, λ a. ground arith)

  module _ (cb : Callback k) (test : Option k.Pte → Bool) (sel : Selects k cb test) (n : ℕ) where
    -- The pages found by the walk over some entries are those found before with the candidates among
    -- the entries behind them, cut off at the count.
    pub walk_entries-take :
        (m : ℕ) (es : List (ℕ × Option k.Pte)) (s : State k.Space)
        → s.n_to_find ≡ pos n
        → s.n_found ≤ n
        → found_list k (walk_entries k cb m es s)
          ≡ take n (found_list k s ++ candidates_of k test s.curr_pid es)
    unfolding walk_entries
    walk_entries-take m [] s e h =
        sym (
          take-append_all n (found_list k s)
            (omega (arith, length-slice s.found_addrs 0 s.n_found)))
    walk_entries-take m ((addr, pte) ∷ es) s e h = elim (Bool-cases (found_all k s)) [
      | inl full ↦
          let r = sel.stops m addr pte s full in
          let all = (found_all_iff n s e h).0 full in
          rw (r.0) (
            Passes-found_list s _ r.1
            ∙ sym (
                take-append_full n (found_list k s) _
                  (length-slice s.found_addrs 0 s.n_found ∙ all)))
      | inr room ↦ elim (Bool-cases (test pte)) [
        | inl hit ↦
            let r = sel.picks m addr pte s room hit in
            let s' = (cb m addr pte s).1 in
            let less = (found_all_iff n s e h).1 room in
            let target : s'.n_to_find ≡ s.n_to_find = ap (λ q. q.n_to_find) r.1 in
            let count : s'.n_found ≡ s.n_found + 1 = ap (λ q. q.n_found) r.1 in
            let list : found_list k s' ≡ found_list k s ++ candidate k s addr ∷ [] =
              ap (λ q. slice q.found_addrs 0 q.n_found) r.1
              ∙ slice-update_end s.found_addrs s.n_found (candidate k s addr) in
            rw (r.0, hit)
              (walk_entries-take m es s' (target ∙ e) (omega arith)
                ∙ ap (take n) (
                    ap₂ (λ xs pid. xs ++ candidates_of k test pid es) list
                      (ap (λ q. q.curr_pid) r.1)
                    ∙ append_assoc (found_list k s) (candidate k s addr ∷ []) _))
        | inr miss ↦
            let r = sel.skips m addr pte s room miss in
            let s' = (cb m addr pte s).1 in
            let p : Passes k s s' = r.1 in
            rw (r.0, miss)
              (walk_entries-take m es s' (p.target ∙ e) (omega (arith, p.count))
                ∙ ap (take n) (
                    ap₂ (λ xs pid. xs ++ candidates_of k test pid es) (Passes-found_list s s' p)
                      p.pid))
      ]
    ]

-- While at most the count asked for is found, the DRAM walk over some entries finds the pages found
-- before, and behind them the idle pages of DRAM
-- (present, writable, not accessed) in the order of the walk, cut off at the count asked for.
pub dram_first_fit :
    (k : Kernel) (n m : ℕ) (es : List (ℕ × Option k.Pte)) (s : State k.Space)
    → s.n_to_find ≡ pos n
    → s.n_found ≤ n
    → found_list k (walk_entries k (pte_callback_mem k) m es s)
      ≡ take n (found_list k s ++ candidates_of k (is_idle_dram k) s.curr_pid es)
dram_first_fit k n m es s = walk_entries-take k (pte_callback_mem k) _ (mem-Selects k) n m es s

-- While at most the count asked for is found, each of the four NVRAM walks over some entries finds
-- the pages found before, and behind them the intensive pages of
-- NVRAM (present, writable, accessed and written) in the order of the walk, cut off at the count.
pub nvram_first_fit :
    (k : Kernel) (n m : ℕ) (es : List (ℕ × Option k.Pte)) (s : State k.Space)
    → s.n_to_find ≡ pos n
    → s.n_found ≤ n
    → let first = take n (found_list k s ++ candidates_of k (is_intensive_nvram k) s.curr_pid es) in
      (found_list k (walk_entries k (pte_callback_nvram_force k) m es s) ≡ first)
      × (found_list k (walk_entries k (pte_callback_nvram_write k) m es s) ≡ first)
      × (found_list k (walk_entries k (pte_callback_nvram_intensive k) m es s) ≡ first)
      × (found_list k (walk_entries k (pte_callback_nvram_switch k) m es s) ≡ first)
nvram_first_fit k n m es s e h =
    let take_by = λ (cb : Callback k) (sel : Selects k cb (is_intensive_nvram k)).
      walk_entries-take k cb (is_intensive_nvram k) sel n m es s e h in
    (
      take_by _ (nvram_force-Selects k),
      take_by _ (nvram_write-Selects k),
      take_by _ (nvram_intensive-Selects k),
      take_by _ (nvram_switch-Selects k),
    )
