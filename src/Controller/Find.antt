-- ===== src/Controller/Find.antt =====
-- `send_find` ends: the candidates that the controller counts end before the module's result.
use ambix.Base.{
  ℕ, zero, suc, ◌+◌, ◌-◌, ◌≤◌, ◌<◌, ◌≡◌, refl, ap, ◌∙◌, true, Option, none, some, ℤ, pos, leb_ℤ,
  ltb_ℤ, ltb, ◌==ℤ◌, ◌==◌, arith, Bool-cases, inl, inr, update,
}
use ambix.Config.{
  AddrInfo, Req, int_min, dram_mode, nvram_mode, switch_mode, max_n_find, max_n_switch,
}
use ambix.Kernel.{Kernel, Processes, Task}
use ambix.Placement.State.{State, Pids}
use ambix.Placement.Pids.{refresh_pids, bind_pid, unbind_pid}
use ambix.Placement.Pids.Binding.{accepted, retval_after, bind_pid_lem, unbind_pid_lem}
use ambix.Placement.Pids.View.{bound}
use ambix.Placement.Walk.{mem_walk, top_up, walk_dram, walk_nvram, start_search}
use ambix.Placement.Callbacks.{
  pte_callback_mem, pte_callback_nvram_force, pte_callback_nvram_intensive,
  pte_callback_nvram_write,
}
use ambix.Placement.Switch.{switch_walk, switch_rest}
use ambix.Placement.Request.{find_pages, dispatch, put_result, process_req}
use ambix.Placement.Request.Bounds.{Valid, Answerable, process_req-Valid}
use ambix.Placement.Reply.{placement_nl_process_msg}
use ambix.Controller.Comm.{send_req, count_candidates}
use ambix.Controller.RoundTrip.{send_req-process_msg}
use ambix.Controller.Migration.{Os, Plan}
use ambix.Controller.Switch.{
  find_req, is_nvram_mode, found_result, migrate_found, migrate_counted, send_find,
}
use ambix.Controller.Migrated.{do_migration-ends}
use ambix.Controller.Switched.{do_switch_lem}

not_yet :
    (candidates : ℕ → AddrInfo) (i n : ℕ)
    → i ≤ n
    → leb_ℤ (candidates n).pid_retval (pos 0) ≡ true
    → ltb_ℤ (pos 0) (candidates i).pid_retval ≡ true
    → i + 1 ≤ n
not_yet candidates i n h z more = elim (Bool-cases (ltb i n)) [
  | inl less ↦ ground arith
  | inr same ↦ let e : i ≡ n = ground arith in let more_n = rw e at more in ground arith
]

-- The count ends at the first candidate whose pid is not positive.
pub count_candidates-stops :
    (fuel i : ℕ) (candidates : ℕ → AddrInfo) (n : ℕ)
    → i ≤ n
    → n < i + fuel
    → leb_ℤ (candidates n).pid_retval (pos 0) ≡ true
    → (c : ℕ) × (count_candidates fuel i candidates ≡ some c) × (c ≤ n)
unfolding count_candidates
count_candidates-stops zero i candidates n h l z = absurd (omega arith)
count_candidates-stops (suc fuel) i candidates n h l z =
    elim (Bool-cases (ltb_ℤ (pos 0) (candidates i).pid_retval)) [
      | inr stop ↦ (i, rw stop refl, h)
      | inl more ↦
          let next = not_yet candidates i n h z more in
          let r = count_candidates-stops fuel (i + 1) candidates n next (omega arith) z in
          (r.0, rw more (r.1), r.2)
    ]

-- A result of the module: 0 or -1.
abbrev pub IsResult : ℤ → Type 0
IsResult ret = leb_ℤ ret (pos 0) ≡ true

module _ (k : Kernel) where
  top_up-IsResult : (s : State k.Space) → IsResult (top_up k s).0
  unfolding top_up
  top_up-IsResult s = ground arith

  mem_walk-IsResult : (n mode : ℤ) (s : State k.Space) → IsResult (mem_walk k n mode s).0
  unfolding mem_walk
  mem_walk-IsResult n mode s =
      let s' = start_search k n s in
      ground (
        arith,
        top_up-IsResult (walk_dram k (pte_callback_mem k) s'),
        top_up-IsResult (walk_nvram k (pte_callback_nvram_force k) s'),
        top_up-IsResult (walk_nvram k (pte_callback_nvram_intensive k) s'),
        top_up-IsResult (walk_nvram k (pte_callback_nvram_write k) s'),
      )

  switch_walk-IsResult : (n : ℤ) (s : State k.Space) → IsResult (switch_walk k n s).0
  unfolding switch_walk switch_rest
  switch_walk-IsResult n s = ground arith

  find_pages-IsResult : (req : Req) (s : State k.Space) → IsResult (find_pages k req s).0
  unfolding find_pages
  find_pages-IsResult req s = ground (
    arith,
    mem_walk-IsResult (int_min (pos max_n_find) req.pid_n) req.mode s,
    switch_walk-IsResult (int_min (pos max_n_switch) req.pid_n) s,
  )

  retval_after-IsResult : (t : Option Task) → IsResult (retval_after t)
  retval_after-IsResult none = refl
  retval_after-IsResult (some t) = refl

  bind_pid-IsResult : (ps : Processes) (pid : ℤ) (p : Pids) → IsResult (bind_pid ps pid p).0
  bind_pid-IsResult ps pid p =
      rw ((bind_pid_lem ps pid p).0) (retval_after-IsResult (accepted ps pid (bound p)))

  unbind_pid-IsResult : (pid : ℤ) (p : Pids) → IsResult (unbind_pid pid p).0
  unbind_pid-IsResult pid p = rw ((unbind_pid_lem pid p).0) (ground arith)

  pub dispatch-IsResult :
      (ps : Processes) (req : Req) (s : State k.Space) → IsResult (dispatch k ps req s).0
  unfolding dispatch
  dispatch-IsResult ps req s = ground (
    arith,
    find_pages-IsResult req (record s { pids = refresh_pids ps s.pids }),
    bind_pid-IsResult ps req.pid_n (refresh_pids ps s.pids),
    unbind_pid-IsResult req.pid_n s.pids,
  )

  put_result-last :
      (r : ℤ × State k.Space)
      → IsResult r.0
      → let s = put_result k r in IsResult (s.found_addrs (s.n_found - 1)).pid_retval
  unfolding put_result
  put_result-last (ret, s) h =
      let e : s.n_found + 1 - 1 ≡ s.n_found = omega arith in
      let last : update s.found_addrs s.n_found
            (record (s.found_addrs s.n_found) { pid_retval = ret }) (s.n_found + 1 - 1)
          ≡ record (s.found_addrs s.n_found) { pid_retval = ret } =
        ground arith in
      rw last h

  process_req-IsResult :
      (ps : Processes) (req : Req) (s : State k.Space)
      → let s' = process_req k ps (some req) s in
        IsResult (s'.found_addrs (s'.n_found - 1)).pid_retval
  unfolding process_req
  process_req-IsResult ps req s = put_result-last _ (dispatch-IsResult ps req _)

migrate_found-ends :
    (os : Os) (page_size : ℕ) (candidates : ℕ → AddrInfo) (mode : ℤ) (n : ℕ) (memory : Plan)
    (w : os.World)
    → (r : ℤ × os.World) × (migrate_found os page_size candidates mode n memory w ≡ some r)
unfolding migrate_found
migrate_found-ends os page_size candidates mode n memory w =
    let dr = do_migration-ends os page_size candidates dram_mode n memory w in
    let nv = do_migration-ends os page_size candidates nvram_mode n memory w in
    elim (Bool-cases (n == 0)) [
      | inl empty ↦ ((pos 0, w), rw empty refl)
      | inr some_found ↦ elim (Bool-cases (mode ==ℤ dram_mode)) [
        | inl dram ↦ ((pos dr.0.0, dr.0.1), rw (some_found, dram) (ap found_result dr.1))
        | inr ne₀ ↦ elim (Bool-cases (is_nvram_mode mode)) [
          | inl nvram ↦ ((pos nv.0.0, nv.0.1), rw (some_found, ne₀, nvram) (ap found_result nv.1))
          | inr ne₁ ↦ elim (Bool-cases (mode ==ℤ switch_mode)) [
            | inl both ↦
                let r = do_switch_lem os page_size candidates n memory w in
                (r.0, rw (some_found, ne₀, ne₁, both) (r.1))
            | inr ne₂ ↦ ((pos 0, w), rw (some_found, ne₀, ne₁, ne₂) refl)
          ]
        ]
      ]
    ]

-- A `send_find` that the module answers in a valid state, to a request that is answerable, ends: it
-- counts at most 131072 candidates, since the module's last entry holds no pid, and migrates them.
pub send_find_lem :
    (k : Kernel) (ps : Processes) (s : State k.Space)
    → ((pid : ℤ) (t : Task) → ps.get_pid_task pid ≡ some t → t.pid ≡ pid)
    → Valid k s
    → (os : Os) (page_size : ℕ) (n_pages mode : ℤ) (candidates : ℕ → AddrInfo) (memory : Plan)
      (w : os.World)
    → Answerable k ps (some (find_req n_pages mode)) s
    → let answer = λ (r : Req). (placement_nl_process_msg k ps true (some r) s).0 in
      (r : ℤ × os.World) × (send_find os page_size answer
          (max_n_find + 1)
          n_pages
          mode
          candidates
          memory
          w
        ≡ some r)
unfolding send_find placement_nl_process_msg
send_find_lem k ps s lookup v os page_size n_pages mode candidates memory w a =
    let req = find_req n_pages mode in
    let s' = process_req k ps (some req) s in
    let (valid, least, most) = process_req-Valid k ps (some req) s lookup v a in
    let answer = λ (r : Req). (placement_nl_process_msg k ps true (some r) s).0 in
    let stored = (send_req-process_msg k ps s req candidates least).1 (s'.n_found - 1) in
    let inside : ltb (s'.n_found - 1) s'.n_found ≡ true = ground (arith, least) in
    let out = (send_req answer req candidates).1 in
    let last : IsResult (out (s'.n_found - 1)).pid_retval =
      rw (stored, inside) (process_req-IsResult k ps req s) in
    let c =
      count_candidates-stops (max_n_find + 1) 0 out (s'.n_found - 1) (omega arith) (omega arith)
        last in
    let r = migrate_found-ends os page_size out mode c.0 memory w in
    (r.0, ap (migrate_counted os page_size out mode memory w) c.1 ∙ r.1)
