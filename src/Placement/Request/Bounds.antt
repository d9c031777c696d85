-- ===== src/Placement/Request/Bounds.antt =====
-- `process_req` keeps the module's state valid, whatever the request, and leaves one to 131072
-- entries for the answer.
use ambix.Base.{
  ℕ, ◌+◌, ◌≤◌, ◌<◌, ◌≡◌, refl, false, ◌||◌, Option, none, some, ℤ, pos, negsuc, ◌==ℤ◌, ==ℤ_iff,
  arith, Bool-cases, inl, inr, min, ltb,
}
use ambix.Config.{
  Req, int_min, find_op, bind_op, unbind_op, dram_mode, nvram_mode, nvram_intensive_mode,
  nvram_write_mode, nvram_clear, switch_mode, max_n_find, max_n_switch,
}
use ambix.Kernel.{Kernel, Task, Processes}
use ambix.Placement.State.{State, Pids}
use ambix.Placement.Pids.{refresh_pids, bind_pid, unbind_pid}
use ambix.Placement.Pids.Invariant.{
  IsWellFormed, refresh_pids-IsWellFormed, bind_pid-IsWellFormed, unbind_pid-IsWellFormed,
}
use ambix.Placement.Walk.Memory.{Fresh, Handled, Fresh-Handled, mem_walk-Handled}
use ambix.Placement.Walk.Clear.{IsMapped, clear_walk-Handled}
use ambix.Placement.Switch.Balance.{switch_walk-Switched}
use ambix.Placement.Request.{with_pids, find_pages, dispatch, put_result, process_req}

-- What holds between two requests.
pub record Valid (k : Kernel) (s : State k.Space) : Type 0 where
  pub pids : IsWellFormed s.pids
  pub backup : s.n_backup ≤ max_n_find
  pub switch_backup : s.n_switch_backup ≤ max_n_switch
  pub sound : s.fault ≡ false

-- A count that is not negative.
abbrev pub IsCount : ℤ → Type 0
IsCount (pos n) = Unit {0}
IsCount (negsuc n) = ⊥

-- What a FIND needs beside a valid state: its count is not negative, and for a clearing walk each
-- bound process has an address space.
abbrev pub Findable : {Space : Type 0} → Req → State Space → Type 0
Findable req s =
    IsCount req.pid_n
    × (req.mode ≡ nvram_clear → (i : ℕ) → i < s.n_pids → IsMapped (s.task_items i))

pub int_min-pos : (a b : ℕ) → int_min (pos a) (pos b) ≡ pos (min a b)
unfolding int_min
int_min-pos a b = ground arith

pub IsCount-pos : (n : ℤ) → IsCount n → (c : ℕ) × (n ≡ pos c)
IsCount-pos (pos c) h = (c, refl)
IsCount-pos (negsuc c) h = absurd h

module _ (k : Kernel) where
  find_pages-Handled :
      (req : Req) (s : State k.Space)
      → Findable req s
      → 0 < s.n_pids
      → Fresh k s
      → Handled k (find_pages k req s).1
  unfolding find_pages
  find_pages-Handled req s h p f =
      let (c, e) = IsCount-pos req.pid_n h.0 in
      let mem = mem_walk-Handled k (min max_n_find c) req.mode s (omega arith) p f in
      let sw = switch_walk-Switched k (min max_n_switch c) s (omega arith) p f in
      elim (Bool-cases (
        req.mode ==ℤ dram_mode
        || req.mode ==ℤ nvram_mode
        || req.mode ==ℤ nvram_write_mode
        || req.mode ==ℤ nvram_intensive_mode)) [
          | inl finds ↦ rw (finds, e, int_min-pos max_n_find c) mem
          | inr ne₀ ↦ elim (Bool-cases (req.mode ==ℤ nvram_clear)) [
            | inl clears ↦
                rw (ne₀, clears) (clear_walk-Handled k s f (h.1 ((==ℤ_iff _ _).0 clears)))
            | inr ne₁ ↦ elim (Bool-cases (req.mode ==ℤ switch_mode)) [
              | inl switches ↦ rw (ne₀, ne₁, switches, e, int_min-pos max_n_switch c) sw.handled
              | inr ne₂ ↦ rw (ne₀, ne₁, ne₂) (Fresh-Handled k s f)
            ]
          ]
        ]

  -- A request that changes only the list of processes.
  with_pids-Handled :
      (s : State k.Space) (r : ℤ × Pids)
      → Fresh k s
      → IsWellFormed r.1
      → Handled k (with_pids k r s).1
  with_pids-Handled s (ret, p) f w = Fresh-Handled k _ (record {
    pids = w;
    empty = f.empty;
    backup = f.backup;
    switch_backup = f.switch_backup;
    sound = f.sound;
  })

  -- The state that a FIND walks in: the processes that have ended are gone.
  abbrev pub refreshed : Processes → State k.Space → State k.Space
  refreshed ps s = record s { pids = refresh_pids ps s.pids }

  -- What a request needs beside a valid state: only a FIND needs anything.
  abbrev pub Answerable : Processes → Option Req → State k.Space → Type 0
  Answerable ps none s = Unit {0}
  Answerable ps (some req) s = req.op_code ≡ find_op → Findable req (refreshed ps s)

  dispatch-Handled :
      (ps : Processes) (req : Req) (s : State k.Space)
      → ((pid : ℤ) (t : Task) → ps.get_pid_task pid ≡ some t → t.pid ≡ pid)
      → (req.op_code ≡ find_op → Findable req (refreshed ps s))
      → Fresh k s
      → Handled k (dispatch k ps req s).1
  unfolding dispatch
  dispatch-Handled ps req s lookup h f =
      let w = refresh_pids-IsWellFormed ps s.pids f.pids in
      elim (Bool-cases (req.op_code ==ℤ find_op)) [
        | inl finds ↦ elim (Bool-cases (ltb 0 (refreshed ps s).n_pids)) [
          | inl busy ↦
              rw (finds, busy)
                (find_pages-Handled req (refreshed ps s) (h ((==ℤ_iff _ _).0 finds)) (ground arith)
                  (with_pids-Fresh w))
          | inr idle ↦ rw (finds, idle) (Fresh-Handled k _ (with_pids-Fresh w))
        ]
        | inr ne₀ ↦ elim (Bool-cases (req.op_code ==ℤ bind_op)) [
          | inl binds ↦
              rw (ne₀, binds)
                (with_pids-Handled s (bind_pid ps req.pid_n (refresh_pids ps s.pids)) f (
                  bind_pid-IsWellFormed ps req.pid_n (refresh_pids ps s.pids) (lookup req.pid_n) w))
          | inr ne₁ ↦ elim (Bool-cases (req.op_code ==ℤ unbind_op)) [
            | inl unbinds ↦
                rw (ne₀, ne₁, unbinds)
                  (with_pids-Handled s
                    (
                      (unbind_pid req.pid_n s.pids).0,
                      refresh_pids ps (unbind_pid req.pid_n s.pids).1,
                    )
                    f
                    (refresh_pids-IsWellFormed ps (unbind_pid req.pid_n s.pids).1
                      (unbind_pid-IsWellFormed ps req.pid_n s.pids f.pids)))
            | inr ne₂ ↦ rw (ne₀, ne₁, ne₂) (Fresh-Handled k s f)
          ]
        ]
      ]
    where
      with_pids-Fresh : {p : Pids} → IsWellFormed p → Fresh k (record s { pids = p })
      with_pids-Fresh w = record {
        pids = w;
        empty = f.empty;
        backup = f.backup;
        switch_backup = f.switch_backup;
        sound = f.sound;
      }

  put_result-Valid :
      (r : ℤ × State k.Space)
      → Handled k r.1
      → Valid k (put_result k r) × ((put_result k r).n_found ≡ r.1.n_found + 1)
  unfolding put_result
  put_result-Valid (ret, s) h = (
    record {
      pids = h.pids;
      backup = h.backup;
      switch_backup = h.switch_backup;
      sound = ground (arith, h.sound, h.room);
    },
    refl,
  )

  -- `process_req` in a valid state answers a request that is answerable with no write out of bounds
  -- and no access through a null pointer. The state is valid again, and there are one to 131072 entries
  -- to send.
  pub process_req-Valid :
      (ps : Processes) (req : Option Req) (s : State k.Space)
      → ((pid : ℤ) (t : Task) → ps.get_pid_task pid ≡ some t → t.pid ≡ pid)
      → Valid k s
      → Answerable ps req s
      → Valid k (process_req k ps req s)
        × (1 ≤ (process_req k ps req s).n_found)
        × ((process_req k ps req s).n_found ≤ max_n_find + 1)
  unfolding process_req
  process_req-Valid ps req s lookup v h = by_req req h
    where
      s0 : State k.Space
      s0 = record s { search = record (s.search) { n_found = 0 } }

      fresh : Fresh k s0
      fresh = record {
        pids = v.pids;
        empty = refl;
        backup = v.backup;
        switch_backup = v.switch_backup;
        sound = v.sound;
      }

      finished :
          (r : ℤ × State k.Space)
          → Handled k r.1
          → Valid k (put_result k r)
            × (1 ≤ (put_result k r).n_found)
            × ((put_result k r).n_found ≤ max_n_find + 1)
      finished r w =
          let p = put_result-Valid r w in (p.0, omega (arith, p.1), omega (arith, p.1, w.room))

      by_req :
          (o : Option Req)
          → Answerable ps o s
          → Valid k (process_req k ps o s)
            × (1 ≤ (process_req k ps o s).n_found)
            × ((process_req k ps o s).n_found ≤ max_n_find + 1)
      by_req none a = finished (negsuc 0, s0) (Fresh-Handled k s0 fresh)
      by_req (some r) a = finished _ (dispatch-Handled ps r s0 lookup a fresh)
