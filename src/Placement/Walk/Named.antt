-- ===== src/Placement/Walk/Named.antt =====
-- Every page that a walk collects carries the pid of a bound process, which is positive.
use ambix.Base.{
  ℕ, ◌+◌, ◌≤◌, ◌<◌, ◌≡◌, ap, ◌∙◌, ◌⊎◌, inl, inr, Option, none, some, ℤ, pos_part, update, arith,
}
use native.Mathlib.Decide.{ℕ_discrete}
use ambix.Config.{AddrInfo}
use ambix.Kernel.{Kernel, Task}
use ambix.Placement.State.{State, Pids, Search, push_found, push_backup, push_switch_backup}
use ambix.Placement.Pids.Invariant.{IsTask}
use ambix.Placement.Callbacks.{
  Callback, candidate, pte_callback_mem, pte_callback_nvram_force, pte_callback_nvram_write,
  pte_callback_nvram_intensive, pte_callback_nvram_switch,
}
use ambix.Placement.Callbacks.Bounds.{Safe, KeepsSafe}
use ambix.Placement.Walk.{do_page_walk}
use ambix.Placement.Walk.Keeps.{set_pid, do_page_walk-Outside}
use ambix.Placement.Walk.Bounds.{set_pid-Safe}

abbrev pub IsPositive : ℤ → Type 0
IsPositive pid = 0 < pos_part pid

abbrev pub IsNamed : AddrInfo → Type 0
IsNamed e = IsPositive e.pid_retval

-- A positive pid of a process that is bound.
abbrev pub IsBoundPid : Pids → ℤ → Type 0
IsBoundPid p pid =
    IsPositive pid
    × ((i : ℕ) × (t : Task) × (i < p.n_pids) × (p.task_items i ≡ some t) × (t.pid ≡ pid))

pub tasks-IsPositive :
    (items : ℕ → Option Task) (count : ℕ)
    → ((i : ℕ) → i < count → IsTask (items i))
    → (i : ℕ) (t : Task) → i < count
    → items i ≡ some t
    → IsPositive t.pid
tasks-IsPositive items count tasks i t lt e =
    let named : IsTask (some t) = rw e at (tasks i lt) in named

-- The entries below `b` are those of `f`, and every entry behind them has a pid with the property. So
-- has every entry of the backups from `x` and from `y` on: what lies below is left from older requests.
pub record AllNamed (P : ℤ → Type 0) (b x y : ℕ) (f : ℕ → AddrInfo) (s : Search) : Type 0 where
  pub kept : (i : ℕ) → i < b → s.found_addrs i ≡ f i
  pub found : (i : ℕ) → b ≤ i → i < s.n_found → P (s.found_addrs i).pid_retval
  pub backup : (i : ℕ) → x ≤ i → i < s.n_backup → P (s.backup_addrs i).pid_retval
  pub switch_backup :
      (i : ℕ) → y ≤ i → i < s.n_switch_backup → P (s.switch_backup_addrs i).pid_retval

-- An array with an entry written behind the others.
update-IsNamed :
    (P : ℤ → Type 0) (f : ℕ → AddrInfo) (b n : ℕ) (e : AddrInfo)
    → P e.pid_retval
    → ((i : ℕ) → b ≤ i → i < n → P (f i).pid_retval)
    → (i : ℕ) → b ≤ i
    → i < n + 1
    → P (update f n e i).pid_retval
update-IsNamed P f b n e h all i l lt = elim (ℕ_discrete n i) [
  | yes last ↦ let same : update f n e i ≡ e = ground arith in rw same h
  | no other ↦ let same : update f n e i ≡ f i = ground arith in rw same (all i l (omega arith))
]

module _ (P : ℤ → Type 0) (b x y : ℕ) (f : ℕ → AddrInfo) (s : Search) (e : AddrInfo) where
  pub push_found-AllNamed :
      P e.pid_retval → b ≤ s.n_found → AllNamed P b x y f s → AllNamed P b x y f (push_found s e)
  push_found-AllNamed h l a = record {
    kept = λ i lt.
        let same : update s.found_addrs s.n_found e i ≡ s.found_addrs i = ground arith in
        same ∙ a.kept i lt;
    found = update-IsNamed P s.found_addrs b s.n_found e h a.found;
    backup = a.backup;
    switch_backup = a.switch_backup;
  }

  push_backup-AllNamed :
      P e.pid_retval → AllNamed P b x y f s → AllNamed P b x y f (push_backup s e)
  push_backup-AllNamed h a = record {
    kept = a.kept;
    found = a.found;
    backup = update-IsNamed P s.backup_addrs x s.n_backup e h a.backup;
    switch_backup = a.switch_backup;
  }

  push_switch_backup-AllNamed :
      P e.pid_retval → AllNamed P b x y f s → AllNamed P b x y f (push_switch_backup s e)
  push_switch_backup-AllNamed h a = record {
    kept = a.kept;
    found = a.found;
    backup = a.backup;
    switch_backup = update-IsNamed P s.switch_backup_addrs y s.n_switch_backup e h a.switch_backup;
  }

-- What a callback may do to the lists: nothing, or store the page in one of them.
abbrev Pushes : Search → AddrInfo → Search → Type 0
Pushes s e t = (t ≡ s) ⊎ (t ≡ push_found s e) ⊎ (t ≡ push_backup s e) ⊎ (t ≡ push_switch_backup s e)

Pushes-AllNamed :
    (P : ℤ → Type 0) (b x y : ℕ) (f : ℕ → AddrInfo) (s : Search) (e : AddrInfo) (t : Search)
    → P e.pid_retval
    → b ≤ s.n_found
    → AllNamed P b x y f s
    → Pushes s e t
    → AllNamed P b x y f t
Pushes-AllNamed P b x y f s e t h l a (inl p) = rw p a
Pushes-AllNamed P b x y f s e t h l a (inr (inl p)) = rw p (push_found-AllNamed P b x y f s e h l a)
Pushes-AllNamed P b x y f s e t h l a (inr (inr (inl p))) =
    rw p (push_backup-AllNamed P b x y f s e h a)
Pushes-AllNamed P b x y f s e t h l a (inr (inr (inr p))) =
    rw p (push_switch_backup-AllNamed P b x y f s e h a)

module _ (k : Kernel) where
  -- A callback that stores pages under the current pid only.
  abbrev pub KeepsNamed : Callback k → Type 0
  KeepsNamed cb =
      (m addr : ℕ) (e : Option k.Pte) (s : State k.Space)
      → Pushes s.search (candidate k s addr) (cb m addr e s).1.search

  pub mem-KeepsNamed : KeepsNamed (pte_callback_mem k)
  unfolding pte_callback_mem
  mem-KeepsNamed m addr none s = ground arith
  mem-KeepsNamed m addr (some pte) s = ground arith

  pub nvram_force-KeepsNamed : KeepsNamed (pte_callback_nvram_force k)
  unfolding pte_callback_nvram_force
  nvram_force-KeepsNamed m addr none s = ground arith
  nvram_force-KeepsNamed m addr (some pte) s = ground arith

  pub nvram_write-KeepsNamed : KeepsNamed (pte_callback_nvram_write k)
  unfolding pte_callback_nvram_write
  nvram_write-KeepsNamed m addr none s = ground arith
  nvram_write-KeepsNamed m addr (some pte) s = ground arith

  pub nvram_intensive-KeepsNamed : KeepsNamed (pte_callback_nvram_intensive k)
  unfolding pte_callback_nvram_intensive
  nvram_intensive-KeepsNamed m addr none s = ground arith
  nvram_intensive-KeepsNamed m addr (some pte) s = ground arith

  pub nvram_switch-KeepsNamed : KeepsNamed (pte_callback_nvram_switch k)
  unfolding pte_callback_nvram_switch
  nvram_switch-KeepsNamed m addr none s = ground arith
  nvram_switch-KeepsNamed m addr (some pte) s = ground arith

module _ (k : Kernel) (P : ℤ → Type 0) (b n x y : ℕ) (f : ℕ → AddrInfo) (items : ℕ → Option Task)
    (count : ℕ) (tasks : (i : ℕ) → i < count → IsTask (items i)) (cb : Callback k)
    (keeps : KeepsSafe k b n cb) (names : KeepsNamed k cb)
    (named : (i : ℕ) (t : Task) → i < count → items i ≡ some t → P t.pid) where
  -- Between the tasks, and while the pages of one are walked.
  abbrev Outside : State k.Space → Type 0
  Outside s = Safe k b n items count s × AllNamed P b x y f s.search

  abbrev Inside : State k.Space → Type 0
  Inside s = Outside s × P s.curr_pid

  enters_named :
      (s : State k.Space) (i : ℕ) (t : Task)
      → i < count
      → items i ≡ some t
      → Outside s
      → Inside (set_pid s t.pid)
  enters_named s i t lt e (v, a) =
      let same : AllNamed P b x y f (set_pid s t.pid).search = record {
        kept = a.kept;
        found = a.found;
        backup = a.backup;
        switch_backup = a.switch_backup;
      } in
      ((set_pid-Safe k b n items count s t.pid v, same), named i t lt e)

  curr_pid-cb :
      (m addr : ℕ) (e : Option k.Pte) (s : State k.Space) → (cb m addr e s).1.curr_pid ≡ s.curr_pid
  curr_pid-cb m addr e s = by_push (names m addr e s)
    where
      by_push :
          {t : Search} → Pushes s.search (candidate k s addr) t → t.curr_pid ≡ s.search.curr_pid
      by_push (inl p) = ap (λ q. q.curr_pid) p
      by_push (inr (inl p)) = ap (λ q. q.curr_pid) p
      by_push (inr (inr (inl p))) = ap (λ q. q.curr_pid) p
      by_push (inr (inr (inr p))) = ap (λ q. q.curr_pid) p

  -- The walk keeps the bounds, and every page that it stores is named.
  pub do_page_walk-AllNamed :
      (last_pid last_addr : ℕ) (s : State k.Space)
      → last_pid < count
      → Outside s
      → let r = do_page_walk k cb last_pid last_addr s in (r.0 < count) × Outside r.1
  do_page_walk-AllNamed = do_page_walk-Outside k cb items count Outside Inside (record {
    tasks = tasks;
    same_items = λ s v. v.0.same_items;
    same_count = λ s v. v.0.same_count;
    enters = enters_named;
    keeps = λ m addr e s v.
        let same = curr_pid-cb m addr e s in
        (
          (
            keeps items count m addr e s v.0.0,
            Pushes-AllNamed P b x y f s.search (candidate k s addr) _ v.1 v.0.0.bounded.grown v.0.1
                (names m addr e s),
          ),
          rw same (v.1),
        );
    leaves = λ s v. v.0;
  })
