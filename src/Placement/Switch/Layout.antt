-- ===== src/Placement/Switch/Layout.antt =====
-- Where the pages of a switch lie when `balance` is done: which of those found and backed up are left,
-- and in which order.
use ambix.Base.{
  ℕ, ◌+◌, ◌-◌, ◌*◌, ◌≤◌, ◌<◌, ◌≡◌, refl, pos, pos_part, if◌then◌else◌, arith, Bool-cases, inl, inr,
  min, ltb, ◌==◌, ◌&&◌,
}
use ambix.Config.{AddrInfo, int_min}
use ambix.Kernel.{Kernel}
use ambix.Placement.State.{State, Search, put_found_retval}
use ambix.Placement.Walk.{add_backups}
use ambix.Placement.Switch.{copy_down, fill_nvram, drop_nvram, add_nvram, add_dram, balance}
use ambix.Placement.Switch.Bounds.{balanced}
use ambix.Placement.Walk.TopUp.{n_found-add_backups, add_backups-found}
use ambix.Placement.Switch.Copies.{
  copy_up-found, copy_down-found, fill_nvram-found, copy_up-SameBackups, copy_down-SameBackups,
}

-- The NVRAM pages in order, those of the backup behind those found; and the `d` DRAM pages found,
-- which begin behind the separator, with the backup behind them.
abbrev pub nvram_page : ℕ → Search → ℕ → AddrInfo
nvram_page nvram s i = if ltb i nvram then s.found_addrs i else s.switch_backup_addrs (i - nvram)

abbrev pub dram_page : ℕ → ℕ → Search → ℕ → AddrInfo
dram_page nvram d s i = if ltb i d then s.found_addrs (nvram + 1 + i) else s.backup_addrs (i - d)

-- `t` holds the first `count` pages of each tier of `s`, with the separator between them.
pub record Layout (nvram d count : ℕ) (s t : Search) : Type 0 where
  pub total : t.n_found ≡ 2 * count + 1
  pub before : (i : ℕ) → i < count → t.found_addrs i ≡ nvram_page nvram s i
  pub separator : (t.found_addrs count).pid_retval ≡ pos 0
  pub behind : (i : ℕ) → i < count → t.found_addrs (count + 1 + i) ≡ dram_page nvram d s i

-- No copying: there are as many of one tier as of the other.
even-Layout :
    (nvram d : ℕ) (s : Search)
    → d ≡ nvram
    → s.n_found ≡ nvram + 1 + d
    → (s.found_addrs nvram).pid_retval ≡ pos 0
    → Layout nvram d nvram s s
even-Layout nvram d s e total sep = record {
  total = omega arith;
  before = λ i l. ground arith;
  separator = sep;
  behind = λ i l. ground arith;
}

none-Layout :
    (nvram d : ℕ) (s : Search)
    → Layout nvram d 0 s (record (put_found_retval s 0 (pos 0)) { n_found = 1 })
none-Layout nvram d s = record {
  total = refl;
  before = λ i l. absurd (omega arith);
  separator = ground arith;
  behind = λ i l. absurd (omega arith);
}

add_nvram-Layout :
    (nvram d : ℕ) (s : Search)
    → nvram < d
    → Layout nvram d (min d (nvram + s.n_switch_backup)) s (add_nvram nvram d s)
unfolding add_nvram int_min
add_nvram-Layout nvram d s less =
    let to_add = pos_part (int_min (pos s.n_switch_backup) (pos (d - nvram))) in
    let c = min d (nvram + s.n_switch_backup) in
    let exact : nvram + to_add ≡ c = ground arith in
    let moved = copy_down (nvram + to_add) (nvram + 1) (nvram + 1 + to_add) s in
    let filled = fill_nvram to_add 0 nvram moved in
    let same = copy_down-SameBackups (nvram + to_add) (nvram + 1) (nvram + 1 + to_add) s in
    record {
      total = omega arith;
      before = λ i l.
          let down =
            copy_down-found (nvram + to_add) (nvram + 1) (nvram + 1 + to_add) s i (omega arith) in
          let fill = fill_nvram-found to_add 0 nvram moved i in ground (arith, same.switch_backup);
      separator = ground arith;
      behind = λ i l.
          let j = c + 1 + i in
          let down =
            copy_down-found (nvram + to_add) (nvram + 1) (nvram + 1 + to_add) s j (omega arith) in
          let fill = fill_nvram-found to_add 0 nvram moved j in ground arith;
    }

n_found-drop_nvram :
    (nvram d : ℕ) (s : Search) → (drop_nvram nvram d s).n_found ≡ d + s.n_backup + 1 + d
unfolding drop_nvram
n_found-drop_nvram nvram d s = refl

drop_nvram-backup :
    (nvram d : ℕ) (s : Search) → (drop_nvram nvram d s).backup_addrs ≡ s.backup_addrs
unfolding drop_nvram
drop_nvram-backup nvram d s =
    let marked = put_found_retval s (d + s.n_backup) (pos 0) in
    (copy_up-SameBackups d 0 (nvram + 1) (d + s.n_backup + 1) marked).backup

drop_nvram-found :
    (nvram d : ℕ) (s : Search) (j : ℕ)
    → d + s.n_backup < nvram
    → s.n_found ≡ nvram + 1 + d
    → let kept = d + s.n_backup in
      (j < kept → (drop_nvram nvram d s).found_addrs j ≡ s.found_addrs j)
      × (((drop_nvram nvram d s).found_addrs kept).pid_retval ≡ pos 0)
      × ((i : ℕ)
          → i < d
          → (drop_nvram nvram d s).found_addrs (kept + 1 + i) ≡ s.found_addrs (nvram + 1 + i))
unfolding drop_nvram
drop_nvram-found nvram d s j few total =
    let kept = d + s.n_backup in
    let marked = put_found_retval s kept (pos 0) in
    (
      λ l. let up = copy_up-found d 0 (nvram + 1) (kept + 1) marked j (omega arith) in ground arith,
      let up = copy_up-found d 0 (nvram + 1) (kept + 1) marked kept (omega arith) in ground arith,
      λ i l.
          let up = copy_up-found d 0 (nvram + 1) (kept + 1) marked (kept + 1 + i) (omega arith) in
          ground arith,
    )

module _ (k : Kernel) where
  -- Enough DRAM pages in the backup: they go behind those found.
  add_dram-enough :
      (nvram d : ℕ) (s : State k.Space)
      → d < nvram
      → nvram - d ≤ s.n_backup
      → s.n_found ≡ nvram + 1 + d
      → (s.found_addrs nvram).pid_retval ≡ pos 0
      → Layout nvram d nvram s.search (add_backups k (nvram - d) 0 s).search
  add_dram-enough nvram d s less enough total sep = record {
    total = omega (arith, n_found-add_backups k (nvram - d) 0 s);
    before = λ i l. let added = add_backups-found k (nvram - d) 0 s i in ground arith;
    separator = let added = add_backups-found k (nvram - d) 0 s nvram in ground arith;
    behind = λ i l. let added = add_backups-found k (nvram - d) 0 s (nvram + 1 + i) in ground arith;
  }

  -- Too few: NVRAM pages are dropped too.
  add_dram-few :
      (nvram d : ℕ) (s : State k.Space)
      → d + s.n_backup < nvram
      → s.n_found ≡ nvram + 1 + d
      → Layout nvram d
          (d + s.n_backup)
          s.search
          (add_backups k s.n_backup 0 (record s { search = drop_nvram nvram d s.search })).search
  add_dram-few nvram d s few total =
      let s' : State k.Space = record s { search = drop_nvram nvram d s.search } in
      let end : s'.n_found ≡ d + s.n_backup + 1 + d = n_found-drop_nvram nvram d s.search in
      let same = drop_nvram-backup nvram d s.search in
      record {
        total = omega (arith, n_found-add_backups k s.n_backup 0 s', end);
        before = λ i l.
            let added = add_backups-found k s.n_backup 0 s' i in
            let kept = (drop_nvram-found nvram d s.search i few total).0 l in ground arith;
        separator =
            let added = add_backups-found k s.n_backup 0 s' (d + s.n_backup) in
            let sep = (drop_nvram-found nvram d s.search 0 few total).1 in ground arith;
        behind = λ i l. elim (Bool-cases (ltb i d)) [
          | inl found ↦
              let added = add_backups-found k s.n_backup 0 s' (d + s.n_backup + 1 + i) in
              let moved = (drop_nvram-found nvram d s.search 0 few total).2 i (ground arith) in
              ground arith
          | inr backed ↦
              let added = add_backups-found k s.n_backup 0 s' (d + s.n_backup + 1 + i) in
              ground arith
        ];
      }

  add_dram-Layout :
      (nvram d : ℕ) (s : State k.Space)
      → d < nvram
      → s.n_found ≡ nvram + 1 + d
      → (s.found_addrs nvram).pid_retval ≡ pos 0
      → Layout nvram d (min nvram (d + s.n_backup)) s.search (add_dram k nvram d s).search
  unfolding add_dram
  add_dram-Layout nvram d s less total sep = elim (Bool-cases (ltb s.n_backup (nvram - d))) [
    | inl few ↦
        let e : min nvram (d + s.n_backup) ≡ d + s.n_backup = ground arith in
        rw (few, e) (add_dram-few nvram d s (ground arith) total)
    | inr enough ↦
        let e : min nvram (d + s.n_backup) ≡ nvram = ground arith in
        rw (enough, e) (add_dram-enough nvram d s less (ground arith) total sep)
  ]

  pub balance-Layout :
      (nvram d : ℕ) (s : State k.Space)
      → s.n_found ≡ nvram + 1 + d
      → (s.found_addrs nvram).pid_retval ≡ pos 0
      → Layout nvram d
          (balanced k nvram d s.n_backup s.n_switch_backup)
          s.search
          (balance k nvram s).search
  unfolding balance
  balance-Layout nvram d s total sep =
      let count : s.n_found - nvram - 1 ≡ d = omega arith in
      rw count (elim (Bool-cases (d == nvram)) [
        | inl same ↦ rw same (even-Layout nvram d s.search (ground arith) total sep)
        | inr differ ↦ elim (Bool-cases (ltb d nvram && ltb 0 s.n_backup)) [
          | inl few ↦ rw (differ, few) (add_dram-Layout nvram d s (ground arith) total sep)
          | inr not_few ↦ elim (Bool-cases (ltb nvram d && ltb 0 s.n_switch_backup)) [
            | inl many ↦
                rw (differ, not_few, many) (add_nvram-Layout nvram d s.search (ground arith))
            | inr not_many ↦ rw (differ, not_few, not_many) (none-Layout nvram d s.search)
          ]
        ]
      ])
