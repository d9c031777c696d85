-- ===== src/Placement/Switch/Copies.antt =====
-- What the copying loops of `switch_walk` write, entry by entry.
use ambix.Base.{ℕ, zero, suc, ◌+◌, ◌-◌, ◌≤◌, ◌≡◌, refl, ◌∙◌, if◌then◌else◌, arith, ltb, leb, ◌&&◌}
use ambix.Placement.State.{Search, put_found}
use ambix.Placement.Switch.{copy_up, copy_down, fill_nvram}

-- Moving entries to lower indices, the lowest first.
pub copy_up-found :
    (rounds i old new : ℕ) (s : Search) (j : ℕ)
    → new ≤ old
    → (copy_up rounds i old new s).found_addrs j ≡ (
        if leb (new + i) j && ltb j (new + i + rounds)
        then s.found_addrs (old + (j - new))
        else s.found_addrs j)
unfolding copy_up
copy_up-found zero i old new s j h = ground arith
copy_up-found (suc rounds) i old new s j h =
    let s' = put_found s (new + i) (s.found_addrs (old + i)) in
    ground (arith, copy_up-found rounds (i + 1) old new s' j h)

-- Moving entries to higher indices, the highest first.
pub copy_down-found :
    (rounds old new : ℕ) (s : Search) (j : ℕ)
    → old ≤ new
    → (copy_down rounds old new s).found_addrs j ≡ (
        if leb new j && ltb j (new + rounds)
        then s.found_addrs (old + (j - new))
        else s.found_addrs j)
unfolding copy_down
copy_down-found zero old new s j h = ground arith
copy_down-found (suc rounds) old new s j h =
    let s' = put_found s (new + rounds) (s.found_addrs (old + rounds)) in
    ground (arith, copy_down-found rounds old new s' j h)

pub fill_nvram-found :
    (rounds i at : ℕ) (s : Search) (j : ℕ)
    → (fill_nvram rounds i at s).found_addrs j ≡ (
        if leb at j && ltb j (at + rounds)
        then s.switch_backup_addrs (i + (j - at))
        else s.found_addrs j)
unfolding fill_nvram
fill_nvram-found zero i at s j = ground arith
fill_nvram-found (suc rounds) i at s j =
    let s' = put_found s at (s.switch_backup_addrs i) in
    ground (arith, fill_nvram-found rounds (i + 1) (at + 1) s' j)

-- The arrays of backups, which copying leaves alone.
pub record SameBackups (s t : Search) : Type 0 where
  pub backup : t.backup_addrs ≡ s.backup_addrs
  pub switch_backup : t.switch_backup_addrs ≡ s.switch_backup_addrs

SameBackups-trans : (s t u : Search) → SameBackups s t → SameBackups t u → SameBackups s u
SameBackups-trans s t u a b = record {
  backup = b.backup ∙ a.backup;
  switch_backup = b.switch_backup ∙ a.switch_backup;
}

pub copy_up-SameBackups :
    (rounds i old new : ℕ) (s : Search) → SameBackups s (copy_up rounds i old new s)
unfolding copy_up
copy_up-SameBackups zero i old new s = record { backup = refl; switch_backup = refl }
copy_up-SameBackups (suc rounds) i old new s =
    let ih =
      copy_up-SameBackups rounds (i + 1) old new
        (put_found s (new + i) (s.found_addrs (old + i))) in
    record { backup = ih.backup; switch_backup = ih.switch_backup }

pub copy_down-SameBackups :
    (rounds old new : ℕ) (s : Search) → SameBackups s (copy_down rounds old new s)
unfolding copy_down
copy_down-SameBackups zero old new s = record { backup = refl; switch_backup = refl }
copy_down-SameBackups (suc rounds) old new s =
    let ih =
      copy_down-SameBackups rounds old new
        (put_found s (new + rounds) (s.found_addrs (old + rounds))) in
    record { backup = ih.backup; switch_backup = ih.switch_backup }
