-- ===== src/Placement/ListTests.antt =====
-- The theorems on the lists that the walks leave, on concrete inputs.
use ambix.Base.{◌+◌, ◌≡◌, refl, ◌++◌, leb, ◌==◌, pos, negsuc, if◌then◌else◌, arith, take}
use ambix.Placement.State.{State}
use ambix.Placement.Machine.{machine, Table, blank, running}
use ambix.Placement.Tests.{entry}
use ambix.Placement.Walk.{top_up}
use ambix.Placement.Walk.Selection.{found_list}
use ambix.Placement.Walk.TopUp.{backup_list, top_up_lem}
use ambix.Placement.Switch.{balance}
use ambix.Placement.Switch.Bounds.{balanced}
use ambix.Placement.Switch.Layout.{Layout, balance-Layout}

-- One page of three is found, and one is backed up.
abbrev one_of_three : State Table
one_of_three = record (running (pos 3)) {
  search = record (running (pos 3)).search {
    found_addrs = entry;
    n_found = 1;
    backup_addrs = entry;
    n_backup = 1;
  };
}

topped_up :
    (found_list machine (top_up machine one_of_three).1
      ≡ take 3 (found_list machine one_of_three ++ backup_list machine one_of_three))
    × ((top_up machine one_of_three).0 ≡ (if leb 3 (1 + 1) then pos 0 else negsuc 0))
topped_up = top_up_lem machine 3 one_of_three refl (omega arith)

-- Two pages of NVRAM, the separator, and one page of DRAM with another backed up.
abbrev two_and_one : State Table
two_and_one = record (running (pos 5)) {
  search = record (running (pos 5)).search {
    found_addrs = λ i. if i == 2 then blank i else entry i;
    n_found = 4;
    backup_addrs = λ i. entry (i + 10);
    n_backup = 1;
  };
}

balance-Layout_example :
    Layout 2 1 (balanced machine 2 1 1 0) two_and_one.search (balance machine 2 two_and_one).search
balance-Layout_example = balance-Layout machine 2 1 two_and_one refl refl
