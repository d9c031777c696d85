-- ===== src/Placement/Request.antt =====
-- src/ambix_hyb-mod.c: `process_req`, the handler of one request.
pub mod Bounds
use ambix.Base.{ℕ, ◌+◌, ◌||◌, Option, none, some, ℤ, pos, negsuc, ltb, ◌==ℤ◌, if◌then◌else◌}
use ambix.Config.{
  Req, int_min, find_op, bind_op, unbind_op, dram_mode, nvram_mode, nvram_intensive_mode,
  nvram_write_mode, nvram_clear, switch_mode, max_n_find, max_n_switch,
}
use ambix.Kernel.{Kernel, Processes}
use ambix.Placement.State.{State, Pids, put_found_retval}
use ambix.Placement.Pids.{refresh_pids, bind_pid, unbind_pid}
use ambix.Placement.Walk.{mem_walk, clear_walk}
use ambix.Placement.Switch.{switch_walk}

module _ (k : Kernel) where
  abbrev pub with_pids : ℤ × Pids → State k.Space → ℤ × State k.Space
  with_pids (ret, p) s = (ret, record s { pids = p })

  -- The inner `switch (req->mode)`.
  unfoldable pub find_pages : Req → State k.Space → ℤ × State k.Space
  find_pages req s =
      if req.mode ==ℤ dram_mode
        || req.mode ==ℤ nvram_mode
        || req.mode ==ℤ nvram_write_mode
        || req.mode ==ℤ nvram_intensive_mode
      then mem_walk k (int_min (pos max_n_find) req.pid_n) req.mode s
      else if req.mode ==ℤ nvram_clear
      then (negsuc 0, clear_walk k s)
      else if req.mode ==ℤ switch_mode
      then switch_walk k (int_min (pos max_n_switch) req.pid_n) s
      else (negsuc 0, s)

  -- The outer `switch (req->op_code)`.
  unfoldable pub dispatch : Processes → Req → State k.Space → ℤ × State k.Space
  dispatch ps req s =
      if req.op_code ==ℤ find_op
      then (let s' = record s { pids = refresh_pids ps s.pids } in
          if ltb 0 s'.n_pids then find_pages req s' else (negsuc 0, s'))
      else if req.op_code ==ℤ bind_op
      then with_pids (bind_pid ps req.pid_n (refresh_pids ps s.pids)) s
      else if req.op_code ==ℤ unbind_op
      then (let r = unbind_pid req.pid_n s.pids in with_pids (r.0, refresh_pids ps r.1) s)
      else (negsuc 0, s)

  -- `found_addrs[n_found++].pid_retval = ret;`
  unfoldable pub put_result : ℤ × State k.Space → State k.Space
  put_result (ret, s) = record s {
    search = record (put_found_retval s.search s.n_found ret) { n_found = s.n_found + 1 };
  }

  unfoldable pub process_req : Processes → Option Req → State k.Space → State k.Space
  process_req ps req s =
      let s' = record s { search = record (s.search) { n_found = 0 } } in
      elim req [ none ↦ put_result (negsuc 0, s') | some r ↦ put_result (dispatch ps r s') ]
