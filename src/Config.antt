-- ===== src/Config.antt =====
-- src/ambix.h: the limits, the structures that module and controller exchange, and the helpers
-- `int_min` and `contains`. Sizes are those of a 64-bit build, where an `addr_info_t` takes 16
-- bytes: `addr` at offset 0, `pid_retval` at offset 8, and 4 bytes of padding.
use ambix.Base.{
  ℕ, ◌-◌, ◌*◌, ◌/◌, Bool, true, false, List, [], ◌∷◌, ℤ, pos, ◌==ℤ◌, ◌==◌, ltb_ℤ, if◌then◌else◌,
}

abbrev pub max_pids : ℕ
max_pids = 500

abbrev pub max_pid_n : ℕ
max_pid_n = 2147483647

abbrev pub dram_mode : ℤ
dram_mode = pos 0

abbrev pub nvram_mode : ℤ
nvram_mode = pos 1

abbrev pub nvram_intensive_mode : ℤ
nvram_intensive_mode = pos 2

abbrev pub switch_mode : ℤ
switch_mode = pos 3

abbrev pub nvram_clear : ℤ
nvram_clear = pos 4

abbrev pub nvram_write_mode : ℤ
nvram_write_mode = pos 5

abbrev pub find_op : ℤ
find_op = pos 0

abbrev pub bind_op : ℤ
bind_op = pos 1

abbrev pub unbind_op : ℤ
unbind_op = pos 2

abbrev pub max_payload : ℕ
max_payload = 4096

abbrev pub max_packets : ℕ
max_packets = 512

abbrev pub sizeof_addr_info : ℕ
sizeof_addr_info = 16

abbrev pub max_n_per_packet : ℕ
max_n_per_packet = max_payload / sizeof_addr_info

-- `MAX_N_PER_PACKET * MAX_PACKETS - 1`
abbrev pub max_n_find : ℕ
max_n_find = max_n_per_packet * max_packets - 1

-- `(MAX_N_FIND - 1) / 2`, with the macro `MAX_N_FIND` put in as text
abbrev pub max_n_switch : ℕ
max_n_switch = (max_n_per_packet * max_packets - 1 - 1) / 2

-- `0xFFFF880000000000UL`
abbrev pub max_address : ℕ
max_address = 0xFFFF880000000000

-- `addr_info_t`
pub record AddrInfo : Type 0 where
  pub addr : ℕ
  pub pid_retval : ℤ

-- `req_t`
pub record Req : Type 0 where
  pub op_code : ℤ
  pub pid_n : ℤ
  pub mode : ℤ

unfoldable pub int_min : ℤ → ℤ → ℤ
int_min val1 val2 = if ltb_ℤ val2 val1 then val2 else val1

abbrev pub dram_nodes : List ℕ
dram_nodes = 0 ∷ []

abbrev pub nvram_nodes : List ℕ
nvram_nodes = 2 ∷ []

-- The loop of `contains` over one of the node arrays.
abbrev pub find_node : List ℕ → ℕ → Bool
find_node [] value = false
find_node (node ∷ nodes) value = if node == value then true else find_node nodes value

unfoldable pub contains : ℕ → ℤ → Bool
contains value mode = find_node (if mode ==ℤ nvram_mode then nvram_nodes else dram_nodes) value
