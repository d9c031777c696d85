-- ===== src/Lib.antt =====
-- Ambix places the pages of bound processes on a machine with DRAM and non-volatile memory. A kernel
-- module (src/ambix_hyb-mod.c) keeps the list of bound processes and, on request, walks their page
-- tables for pages to move. A controller in user space (src/ambix_hyb-ctl.c) sends the requests over
-- netlink, stores the answer and moves the pages. Both share src/ambix.h. The development models the
-- module from its load to its replies, and the controller's requests, migrations and commands.
--
-- - Config: src/ambix.h. The limits, `addr_info_t` (`AddrInfo`), `req_t` (`Req`), `int_min`,
--   `contains`.
-- - Kernel: what the module takes from Linux, as parameters: entries and their accessors, the range
--   of entries that `walk_page_range` visits, the process table. `PteLaws` is the documented meaning
--   of `pte_mkold` and `pte_mkclean`; `TableLaws`, in Kernel.Tables, that of page tables.
-- - Placement.State: the module's globals, in the records `Pids` and `Search`; the field `fault`
--   records a write outside the allocated arrays or an access through a null pointer.
-- - Placement.Pids: `find_target_process`, `update_pid_list`, `refresh_pids`, `bind_pid`,
--   `unbind_pid`. View and Binding relate them to the list of bound processes; Invariant is about
--   well-formedness.
-- - Placement.Callbacks: the six `pte_callback_*`; they take the address space, the address, the
--   entry and the state.
-- - Placement.Walk: `do_page_walk`, `mem_walk`, `clear_walk`. Bounds and Memory are about the arrays,
--   Selection and FirstFit about which pages are found in a range, TopUp about the backup candidates,
--   Keeps, Named and Answer about the pids of the pages found, Clear about the clearing walk, Negative
--   about negative counts. Offers says which pages one cycle over the processes comes by. Alike and
--   Likeness (the page tables keep offering the same pages), Visit and Cycle (a rule for what a walk
--   does with them), Tally (what it finds), Backs and Backup (what it backs up), Walked and Demand
--   relate to it what a walk over several processes leaves.
-- - Placement.Switch: `switch_walk`, whose branches are the functions `add_dram`, `drop_nvram` and
--   `add_nvram`. Bounds and Balance are about the arrays, Copies and Layout about where the pages lie,
--   Answer about their pids, Spared, Walks and Demand about which pages they are.
-- - Placement.Request, Placement.Reply: `process_req` and `placement_nl_process_msg`.
-- - Placement.Lifecycle: `_on_module_init`, and the states reached by steps of requests and of the
--   running system.
-- - Netlink: the messages that pass between module and controller.
-- - Controller.Comm: `send_req`, `send_bind`, `send_unbind` and the counting loop of `send_find`, for
--   any answer of the module.
-- - Controller.Migration, Controller.Switch: `free_space_pages`, `do_migration`, `do_switch` and
--   `send_find`, over a system (`Os`) that knows the free bytes of a node and moves pages. Migrated,
--   Switched, Exchange, Restart and Find are about what they do, Bind about a bind or unbind through to
--   the module and back.
-- - Controller.Searched, Controller.Counted, Controller.Demanded, Controller.Exchanged: what a FIND
--   brings from the module to the migration. Controller.Buffers: the sizes of the controller's buffers.
-- - Controller.Memcheck: `check_memdata`, the free space of the tiers, and in Round
--   `memcheck_placement`. The system (`Sys`), the arithmetic on floating-point numbers (`Floats`, with
--   `FloatLaws` for what it documents) and `send_find` are parameters. Finds, Counts and Keeps are
--   about the FINDs that it sends; Joint puts the module beneath it.
-- - Controller.Threads: the threads that `main` starts, with `comm_lock`, `placement_lock` and
--   `exit_sig`, as a step relation; the clients of the socket send as many requests as they like. Locks
--   is about the owners of the locks, Exit about the end.
-- - Controller.Commands, Controller.Socket: `process_stdin`, with `strtok` and `strtol` as parameters,
--   and `process_socket` with the clients' `bind_uds` and `unbind_uds` (src/ambix-client.c), as the
--   calls that they make. Calls is about the former.
-- - MixM: the variant of the module in src/ambix-MixM/ambix_MixM-mod.c, where it differs from the hybrid
--   one: the callbacks, the page walk without a test for a missing address space, and the bound of the
--   list of processes. Selection is about the pages found, Same compares the page walks. MixM.Memcheck is
--   about its controller (src/ambix-MixM/ambix_MixM-ctl.c), as far as that differs: the thresholds, the
--   command `set`, and `memcheck_placement`, with Finds, Keeps and Negative about the FINDs it sends.
-- - ClockDwf: the policy that Ambix is compared with: the callbacks, walks and requests of its module
--   (tests/clock-dwf/clockdwf-mod.c), and in Migration `do_migration`, `do_switch` and `send_find` of
--   its controller (tests/clock-dwf/clockdwf-ctl.c). Counts is about how many pages the walks find,
--   Stale about the end of its switch walk, Answers about what is sent back, Groups, Moves and Migrated
--   about the migration, Finds about `send_find` over the module.
-- - Placement.Machine, Placement.Paged: two small machines; the modules whose names end in Tests: the
--   theorems on them and on other inputs.
--
-- Loops are recursion on the number of rounds that the code's bounds leave. Fuel stands in these
-- places: `refresh_from` gets one round for each slot, since a round moves on or drops a slot;
-- `move_groups` one more than the pages of the plan, since a group has at least a page; `switch_rounds` two
-- more than the pages of both tiers, since a round processes a page or is the last; and
-- `count_candidates` one for each entry that an answer can hold. In ClockDwf `put_packets` gets one for
-- each entry, `group_end` and `migrate_groups` one more than the candidates. The results about
-- `refresh_pids`, `do_migration`, `do_switch` and `send_find` hold with that fuel.
--
-- The rounds of `memcheck_placement` are a parameter, since its loop ends only with `exit_sig`.
--
-- Not modelled: the module's locks (it handles one request at a time), messages to the log, failing
-- allocations, the socket layer, the bytes of the socket buffer, the release of memory. Of the
-- controller, the set-up of the sockets in `main` is left out, as are the programs round the client
-- library, the rest of the variant in src/ambix-MixM, of the policy in tests/clock-dwf the loops that call
-- `send_find`, its command line and its socket, and the copies of Intel PCM in src/pcm-mod and
-- src/ambix-MixM/pcm-mod, which are a library of others. The threads are modelled by their locks and the
-- condition of their loops, on the assumption that each system call returns; what they do in between is
-- in the other modules. Reads of the module's arrays are not recorded, the copy into the socket buffer
-- included, nor a command `set` that comes between two reads of a threshold in one step.
pub mod Base
pub mod Config
pub mod Kernel
pub mod Placement
pub mod Netlink
pub mod Controller
pub mod MixM
pub mod ClockDwf
