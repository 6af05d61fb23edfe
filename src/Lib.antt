-- ===== src/Lib.antt =====
-- A model of chaosblade-exec-os, the executors of chaos experiments on a machine.
--
-- Each executor gets a context, which says whether the experiment is made or destroyed, and a map of
-- flags, and runs commands on a channel: `tc`, `iptables`, `kill`, `sed`, `date` and so on. It checks
-- its flags, runs commands that change the machine, and undoes them when it fails or is destroyed.
--
-- The channel and the packages `spec` and `util` of chaosblade-spec-go are not part of the
-- repository: Channel.antt has them as a record `Env` of answers and functions with the laws that the
-- code relies on. An answer may depend on all calls so far, which are kept as a trace, so an
-- execution is a function from a trace to an outcome: it returns, panics (a failed type assertion)
-- or hangs (a loop that does not end). Results of responses are texts or nil. Calls of the logger are
-- left out.
--
-- Which file models which part:
--   Prelude, Go: what all parts share, and what the code takes from Go: texts (Go/Strings), numbers
--     as texts (Go/Strconv), 64-bit arithmetic (Go/Int64), bits (Go/Bits), paths (Go/Path), and the
--     operations of float64 as a parameter (Go/Floats).
--   Ports: the port functions of exec/network/tc/network_tc.go. Ports/Parse is
--     parseIntegerListToPortRanges, Ports/Ranges is portSetToPortRanges, Ports/Masks is
--     buildMaskForRange.
--   Exec: exec/exec.go, Destroy and CheckFilepathExists.
--   Network/Tc: startNet, stopNet and what they call. Filters has the texts of the filters, Queue the
--     commands on the queue of a device, Peers getPeerPorts and getExcludePortRanges, Start the stages
--     of startNet, Actions the executors of network_delay.go, network_loss.go, network_duplicate.go,
--     network_corrupt.go and network_reorder.go. Total, Safety and Hang hold proofs; Packets has
--     the filter commands as data, what `tc` does by them, and the packets that an experiment is
--     meant for.
--   Network/Drop: exec/network/network_drop.go. Network/Dns: exec/network/network_dns.go and
--     network_dnsdown.go. Network/Occupy: exec/network/network_occupy.go.
--   Process: exec/process/process.go, process_kill.go, process_stop.go; Process/Load is
--     process_load.go.
--   Script: exec/script/script.go, script_delay.go, script_exit.go; Script/Store is the interface to
--     the files they work on.
--   Time: exec/time/time_travel.go. File: exec/file/file_add.go, file_delete.go, file_move.go and
--     file_chmod.go. File/Append is file_append.go, with parseDate and parseRandom in File/Template.
--     Systemd: exec/systemd/systemd_stop.go.
--   Memory: exec/mem/mem_linux.go and mem_cgroup_v2.go; Memory/Load is mem.go, with the loops as
--     numbers of ticks. Disk/Fill and Disk/Burn: exec/disk/disk_fill.go and disk_burn.go, the
--     goroutines of which are steps in the order of a schedule. Cpu: exec/cpu/cpu.go, and the reading
--     of cpu.stat in cpu_linux.go. Kernel: exec/kernel/kernel_delay.go and kernel_error.go.
--   Remote: exec/executor_ssh.go. Program: main.go and the common flags of exec/model/model.go.
--   Tests: concrete channels, and the theorems at concrete inputs.
--
-- Bounds and fuel: an int has 64 bits. The search for the lowest bit in buildMaskForRange has fuel
-- 64, the bits of an int; the loop that widens a mask has 65, since it ends when the block passes the
-- length of the number; the loop over the masks has one round more than there are ports, since each
-- round passes one port at least. A port printed by `ss` that is negative stands for its 64 bits,
-- so it comes last where the code has it first; `ss` prints none. Sums in buildMaskForRange do not
-- wrap in the model, which is the code's behaviour for ports below 2 ^ 62.
-- Numbers are printed with 20 digits at most. Loops that wait for a ticker, and goroutines, are
-- given a number of ticks, rounds or a schedule of steps: what is shown of them holds for each.
--
-- Not modelled: what the commands do to the machine, but for the laws that Network/Drop/Rules,
-- Script/Store, File/Append/Restored and Memory/Reserve state; replaceApplier of network_dns.go, which
-- works by a package for the hosts file; getUsed of cpu_linux.go, which asks other packages, and the
-- busy loop of the burning; the file oom_adj that mem.go writes; the sizes on macOS; connections of
-- ssh, and the channel nsexec; pkg/automaxprocs, a copy of another library, whose answers are
-- parameters; the tables of flags and help texts.
pub mod Prelude
pub mod Go
pub mod Ports
pub mod Channel
pub mod Exec
pub mod Network
pub mod Process
pub mod Script
pub mod Time
pub mod File
pub mod Systemd
pub mod Memory
pub mod Disk
pub mod Cpu
pub mod Kernel
pub mod Program
pub mod Remote
pub mod Tests
