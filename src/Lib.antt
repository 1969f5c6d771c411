-- ===== src/Lib.antt =====
-- GraceOS: memory, pipes, processes, jobs, security and network of the kernel, the calendar of the C
-- library and the history of the shell.
--
-- The physical memory manager (kernel/mm/pmm) keeps a bitmap with a bit per frame and counters; the
-- kernel heap (kernel/mm/kheap.c) reserves a range of it and keeps a chain of blocks there. Handles of
-- segments (kernel/mm/sasy/handle.c) are a table of slots, pipes (kernel/proc/pipe.c) a table of rings.
-- The process subsystem (kernel/proc) keeps the PCBs in a table by identifier, and those that can run in
-- a doubly linked run queue from which the scheduler picks; the timer tick ages the queue and wakes
-- sleepers; exit and termination make zombies, which init reaps or parents collect
-- (kernel/proc/wait.c); jobs (kernel/proc/job.c) signal the processes of a session. Rights are decided
-- twice: by the capabilities and doas rules of processes (kernel/proc/security.c), and by the policy
-- manager's table of users and entries (kernel/spm). The network stack (kernel/net) passes a segment of a
-- TCP connection down through IPv4, which asks ARP for the hardware address, to a frame for the device,
-- and a frame of the device up to the connection. The calendar (lib/libc/time.c) and the history
-- (userland/shell/history.c) stand alone.
--
-- Prelude         lists, Booleans, words of 8, 16, 32 and 64 bits, signed integers, memories
-- Text            lib/libc/string.c: strings without their terminator, comparison and bounded copy
-- Mm.Bitmap       kernel/mm/pmm/bitmap.c: `bitmap` is a list of bytes, `frames` a field
-- Mm.Pmm          kernel/mm/pmm/pmm.c: the static variables are the record Pmm
-- Mm.Kheap        kernel/mm/kheap.c: headers and footers are memories by address; IsHeap says which
--                 list of blocks they hold
-- Mm.Handle       kernel/mm/sasy/handle.c: the table is a function from slots to handles
-- Proc.Pipe       kernel/proc/pipe.c: the table is a function from slots to pipes
-- Proc.Kernel     kernel/proc/proc.h, sched.h: a `process_t*` is an address, 0 is NULL; the PCBs are a
--                 memory in the record Kernel, with the static variables of table.c and sched.c
-- Proc.Queue      kernel/proc/sched.c: sched_add and sched_remove; IsQueue says which list the links hold
-- Proc.Table      kernel/proc/table.c: identifiers, lookups and reparenting
-- Proc.Sched      kernel/proc/sched.c: the score, the choice, the switch, block and unblock
-- Proc.Timer      kernel/proc/sched.c and table.c: the tick, the sleepers, priorities
-- Proc.Life       kernel/proc/proc.c and zombie.c: creation, exit, termination, reaping
-- Proc.Wait       kernel/proc/wait.c: the search for an ended child, the status word
-- Proc.Job        kernel/proc/job.c: the job table, signals to processes and sessions
-- Proc.Security   kernel/proc/security.c: capabilities, doas rules, identities
-- Net.Ethernet    kernel/net/net.h, ethernet/ethernet.c: devices, frames, fields in network order
-- Net.Arp         kernel/net/arp/arp.c: the cache is a function from slots to entries
-- Net.Checksum    kernel/net/ip/ipv4.c: the checksum
-- Net.Ipv4        kernel/net/ip/ipv4.c: packets as lists of bytes
-- Net.Icmp        kernel/net/icmp/icmp.c: echo requests and replies
-- Net.Tcp         kernel/net/tcp/tcp.c: the connection, its ring and its handler of segments; Connect has
--                 tcp_connect, Wire the segments as bytes down to the device and up from it
-- Net.Http        kernel/net/http/http_client.c: the decoder of chunked bodies, with a sink as argument
-- Spm             kernel/spm/spm.c: users, passwords, capability entries, patterns
-- Time            lib/libc/time.c: gmtime_r and mktime, for times from 1970 on
-- History         userland/shell/history.c: the ring of commands; Holds says which list is in it
--
-- A definition has the name of the function that it models. A handler takes the state and returns it,
-- with its result in front where it has one. Unsigned arithmetic wraps where the source can wrap;
-- signed arithmetic is exact, for an overflow is undefined in C. What comes from outside, such as the
-- time, the address of a new PCB, the frames of the network, the fallback allocator's page and the boot
-- information, is an argument.
--
-- Loops over tables count down over the number of entries. The walks along the run queue take fuel
-- 8193, one more than there can be processes, and return `none` when it runs out; the theorems about
-- them show that it does not. The walks along the heap take as much fuel as the heap has bytes, and one
-- more; the loop of `gmtime_r` over the years takes one more than there are days: a block has a byte and
-- a year has a day. A checksum folds its carries in three rounds, which are enough for 32 bits;
-- the chunk decoder takes two turns for a byte, and one more. `ctx_switch` is where a step of the
-- scheduler ends: what follows is a step of the process that was switched to, with `schedule_resume` if
-- it left the CPU there before. `gmtime_r` is the code's for times of fewer
-- than 2^31 days, which its `int` holds.
--
-- Not modelled: the spin locks (each operation is one step), the log messages, the names, contexts
-- and stacks of the processes, page tables, drivers, boot code, the rest of the HTTP client, the waits
-- of the network stack by the clock (what arrives during them is an argument) and segments received
-- while a send resolves an address, the formatting of times, the other user programs, and the vendored
-- audio decoder.
pub mod History
pub mod Mm
pub mod Net
pub mod Prelude
pub mod Proc
pub mod Spm
pub mod Text
pub mod Time
