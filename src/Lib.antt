-- ===== src/Lib.antt =====
-- CarrotOS, a 64-bit kernel in C: a model of its core and the theorems on it.
--
-- The kernel is a set of headers included into one program. Its timer interrupt
-- (core/interrupt.h) drives a table of threads (core/scheduler.h); the terminals, the sockets and
-- the network card hand their bytes over through ring buffers (libs/mem/mem.h); sleeping and
-- waiting threads are woken by the clock (core/time.h).
--
-- Base: shared names, Boolean tests, and C arrays as lists.
-- Fifo: the ring buffers of libs/mem/mem.h. Pointers come in as numbers and go out with the count.
-- Time: core/time.h, whose hardware registers are a parameter `cmos`.
-- Thread: `thread_info_t` and the table `threads_info_ptr` of core/scheduler.h.
-- Memory: the block map of core/scheduler.h and the searches for free blocks and table slots.
-- Paging: the four-level page tables of core/scheduler.h, a store of tables by address.
-- Sync: the sleeping calls of core/scheduler.h and the futex calls of core/ipc/sync.h, up to the
--   yield that ends them, which is a step of Sched.
-- Text: the string routines of libs/string/string.h on lists of characters.
-- Process: `process_info_t` and the table `processes_info_ptr` of core/scheduler.h.
-- User: core/user/user.h, the identity calls, the lines of the password file and the access tests.
-- Fat32: core/filesytem/fat32.h on a disk of sectors, with the helpers of
--   core/filesytem/filesystem.h. A disk goes in and comes out; the device is known by the sectors
--   it can read and write.
-- Net: core/network/af_inet. Tuple is how a socket is found, Checksum and Route compute for IPv4,
--   Tcp and Arrive are what tcp.h does with a segment: a step on the table of sockets, with the
--   segments sent and the threads made ready as effects in order, or a fault at a null pointer.
-- Uds: core/network/af_unix. Table holds the tables, Stream and Dgram the calls of each kind,
--   Dispatch sending, accepting, reading and closing; a call that sleeps is two steps.
-- Life: core/scheduler.h, how threads and processes are registered and ended.
-- Signal: core/ipc/signal.h, the handlers in core/interrupt.h that run one, and the signal calls
--   of core/syscall/syscall2.h.
-- Input: core/input. Packet is about the mouse, Key about scan codes and events, Tty and Line
--   about the terminals: what is typed into one and what its readers get.
-- Sched: the timer handlers of core/interrupt.h with `end_thread` of core/scheduler.h. A handler
--   is one step from a kernel state to a state and the thread to run, or to a fault at a null
--   pointer.
--
-- Words of w bits keep their wrap-around as `% 2 ^ w`. Loops over a table are recursion on the
-- table or on the rounds that are left, so none needs spare fuel, but for the digits of a number
-- (20 rounds, since 2 ^ 63 is below 10 ^ 20) and the walks along chains of clusters, which the
-- disk may make endless: their routines take a number of turns and are `none` where it was not
-- enough. So does the search for a free stack when a thread is registered. What the processor
-- pushed, the clock's readings and the address of a local variable are parameters of a step.
--
-- One core runs: the table of threads is not shared with handlers on others. Where a call of
-- `get_continuous_free_blocks` panics for a socket, the call has no result here.
--
-- Not modelled: the assembly, the drivers and the display, which read and write hardware; the
-- program loaders, the listing of a directory, file descriptors and mount points, UDP, ARP and the
-- sending side of TCP, the terminals' graphical mode, shared memory, fork and clone, the page
-- table and the first image of a new process, and the system calls that join these parts.
pub mod Base
pub mod Fifo
pub mod Time
pub mod Thread
pub mod Memory
pub mod Paging
pub mod Sched
pub mod Sync
pub mod Text
pub mod Process
pub mod User
pub mod Fat32
pub mod Net
pub mod Uds
pub mod Life
pub mod Signal
pub mod Input
