-- ===== src/Lib.antt =====
-- vmsim: a simulation of a virtual memory system. A process reads and writes virtual addresses through
-- the MMU (vmsim/mmu.c), which finds the frame of a page in an inverted page table (vmsim/ipt.c); the
-- pages that are not in the main memory are on a disk (vmsim/disk.c), whose free pages a bitmap
-- (util/bitmap.c) records. The free frames are in a queue (util/queue.c) of linked nodes (util/list.c).
--
-- Files and code:
--   Prelude     lists, options and Boolean tests over the native numbers
--   Run         the outcome of C code: a value, or a failed assertion, an access outside an array, an
--               int out of range, a division by zero, a loop out of rounds
--   Int         the int of C, by its 32-bit pattern
--   Types       util/vmsim_types.h
--   Node        util/list.c, on a heap of nodes; `malloc` is a fresh pointer that the caller gives
--   Queue       util/queue.c; Queue/Fifo is the specification, Queue/Linked the form of a queue
--   Ipt         vmsim/ipt.c, one definition per function under the function's name; Ipt/Valid states the
--               invariant and the plain search of the table, Ipt/Chain the hash chains,
--               Ipt/Unlink a chain without one slot
--   Bitmap      util/bitmap.c; Bitmap/Access states the form of a bitmap, Bitmap/Find and Bitmap/First are
--               about the search for a bit
--   Map         util/map.c; Map/Assoc is the specification, Map/Refine the refinement
--   Bytes       `memcpy` on arrays of bytes; Bytes/Frames splits an array into frames of one size
--   Mm          vmsim/mm.c; Mm/Frames states its form
--   Disk        vmsim/disk.c; Disk/Pages states its form, Disk/Blocks and Disk/Process are about the blocks
--               of a process
--   Aging       vmsim/aging_daemon.c; Aging/Order is about the ages
--   Mmu         vmsim/mmu.c; Mmu/Access has the operations that pin a page, Mmu/Valid states the invariant,
--               Mmu/Sync, Mmu/Pinned, Mmu/Transfer and Mmu/Resident are about pages in the memory,
--               Mmu/Alloc, Mmu/Free and Mmu/Block about the map, Mmu/Contents about what the pages hold
--   Prm         vmsim/prm.c; Prm/Oldest is about the choice of the page to swap out, Prm/Swap about swapping
--               out, Prm/Fault about a whole fault, Prm/Pin about `mmu_pin_page` with this handler,
--               Prm/Kept about what the pages hold meanwhile; Prm/Paged states that the MMU with its disk
--               holds a memory, Prm/Transfer is about one access, Prm/Refine about sequences of them
--   Pcb         vmsim/pcb.c and util/pcb_util.c: the table of processes; Pcb/Sim has the memory commands over
--               any memory, Pcb/Decode the decoding of mail; Pcb/Advance, Pcb/Forward and Pcb/Mail are
--               about addresses and mail, Pcb/Reads about reading over any memory, Pcb/Paged and Pcb/Commands
--               about reading and writing over the MMU; Pcb/System states the invariant of the table with the
--               MMU, and Pcb/Create, Pcb/Delete and Pcb/Destroy are about making a process and deleting it;
--               Pcb/Thread has process_func and the loop of the thread around it
--   App         util/app_util.c, which puts the system together and posts the commands; App/Print is what it
--               prints, as values; App/Bits and App/Address are about the split of an address, App/Load about
--               the start, App/Free about the end, App/Request about a command and what the process does
--               with it
--   Text        the functions of the C library that read words and numbers; Text/Decimal is about numbers
--   Ui          vmsim/ui_app.c: the commands, from their lines; Ui/Handler has command_handler, batch files and
--               the main loop; Ui/Line and Ui/Typed are about typed lines, Ui/Batch about batch files,
--               Ui/Session about the main loop
--   Worker      util/worker_thread.c, as steps of the thread and of its client, in any order; Worker/Safety
--               states the invariant, Worker/Stop is about starting and stopping
--   Tests       the theorems at concrete states
--
-- Stateful code takes its state and returns the new one. A loop runs on rounds of fuel: the search of a
-- hash chain has as many as the table has slots, since a chain has each slot at most once; the loop that
-- skips blocks of a bitmap has two more than there are whole blocks; the walk over a queue has one more
-- than its size; a client of the aging daemon waits for one round; a page fault swaps out one page at
-- most, and the thread runs once for each command in its queue; page_shift halves an int 32 times at most;
-- `depth` bounds how deep batch files call each other, which the code does not bound.
--
-- Indices and sizes are natural numbers, and an index below 0 is not modelled. Where an int may be
-- negative or out of range it is a 32-bit pattern (Int): the address of a page on the disk and in the
-- memory, the size of the buffer of sim_read, and the steps and amounts of the commands, which
-- vmsim/ui_app.c reads as unsigned numbers and util/app_util.c passes on as ints with the same pattern. A
-- product or sum that is no int is the fault `overflow`, also for the counters of mmu_stats_t. Whether
-- malloc gives the buffer of sim_read is a field of Memory in Pcb/Sim; the allocations of the messages and
-- of their arguments succeed.
--
-- Freed memory, printing and locking are not modelled: an operation runs as if no other thread changed its
-- state, and a thread that another one waits for runs in its place, by a parameter of the model where that
-- is not one thread: the record World of Ui/Handler. Only Worker has the steps of two threads.
-- `mmu_pin_page` serves a fault through a parameter, which prm.c fills.
--
-- Not modelled: the condition variables, the locks (util/locks.c, which calls the thread library), the start
-- of the thread of a process, the functions that only free, main.c, the log (util/logger.c) and
-- the unit tests.
pub mod Prelude
pub mod Run
pub mod Types
pub mod Int
pub mod Node
pub mod Queue
pub mod Ipt
pub mod Bitmap
pub mod Aging
pub mod App
pub mod Bytes
pub mod Disk
pub mod Map
pub mod Mm
pub mod Mmu
pub mod Pcb
pub mod Prm
pub mod Text
pub mod Ui
pub mod Worker
pub mod Tests
