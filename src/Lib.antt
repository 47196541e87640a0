-- ===== src/Lib.antt =====
-- Sirius_Education is a small operating system: an x86_64 kernel with memory managers, terminals, a
-- network stack, loadable modules and communication between processes, and a C library for its programs.
-- This library models the parts below, translated function by function from the C code. Paths are those of the repository.
--
-- Memory. Mm/Pmm.antt is the frame allocator of kernel/kernel/mm/pmm.c: a bitmap with a bit for each frame
-- (`pmm_init` is `init`, `pmm_alloc_page` is `alloc_page`, and so on). Mm/Bitmap.antt has the bit operations
-- and the first-fit search that it shares with Mm/Pool.antt, the window of virtual pages of
-- kernel/kernel/mm/pool.c. Mm/Blocks.antt has the list of block headers that two heaps share:
-- Mm/Heap.antt, the kernel heap of kernel/kernel/mm/heap.c, and User/Heap.antt, the heap of a process of
-- user/libc/src/sys/uheap.c. The heap of a process grows by the call that Mm/Brk.antt models
-- (kernel/kernel/mm/brk.c): User/Heap takes it as the interface `Break`, which User/Heap/Free.antt fills
-- with the model of `brk`. The memory managers ask for frames and mappings through the interface of
-- Mm/Frames.antt, which stands for pmm.c and for kernel/arch/x86_64/mm/vmm.c and asks no laws of them.
-- Mm/Paging.antt is the page tables of vmm.c: mapping, unmapping and lookup, with the frames of Mm/Pmm.antt;
-- Mm/Paging/Tree.antt says when the tables of an address space are a tree.
--
-- Devices and network. Ring.antt is the circular buffer that Tty.antt, the terminal queues and the line
-- discipline of kernel/drivers/tty/tty.c, uses for both directions. Net.antt has the frame headers and
-- kernel/kernel/net/ethernet.c, Net/Arp.antt the address resolution of kernel/kernel/net/arp.c.
-- Net/Ip.antt has kernel/kernel/net/ip.c and icmp.c: the Internet checksum, `ip_output`, which asks the
-- address resolution for the receiver and leaves the packet with it where there is none, `ip_input`, whose
-- result names the protocol it hands the payload to, and the echo. Net/Driver.antt has
-- kernel/kernel/net/net.c: the table of the interfaces, the queue of received packets, which is a Ring, and
-- the rounds of the thread that takes packets from it; a round answers the calls that it makes.
--
-- Threads. Sched.antt has the state of kernel/kernel/sched and the run queues of scheduler.c, linked through
-- the threads; Sched/Tasks.antt has the task switch, yield, the end of a thread, and the sleep and wakeup of
-- wait.c and wakeup.c. A pointer to a thread or a process is a number, with 0 for NULL, and a processor is
-- its number. `schedule` leaves the processor, so `wait` ends with the task switch, and what follows it in
-- the code belongs to the thread's next turn. Sched/Queue.antt relates the links to a list,
-- Sched/Valid.antt says when the queues are right, and Sched/Steps.antt lets the operations of all
-- processors follow on each other in any order. Each is one step: the code holds a lock or has interrupts
-- off for it, but takes no lock for the run queue of another processor, so that steps which overlap there
-- are outside of the model. Sched/Waitpid.antt has `sys_waitpid` of kernel/kernel/syscall/syscall.c in two
-- steps, the check and the change of the state, between which another processor can run.
--
-- Services. CString.antt has the string routines of kernel/lib/string.c, Kmod.antt the module registry and
-- the symbol search of kernel/kmods/manager, which compare names with them. Ipc.antt has shared memory,
-- the clean-up of a process and signals of kernel/kernel/ipc; its frames and page tables are those of
-- Mm/Paging.
--
-- State is passed on explicitly: an operation takes the record of its component and answers the new one.
-- A call is one step. The memory managers, the terminals and the cache of addresses hold a lock for it; shared
-- memory, the receive path of net.c and `arp_input` as a whole hold none, and calls of them that overlap are
-- outside of the model. Words of 64 bits wrap
-- where the code can wrap (Common/Word.antt). A heap is the list of its headers with their addresses; a
-- pointer to no header is a fault. A call that sleeps answers none. `kmalloc` jumps back to its search after
-- a growth: the model counts the rounds on fuel, and two are enough, since a growth leaves a block that
-- fits. `scheduler_exit` searches its queue on fuel, and one round more than the queue has threads is enough.
-- The carries of a checksum fold on a fuel of three rounds, which a sum of 32 bits never uses up. The other
-- loops recur on their data, or on the number of rounds that the code computes first.
--
-- Not modelled: the creation and the copy of address spaces, the creation of threads and processes, file
-- systems, sockets, UDP, TCP and DHCP, which are left for extensions of this library; drivers, processor
-- set-up and printing, which are input and output; the drawing of terminals. Whether `kmalloc` has memory, what a buffer that
-- is not cleared holds and what a network driver answers are arguments of the address resolution and of `ip_output`; the channels that the
-- closing of files wakes at the end of a thread are one of `scheduler_exit`; the exit routines
-- of modules and the table of exported symbols are data of the registry. A write past a bitmap, which would
-- corrupt memory in C, changes nothing in the model.
--
-- Common.antt and its children have the shared names, lists, bits and words; Tests.antt has runs of the
-- theorems at concrete states.
pub mod Common
pub mod Mm
pub mod Ring
pub mod Tty
pub mod Net
pub mod CString
pub mod Kmod
pub mod User
pub mod Ipc
pub mod Sched
mod Tests
