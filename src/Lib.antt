-- ===== src/Lib.antt =====
-- netring: network operations of Go goroutines over io_uring.
--
-- The program. A goroutine that calls an operation (Recv, Read, Accept, Connect, Close, Send)
-- arms a task cell and submits a task. dispatch takes a slot of the slot table for the cell and
-- pushes a submission entry whose user data is the slot's index. The kernel completes the entry;
-- the poller takes the completion off the queue, finds the cell by the slot's index, stores the
-- result, and wakes the goroutine, which parks on the cell. Recv and Read receive into buffers
-- that the kernel picks from provided buffer rings, and hand out views of them that the caller
-- releases.
--
-- Prelude and its children: library names passed on, Boolean tests, update of a function,
-- counting, association lists, positions in a ring, Go's signed results, bits of a word.
-- Window: the list that a ring of entries between two counters stands for.
-- TaskSlots: internal/taskslots/taskslots.go. The table is the record Slots; new, add, del, get
-- and sync_word are New, Add, Del, Get and syncWord. Words are families of 64 bits. Invariant has
-- the map `view` that a table stands for, and the invariant `Valid`; Keeps, Adds, Fallback,
-- Creation prove the parts, and Laws the laws of the map. Race has Add and Del as the single
-- accesses of two threads: the record Race is where each thread stands, with the shared memory,
-- and `table` the table that this memory stands for; Absorb, Release, Shared and Steps are about
-- the steps, Runs about interleavings, Alone about an Add that no Del interrupts, and Stalls
-- about one that does not see a full table.
-- IoUring: internal/iouring. Entries has q_entries.go, consts.go and errors.go; Queues has
-- method_push.go, method_get_task.go and NeedWakeup of method_wakeup.go; Expect has
-- method_expect_*.go; Buffers has pbuf.go, with storeTailRelease in Buffers.TailStore; Lifecycle
-- has New of iouring.go and method_close.go.
-- NetRing: the package at the root. Cells has netring_private.go, netring_private_send_cell.go
-- and the state of netring.go; SizeClass the size classes and method_pbuf.go; Handshake
-- netringParkUnlock of goruntime.go with the poller's CompareAndSwap, as a step relation; Options
-- netring_options.go and the options of New in netring.go, Creation the rest of New; Submit has
-- submit of method_submit.go for one goroutine, and Submit.Translator the interleaving of n
-- goroutines in submit with fallbackLoop and drainFallback of method_submit_fallback.go, the
-- kernel and the close of method_stop.go, as step relations; Dispatch has dispatch and
-- abortIssuer of method_submit.go; Poller one round of method_poller.go, where Completing is
-- about operations that park and Sending about sends; Flight the tasks between the two and the
-- kernel, where every step is a whole dispatch (whose wakeup call does not fail), a move of the
-- kernel, or a round that finds a completion; Send method_send.go, and Send.Waiting its wait and
-- the poller's send case as the accesses to the send cell they share; Operations method_recv.go,
-- method_read.go, method_accept.go, method_close.go and method_connect.go.
-- PriorityQueue: internal/pqueue/pqueue.go; Up and Down have the loops of Push and Pop, Laws
-- their promises.
-- TimingWheel: internal/timingwheel/timingwheel.go; Chains has the lists of the buckets and the
-- invariant, Insert is about Add, Expire about Tick, Fires about the time between them.
-- TestProtocol: internal/testprotocol/testprotocol.go, the frames of the echo program.
-- Echo: handleRequest of internal/cmd/echo/main.go, and the sender and the receiver of
-- internal/cmd/echo/netring_client.go. Views is about the cut of the bytes into views, Rounds
-- about the loop of each side; they meet in Conversation. Standard has the receiver of
-- internal/cmd/echo/stdlib_client.go, and Agreement compares it with the other one.
--
-- Numbers. A machine word is a natural number, with the wrap-around of the code written out;
-- pointers are addresses; a Go int or an int32 result is an integer of Prelude.Int. Masks are one
-- below a power of two, so `& mask` is the remainder. The words of the slot table's bitmaps and
-- those of the tail store are families of bits.
--
-- Fuel. Add walks over the words of the bitmap, and over the fallback entries: fuel above the
-- number of words and above the number of fallback entries is enough. Push and Pop of the
-- priority queue have fuel for one round per entry, since each round moves to a parent or a
-- child; Tick has fuel for one round per node of the pool, since no node stands in a list twice;
-- the server's loop takes a frame in each round. The compare-and-swap loop of storeTailRelease
-- goes over the list of what others write meanwhile, and ends at the latest behind it.
--
-- Bounds. A descriptor has fewer than 2 ^ 64 - 1 sends, and a send fewer than 2 ^ 32 bytes. The
-- results on submissions hold for fewer than 2 ^ 32 - 2 submissions, so that the ticket and the
-- queue's counters do not wrap around; the step relation itself has the wrap-around.
--
-- What is not in the source is an argument: the results of mmap, munmap, io_uring_register and of
-- the wakeup call, the memory of a new mapping, the cell that the pool gives, the kernel's head,
-- and for the echo program the readings of the clock, whether a write succeeds, and whether
-- beer.Wrap of nil is nil. The kernel's own moves on the two queues are the definitions `consume`
-- and `post`.
--
-- Not modelled: what stands behind the return of Stop; memory orders weaker than sequential
-- consistency; logging; sockets and goroutines of the echo program.
pub mod Prelude
pub mod Window
pub mod TaskSlots
pub mod IoUring
pub mod NetRing
pub mod PriorityQueue
pub mod TimingWheel
pub mod TestProtocol
pub mod Echo
