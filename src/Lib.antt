-- ===== src/Lib.antt =====
-- Three operating-systems programs in C, each a folder of Homeworks: a thread scheduler, an executable
-- loader and a web server. They share no code; here they share the helpers of Common.
--
-- Homeworks/Thread Scheduler (Scheduler): a library that runs the threads of a process one at a time,
-- by priority and round robin.
--   Scheduler/Types      struct.h, utils.h, so_scheduler.h: threads at addresses, arrays of pointers
--   Scheduler/Queue      priority_queue.c, with each loop as a recursion on the rounds left
--   Scheduler/Queue/*    Spec is the queue as a list; Shift, Cells, Enqueue, Dequeue prove that the
--                        array refines it without a fault; Order, Ready, Positions and Top are about
--                        the list
--   Scheduler/Ops        the scheduling core of so_scheduler.c: schedule_thread, check_preempt and
--                        so_exec, which call one another
--   Scheduler/Spec       the core over a list of threads, with no recursion; Refine proves that the
--                        core does this
--   Scheduler/Valid      the invariant of the core
--   Scheduler/Api        the calls of so_scheduler.h, with create_thread and add_thread of utils.c
--   Scheduler/Calls/*    what each call does; Presence is about where a thread stands behind a call;
--                        Rounds and Fairness are about many calls of so_exec
--   Scheduler/Reach      the calls in any order; Joins is about so_end, during which they go on
--   Scheduler/Threads    the threads that run the calls, their semaphores, and their steps
--   Scheduler/Threads/*  Turn, Arrival, Effects, Forks, Relay are about the semaphores in a call;
--                        Steady is an invariant of the threads, which Moves keeps; Exclusion and
--                        Progress are about the runs; Shortest is about a quantum of 1
-- State: Sys is scheduler_t with a heap of thread_t. A pointer is a number, NULL is `none`. `none` as
-- a result is an access outside an allocation or to a cell never written, or the end of the process
-- in DIE. A call changes the shared state once, and no statement behind a sem_wait touches it; what a
-- call does to the semaphores is a log. The mutual recursion of the core has a fuel of 3: a thread is
-- scheduled, it takes over from the running one, and that one is charged and queues up; the theorems
-- that a call returns show that this is enough. Sizes are below 2^31, since the arrays fit in memory.
-- malloc, the semaphores and pthread_join succeed; the address from malloc and the thread from
-- pthread_create are arguments. Threads is about programs in which no thread forks one above its own
-- priority. A call of theirs posts at most one semaphore, when it has done all that it does but for its
-- wait; so it is one step up to its first sem_wait, and its waits interleave with the steps of the other
-- threads in any order. A fork above the caller's priority posts the new thread in its middle, at line
-- 69 of so_scheduler.c; the interleavings behind that post, and data races, are not modelled. The main
-- thread forks the first thread and then calls so_end, whose joins block: what the other threads make
-- of the scheduler during each join is an argument of so_end, and Joins is about any calls of theirs.
-- The loop of the joins has a fuel; more than there are threads in the end is enough.
--
-- Homeworks/Executable Loader/loader (Loader): it parses an ELF file and maps its pages when they are
-- first used.
--   Loader/Types         exec_parser.h, and the fields that the parser reads of elf.h's structures
--   Loader/Align         ALIGN_DOWN
--   Loader/Parser        so_parse_exec of exec_parser.c
--   Loader/Parser/*      Spec is the result on lists; Loops, Header and Segment are about its parts;
--                        Outcome is about the call
--   Loader/Kernel        the system calls of loader.c as an interface, with what they promise
--   Loader/Fault         the SIGSEGV handler of loader.c
--   Loader/Fault/*       Page and Demand are about one fault, Pages about several; Dispatch is about
--                        the choice of a segment
--   Loader/Start         fix_auxv and so_start_exec of exec_parser.c, so_init_loader and so_execute of
--                        loader.c; Handover is about the stack that the program finds
--   Loader/Program       the parser and the handler together: the byte that a program reads
-- Addresses and sizes have 32 bits; the code is built for the i386. The loops run over the headers and
-- the segments, so they need no fuel. The layout of elf.h's structures, what open and read do, the page
-- size, the results of malloc and calloc, and what malloc leaves in memory are arguments, as are the
-- words of the initial stack. Of the assembly that starts a program the result is modelled: the address,
-- the stack pointer's words, and the other registers at 0.
--
-- Homeworks/Asynchronous_Web_Server (Server): a web server that serves files to many connections.
--   Server/Epoll         w_epoll.h, over an interface of the epoll calls with what they promise
--   Server/Types         aws.h, the structures of aws.c, and buffers
--   Server/System        the calls of the system, of libaio and of the HTTP parser as an interface
--   Server/Monad         the server's state, and code that returns, ends in DIE, faults or runs on
--   Server/Sockets       sock_util.c
--   Server/Connection    aws.c, how a connection comes, is read from and goes
--   Server/Files         aws.c, the sending of a file
--   Server/Reply         aws.c, send_message
--   Server/Request       aws.c, from a request to the file and the header of its reply
--   Server/Request/*     Paths is about the file and the type for a path, Replies about what the handler
--                        then holds
--   Server/Main          aws.c, main
--   Server/Safety        the handlers and the interest list; Lifetimes, Listing, Sending and Rounds
--                        keep them in step through all of the server, and Start from the start of
--                        main on; Lifecycle is about a connection's start and end, Dangling about
--                        an event that comes too late
--   Server/Delivery      what a client receives: Header, Static, and Dynamic with Whole
--   Server/Tests/*       a system that can be run
-- State: Server is the handlers at their addresses, the two descriptors of aws.c, and the system. The
-- buffers and the allocated elements of the arrays are fields of the handler; a read of a freed handler,
-- an array's element without memory and a division by 0 are faults. -1 is `none` or a Boolean. What
-- malloc leaves in memory comes from the system; the bytes of the stack that determine_file_type reads
-- are arguments. A file has less than 2^31 bytes, lseek on it succeeds, and the allocations of the
-- arrays do too. epoll_ctl may refuse to add a descriptor, and an asynchronous write may be short. The
-- loops that send have a fuel, and the theorems of Delivery show how much is enough: a round more than
-- there are bytes or blocks. The main loop runs for any number of rounds. Printing and logging are left
-- out.
--
-- Not modelled: http_parser.c and http_parser.h, which are a copy of another project's library; the
-- logging macros.
pub mod Common
pub mod Scheduler
pub mod Loader
pub mod Server
