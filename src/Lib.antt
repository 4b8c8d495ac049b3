-- ===== src/Lib.antt =====
-- A model of PandOSsh, a small operating system for the uriscv machine, and its correctness.
--
-- The program has three levels. Phase 1 (phase1/pcb.c, phase1/asl.c) keeps the process control
-- blocks, their queues and their tree, and the list of the semaphores on which processes wait.
-- Phase 2 (phase2/src), the nucleus, is entered by exceptions: it serves ten system calls, the
-- two timers and the devices, passes other exceptions up, and schedules. Phase 3 (phase3/src),
-- the support level, runs above it in processes of its own: it gives each user process 32 pages
-- of virtual memory from its flash device, terminal input and output, and the start of other
-- programs.
--
-- Files. Listx: headers/listx.h, with Listx.Segment and Listx.Splice on stretches of linked nodes,
-- Listx.Sequence on whole lists and Listx.Frame on what an operation leaves alone. Machine: the
-- structures of headers/types.h, the constants of headers/const.h, the globals of the kernel as
-- one record, and the machine. Auxfun: phase2/src/auxfun.c. Pcb: phase1/pcb.c, with Pcb.Queue on
-- process queues and Pcb.Alloc on allocation; Pcb.Nodes is pcb.c once more, on the nodes inside
-- the PCBs, and Pcb.Walk, Pcb.Unlink, Pcb.Kinship, Pcb.Relink, Pcb.Pool and Pcb.Trace compare the
-- two. Asl: phase1/asl.c, with Asl.Waiting on the abstract view (a queue for each semaphore), and
-- Asl.Insert, Asl.Remove and Asl.Out on the operations. Scheduler: phase2/src/scheduler.c.
-- Syscall and Terminate: phase2/src/syscall.c. Interrupts: phase2/src/interrupts.c. Exceptions:
-- phase2/src/exceptions.c. Initial: phase2/src/initial.c. Nucleus: the invariant of the whole
-- (Places), that every operation keeps it (Capacity, Dispatch, Blocking, Create, Services,
-- Timers, Devices, Terminate, Entry, Boot), what the services do (Semaphores, Yield, Routing,
-- Resume), the end of a process and its descendants (Tree and Subtree on trees of PCBs, Withdraw
-- and Leaves on one PCB, Ended, Total and Kill on all of them, Doomed on the process that ends
-- itself), that the outcome of a handler fits the current process (Agrees, Handover), the search
-- by PID (Search), and the runs of the nucleus from the boot on (Reach), and the count of the
-- processes that wait for devices and the clock, by which the scheduler tells idleness from
-- deadlock (Soft, Count, Ticks, Steady, Deadlock); Nucleus.Tests has a small kernel and the
-- theorems at it, Nucleus.Tests.Processes its processes. Level: the state of the support level
-- and its system calls, with Level.Uproc (phase3/src/helpers.c and createUProc), Level.Vm and
-- Level.Pager (phase3/src/vmSupport.c) and Level.Calls (phase3/src/syscalls.c, sysSupport.c,
-- initProc.c); Level.Tables, Level.Choice, Level.Frames, Level.Locks, Level.Mutex, Level.Unlock,
-- Level.Terminal, Level.Kept and Level.Reading have the theorems and what they rest on, and
-- Level.Tests examples. Klog: klog.c, with Klog.Bounds. Testers: the programs of testers/,
-- Testers.Calc (calc.c, with Squeeze and Arithmetic on it), Testers.Shell (shell.c, with Trim and
-- Session), Testers.Programs (the others, with Print),
-- Testers.Text on strings in arrays. A C function fooBar is the definition foo_bar; the main of a
-- program is the definition with the name of its file. P1test: the test program phase1/p1test.c,
-- with P1test.Drive on its main and P1test.Transmit on its terminal.
--
-- Reading. A PCB is its index in pcbFree_table and NULL is none; semaphores, states and support
-- structures are their addresses. An int is its 32-bit pattern: arithmetic wraps, and comparisons
-- are signed where the code's are. A queue is the sequence of the PCBs that its linked list
-- holds, which Pcb.Nodes and the files that compare it justify as long as no PCB is on two lists;
-- the invariant says so, and the theorems on terminateProcess show where the code leaves it. A
-- function that ends in LDST, LDCXT, HALT, PANIC or WAIT returns the kernel and that outcome, and
-- none stands for an access through NULL. What belongs to uriscv, the linker and the hardware
-- (register file, cause masks, sizes of the device registers, clock readings, addresses of
-- functions) is the parameter Platform. The support level meets the nucleus at SYSCALL: the
-- parameter Services says what a call answers and what the other processes have done to the state
-- when it returns, and the theorems name what they need of it. The programs of testers/ are
-- modelled above the support level in turn: what a system call answers is an argument, and none
-- is an access outside of an array.
--
-- Fuel. The walks of insertProcQ and outProcQ along the nodes take one unit more than the queue
-- has PCBs. terminateProcess with its loop takes 2 * MAXPROC calls at most for a tree of MAXPROC
-- processes, which is enough (Nucleus.Kill); the search in a tree takes MAXPROC levels, which is
-- enough too (Nucleus.Search); the loop of the interval timer takes one round for each PCB that
-- waits and one more. The input loop of readTerminal ends only when the terminal sends a newline
-- or an error, so its fuel bounds the characters of a line. The number writers of the log get one
-- unit of fuel more than the number, which is enough since each round divides it. The fuel of a
-- loop of the shell or of print is the number of characters that the array has left, that of fib
-- its argument. The busy waits of the test program phase1/p1test.c end only when its terminal
-- does: their fuel bounds the readings of one wait, and P1test.Transmit says what holds if that is
-- enough, and that no fuel is if the terminal stays busy.
--
-- Not modelled: the test program phase2/src/p2test.c, and more than one processor.
pub mod Common
pub mod Machine
pub mod Auxfun
pub mod Pcb
pub mod Asl
pub mod Scheduler
pub mod Syscall
pub mod P1test
pub mod Testers
pub mod Terminate
pub mod Interrupts
pub mod Exceptions
pub mod Initial
pub mod Nucleus
pub mod Level
pub mod Listx
pub mod Klog
