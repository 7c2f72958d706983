-- ===== src/Lib.antt =====
-- cocoOS, a cooperative task scheduler for small systems, with tasks, semaphores, events and message
-- queues.
--
-- The parts, and the files that model them:
--   Config        os/os_utils/include/os_defines.h: what the user configures. `N_TASKS` and the like
--                 are a record `Config` that every definition takes.
--   Task          os/os_task/src/os_task.c and os/os_task/include/os_task.h. `Tcb` is `tcb`, `Tasks`
--                 the static variables. Children: Fields (accessors of one field), Events (the event
--                 wait queue), Schedule (the choice of the next task), Semaphores (tasks that wait
--                 for a semaphore), Suspend (suspending and resuming), Loop (the loops over the
--                 table), Shape (what the operations leave of each task), Frame (what they may write
--                 to a control block, for any relation; the Frame below each of the other parts lifts
--                 it to that part).
--   Sem           os/os_sem/src/os_sem.c; Counter, InRange and Creation hold the lemmas on it.
--   Event         os/os_event/src/os_event.c, its own list of events; Creation is about their
--                 ids.
--   MsgQueue      os/os_msgqueue/src/os_msgqueue.c, the queues themselves; Span has the list of the
--                 messages of a queue, Post and Receive what becomes of it, and Stream sequences of
--                 posts and receives.
--   System        the state `Os` of the whole kernel, and the functions of the files above that reach
--                 into another component: Signals (os_event.c; Multiple is about os_wait_multiple),
--                 Messages (os_msgqueue.c), Create and Tick (os_task.c). NewTask holds the lemmas
--                 on Create. Invariant says when the whole state is well-formed, and the Safety below
--                 each of the others that its operations keep it so.
--   Kernel        os/os_kernel/src/os_kernel.c; Macros holds the macros of os_reentry.h, os_task.h,
--                 os_sem.h, os_event.h and os_msgqueue.h by which a task yields. Below
--                 its Messages, Delivery is about the message that is moved, Waiting about a task
--                 that finds a queue empty or full, with Change the part of the code the two macros
--                 share, and Rounds about how a round of them begins and ends; Handover and Rendezvous follow the task that was waited for, Exchange
--                 both of them, and Owners says whose each queue stays. Clocks is about the delays
--                 of tasks (Single compares many ticks with one call), Schedule about a schedule
--                 and the loop of `os_start` (Fair, Running). Api gives the names of
--                 os_kernel.h to the macros, with Reentry on the line at which a task goes on and
--                 Resume on a task that yields, over whatever others call meanwhile.
--                 Calls is a program as a sequence of calls, with the states that such a program
--                 reaches; interrupts call the kernel between any two of them.
--   Base          shared names, Boolean tests, arrays as functions, bits of a byte, and `Outcome`: a
--                 function returns `ok` with its result or `halt`. `assertion` is a failed
--                 `os_assert` (os/os_utils), whose handler never returns.
--   Tests         the theorems at concrete states.
--
-- Names are those of the C code in snake case: `os_task_create` is `os_task_create`, `os_msgQ_tick`
-- is `os_msg_q_tick`. Each function takes the state that it reads or sets as its last argument and
-- returns the new one. Arrays are functions of the index; every access is checked against the size of
-- the array, and one out of range is `bad_access`.
--
-- Numbers are natural numbers. Where the C type can wrap, the wrap is written out: `nSemaphores`,
-- `nEvents` and `nTasks` modulo 256, a time modulo 2^32, a `Sem_t` as a 16-bit pattern, the line of a
-- yield modulo 2^16, the arguments of `os_sem_create` modulo 256. Any other argument stands for the
-- value that the function gets, after the conversion to the type of its parameter.
--
-- Loops: those over the tasks run through `for_range` and the count of tasks. `next_ready_task` has
-- fuel 256, for its counter is a byte. The loops of a message queue have as many rounds as there are
-- slots, or one more, since each round visits another slot; a loop that is still running then is
-- `spinning`. `os_start` takes the number of rounds to look at.
--
-- Not modelled: the task procedures, a sleep callback of the user's and the callbacks of a wait,
-- which are parameters; the layout of a message in memory (a slot of a queue is one message);
-- `os_enable_interrupts` of os_port.h, which `os_start` calls first and which the user defines;
-- msg_receive_async, whose expansion gives a macro of four parameters three arguments and so does
-- not compile; the platforms and mocks under tests/ and os/*/mocks.
--
-- os_msgqueue.c includes neither os_kernel.h nor os_assert.h, where `event_ISR_signal` and
-- `os_assert_with_return` are defined; it is read as if it did, as the other files do.
pub mod Base
pub mod Config
pub mod Task
pub mod Sem
pub mod Event
pub mod MsgQueue
pub mod System
pub mod Kernel
pub mod Tests
