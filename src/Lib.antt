-- ===== src/Lib.antt =====
-- Verification of the inter-process job queues in Assignments/2.InterProcessCommunication: jobs,
-- a priority queue of jobs, the same queue in shared memory, that queue protected by semaphores
-- so that many processes can use it at once, and the logs of the jobs that the processes have
-- handled.
--
-- The parts, from the bottom up, with the files (of that directory) that they model:
--
--   Base          lists, comparison, integers and allocated memory; lemmas that the parts share
--   CString       the functions of string.h and stdio.h that the code calls, on lists of bytes.
--                 Format and Scan are the conversions of printf and scanf that it uses; Decimals
--                 and Printed say what is read of what is printed
--   Job           job.c, job.h, sim_config.h: `job_t`, and a heap of jobs that pointers lead to.
--                 Text has job_to_str and str_to_job, New what job_new makes, Deliver what a
--                 function that returns a job gives its caller
--   PriJobqueue   pri_jobqueue.c, pri_jobqueue.h: the queue in an array of 128 jobs. Spec is the
--                 queue of the header: a list in order of arrival; Inv says which list an array
--                 holds; Refine, Looks, Refused and Trace relate the functions to the list; Drain
--                 and Fill are the loops of the header that empty a queue and fill one, Drain.New
--                 and Fill.New those that have each job in new memory; Lanes has the queue as a
--                 quotient that forgets where jobs of different priorities are stored; Life has
--                 queues in allocated memory
--   Proc          proc.c, proc.h: process descriptors, and sleeping to simulate work
--   ShobjectName  shobject_name.c, shobject_name.h: names of shared objects. Named has the names of
--                 the format and of the prose of the header
--   Ipc           ipc.c, ipc.h: shared memory objects under names. Outcomes and Ends have how
--                 ipc_new ends, Share how processes come to share an object
--   IpcJobqueue   ipc_jobqueue.c, ipc_jobqueue.h: the priority queue in a shared object. New has
--                 what ipc_jobqueue_new maps, Outcomes how it ends where calls fail, Laws and
--                 Contract what the functions do to the mapped queue
--   SemJobqueue   sem_jobqueue.c, sem_jobqueue.h: the shared queue between semaphores. Processes
--                 has the steps of many processes, Invariant what holds in all states, Moves and
--                 Keeps that the steps keep it, Safety what follows for `mutex` and Supply for
--                 `full` and `empty`. History has the calls of ipc_jobqueue functions of a run in
--                 order of time, and compares them with the queue of one client;
--                 History.Returns ties them to what the calls return; Stages and
--                 Progress are about who can go on, and Completion about how long. Alone is about
--                 a call that no other process disturbs, Refusal has what a call returns that does not
--                 come to its work, Alone.Vain is about one that completes
--                 without moving a job. Typed is about the layout of the shared memory. Setup has
--                 sem_jobqueue_new and sem_jobqueue_delete, with the named semaphores of the
--                 system: Outcomes has what happens where calls fail, Joining the processes that
--                 come to use a queue that is there, Start what they all start from, and AsLook
--                 what one does to the shared state that comes later
--   Joblog        joblog.c, joblog.h: the log of a process. System has the directory, the files and
--                 errno, and the calls that joblog.c makes; Laws says which jobs a log holds,
--                 Outcomes how joblog_init ends where its calls fail, Restores, Quiet and Harmless what
--                 the functions leave as it was
--   Rmsho         rmsho.c: the tool that removes a semaphore or a shared object. Recovery has
--                 runrmsho.sh, which calls it for all of them
--   Samples       constants of the tests, which stand in the modules named Tests
--
-- How the code is read. A pointer is an `Option` of an address, with `none` for NULL. A `job_t`
-- lies in a heap of jobs, `malloc` takes the next address or fails where the heap says so. A
-- queue is a record with the fields of the struct; a function that changes it returns the new
-- one. Strings are lists of bytes with their terminator, `char` arrays are lists of their size.
-- What the operating system decides is an argument: which system calls succeed (`Grants`), what
-- `random` gives and how long the process has slept (`Clock`), whether a `sem_wait` is
-- interrupted (`Wait`); for the log, which calls succeed and what they leave in errno
-- (`Chances`).
--
-- The semaphore functions are sequences of atomic steps, one per semaphore operation and one for
-- the call of the ipc_jobqueue function; between two steps of a process the others may take any
-- number of theirs. That call is one step since no other process is in the critical section
-- meanwhile. A blocked process has no step. Between its calls a process may change its jobs,
-- whose labels stay arrays of 32 bytes. A process that starts a call has the queue, or NULL, as
-- argument.
--
-- Bounds and fuel. `pad_loop` has 32 rounds, at least as many as a label has room for; the loops
-- over the array have as many as the array has jobs, 128, or jobs after the one at hand; the
-- loops that empty a queue have any number not below the number of jobs, and the loops that fill
-- one any number not below that of the free slots; a call that no other process disturbs has five
-- steps at most. Sizes and counts are natural numbers: they are at most 128 where a queue is well
-- formed, far from the bounds of an `int`. Priorities are natural numbers compared below 2 ^ 32,
-- identifiers of processes are integers. `places` counts up to 10 digits, as many as a number of
-- 32 bits has. The offset of an entry in a log is an `int` that wraps round at 2 ^ 32. The loop
-- that reads a log has any number of rounds above the number of entries.
--
-- What is assumed. A job that a caller names is not a slot of the queue. An array that C leaves
-- uninitialised starts as zeros here; the results about labels do not depend on what it starts
-- as. `int` and `pid_t` fields are only stored, compared and printed. The processes of Safety and
-- Supply start from a queue with the values of the semaphores that sem_jobqueue.h documents and
-- that Setup shows. sem_jobqueue_new runs alone: no other process acts between its calls. Of the
-- two calls of `sem_new` in one expression, whose order C leaves open, the left one comes first.
-- `snprintf` and `printf` do not fail on the conversions of JOB_STR_FMT. A `pid_t` and an `int`
-- have 32 bits, so that 7 characters of a number do not overflow one. C leaves the
-- pointer undefined after an `asprintf` that fails; it is taken to be NULL. The `shm_unlink` of
-- ipc_jobqueue_delete succeeds, `sem_close` and `sem_unlink` do, and no other fault than that of
-- the `memset` in ipc_new is followed. A write to a file happens whole at `fprintf`, or not at all.
-- Different names of logs are different files, and no other program uses them.
--
-- What is not modelled. What rmsho.c prints; the test programs and the test framework; the Java
-- assignments.
pub mod Base
pub mod CString
pub mod Job
pub mod Joblog
pub mod Samples
pub mod PriJobqueue
pub mod Proc
pub mod ShobjectName
pub mod Ipc
pub mod IpcJobqueue
pub mod SemJobqueue
pub mod Rmsho
