-- ===== src/Lib.antt =====
-- The verification library of WebFramework, a C++ framework of five parts: logging, configuration,
-- threads, fibers and a scheduler of fibers. The log is configured through a configuration variable
-- whose listener redefines the loggers; the scheduler runs its loop on threads and switches to the
-- fibers of its queue; every part but the configuration members writes to the log.
--
-- Base            shared helpers: names of the standard library, lists, texts and association lists.
-- Log             components/log.h, components/log.cpp.
--   Level         LogLevel: a level is the int behind the enum.
--   Stream        the std::ostream of the format items, with the width that std::setw leaves.
--   Formatter     Items has the FormatItem classes, Pattern LogFormatter::init and format; Tokens and
--                 RoundTrip are about what init makes of a pattern, Rendering about what format
--                 writes.
--   World         the store: Logger, LogAppender, LoggerManager. Pointers are indices, so that an
--                 appender shared by two loggers is one object; `output` is what was written.
--   File          the file stream of FileLogAppender, with reopen.
--   Logger        Logger::log and the operations of Logger and LoggerManager; Valid has the invariant
--                 of the store, Preserve and Operations are about it, Deliveries about what log
--                 writes, Names about getLogger.
--   Define        LogDefine, LogAppenderDefine, and the listener of LogIniter (on_change); Redefine
--                 and Succeed are about runs of it that return, Apply about others. Define/Cast has the
--                 two LexicalCast templates of a definition, Define/Variable the variable `logs` that
--                 joins them with the listener.
--   Yaml          toYamlString of Logger, the appenders and LoggerManager; Saved and Manager are
--                 about what the variable `logs` reads from it.
-- Config          components/config.h, components/config.cpp.
--   Member        ListAllMember on the tree of a YAML document.
--   Yaml          what the code asks of yaml-cpp, as a record of operations with their laws; Sample
--                 is an instance for the examples.
--   Cast          LexicalCast for vectors, lists and sets; Cast/Maps has maps, Cast/HashSets and
--                 Cast/HashMaps the hashed containers, as quotients that forget the order.
--   Variable      ConfigVar<T>: setValue, the listeners, fromString and toString.
--   Registry      Config::Lookup in both forms, LookupBase, LoadFromYaml and Visit; Types is about the
--                 types of what Lookup gives.
-- Thread          components/thread.h, components/thread.cpp.
--   ScopedLock    the three guards, as the calls that they make on a mutex.
--   Start         Thread::Thread and Thread::run, as the interleaved steps of two threads.
--   Join          Thread::join and Thread::~Thread, as the calls that they make on pthreads.
--   Mutex         Mutex, NullMutex, RWMutex, NullRWMutex and Spinlock, as the calls that they make on
--                 pthreads; Lifetime is about an object from its constructor to its destructor.
--   Semaphore     Semaphore, as the calls that it makes on a sem_t.
--   Locks         threads that take and give back such locks, as steps that interleave. Whom the
--                 platform prefers is a parameter (Platform), and Eager an instance of it. Exclusion
--                 is about a lock that is free, Order and Progress about code that takes locks in
--                 the order of ranks, Blocked about a thread that waits for itself.
-- Locking         the locks of the framework, with their ranks, across the components: Logs has the
--                 locks that each call on loggers takes, Settings those of the calls on variables, the
--                 registry and the scheduler's queue, Calls threads that make any of these calls.
--                 Logs/Lines joins the locks of Logger::log with the lines that it writes, and
--                 Settings/Listener is about a listener that takes the lock of its variable.
-- Utils           components/utils.h, components/utils.cpp: thread ids and backtraces.
-- Fiber           components/fiber.h, components/fiber.cpp: the fibers of one thread; `running` is the
--                 context that executes. Resume follows a fiber from swapIn to its next switch.
-- Scheduler       components/scheduler.h, components/scheduler.cpp: the queue, a round of run, start.
--                 Pick, Dispatch and Round are about the loop over the queue, what comes behind it,
--                 and a round; Run has the loop of
--                 run on one thread as a relation, and stop. Drain has the loop as a function,
--                 on fibers that yield some number of times and then end; Drain/Store has it on
--                 the fibers of a thread, as Fiber models them, and Drain/Follow is about both.
--                 Threads has several threads on one queue, as steps that interleave: Count is
--                 about the count of active tasks, Jobs, Kept and Done about the bag of jobs as
--                 callers see it, Rounds about a round as such steps of its thread. Crew adds the
--                 callback_fiber of each thread, and Unique is about which fibers the threads run.
--                 A yield is one step there, from the fiber to run: that it changes the state
--                 before the context is saved is not in the steps. Locals has the thread-local pointers.
--
-- Names are those of the source in snake_case: scheduleNoLock is schedule_no_lock. Where the
-- source takes a lock, an operation is one critical section; the locks themselves are in Locking.
-- Null pointers and failed assertions are results of their own. Fuel: LogFormatter::init runs on
-- the length of the pattern and one more, as each of its rounds but the last takes a character;
-- Logger::log runs on 2, for a logger and its root, whose m_root is never set; decimal digits run
-- on the number itself and one more; the loop of a scheduler runs on a round for each yield and
-- each end of a fiber, and two more for its idle fiber.
--
-- Parameters stand for what is not the framework's code: localtime_r and strftime (date_text),
-- yaml-cpp (load, dump and the record Yaml), the casts and the listeners of a ConfigVar, which throw
-- a std::exception or nothing (fromString lets anything else through), the
-- dynamic type of an object, the order of a hashed container, the ids of threads, the results of
-- pthread_join and of the calls on a sem_t, what the root fiber and the joins do in stop, whether a file can be opened and written, when a lock
-- is given to a thread that waits for it, the results of gettid and of backtrace_symbols. In
-- Locking, what a call reads under its lock is an argument: a store for the calls on loggers, and
-- the results of comparisons, casts and searches for the others. Not modelled: swapcontext beyond
-- its effect, waits that are no locks (a join, the semaphore in Thread::Thread), the guard of
-- Scheduler::start, which unlocks twice, the branches for Apple's systems, messages on the log and
-- on std::cout that the operations write beside their work (their locks are in Locking), the
-- messages of the assertion macros, the singletons, the test programs, and what CMake generated.
pub mod Base
pub mod Log
pub mod Config
pub mod Thread
pub mod Utils
pub mod Locking
pub mod Fiber
pub mod Scheduler
