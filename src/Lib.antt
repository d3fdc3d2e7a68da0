-- ===== src/Lib.antt =====
-- The AI inference gateway: a server that takes POST /infer requests with a JSON body, puts them as
-- tasks into three priority queues, collects batches, runs them on an inference engine, and sends each
-- client its numbers. This library models the program's parts in the source's own words and proves
-- what makes them correct.
--
-- The parts and how they meet. A connection (http/http_conn.cpp) reads a request; a worker of the
-- thread pool (threadpool/threadpool.h) parses it, makes a task (scheduler/inference_task.h) on its
-- stack, hands the task's address to the scheduler (scheduler/batch_scheduler.cpp) and waits. The
-- scheduler thread collects batches and starts an execution thread for each, which calls the engine
-- (engine/) and writes the results back into the tasks. The worker then forms the answer, and the
-- connection writes it. The main thread (webserver.cpp) accepts connections, gives each a timer
-- (timer/lst_timer.cpp), dispatches events and closes what stays silent.
--
-- - Prelude: the shared names; Prelude/Lists measures and indexes lists by native numbers, Prelude/Text
--   has byte strings, Prelude/Int the signed integers.
-- - Common: common/types.h and engine/engine_interface.h.
-- - Lock: lock/locker.h. `add_timeout_ms` is the time arithmetic of `sem::timedwait`.
-- - Task: scheduler/inference_task.h. `wait_check` and `wait_wake` are the two halves of the loop of
--   `wait_with_timeout_ms`; Marks has the signal of `mark_done` as a step beside them.
-- - Scheduler: scheduler/batch_scheduler.h and .cpp, one function for each operation. Queues, Expiry
--   and Execute are about `enqueue` and `collect_batch`, `cleanup_expired`, and `execute_batch`. System
--   is `run` beside the workers, the execution threads and `stop`, as steps: each stretch between two
--   waits is one. Invariant, Ownership, Liveness and Dangling are about its histories.
-- - BlockQueue: log/block_queue.h; Fifo is its use as a queue, Faults what it does at its edges.
-- - Log: log/log.h and log.cpp; Lines follows the lines to the files, Files says
--   which file, Writes puts both together.
-- - Http: the connection of http/http_conn.h and .cpp. CString has the C string functions it calls,
--   Read is `read_once`, Parse the parser (`parse_line`, `parse_request_line`, `parse_headers`,
--   `parse_content` and the loop of `process_read`), Json the three `json_get` functions, Request
--   `do_request` and `process`, Response the answers up to `process_write`, Growth the doubling of
--   buffers, Write `write`.
-- - ThreadPool: threadpool/threadpool.h; Steps has its threads as steps.
-- - Timer: timer/lst_timer.h and .cpp, the doubly linked list of timers as commands on a store of nodes.
--   Chain says what a store holds a list, Place, Insert and Add are about `add_timer`, Cut and Remove
--   about `del_timer`, Adjust about `adjust_timer`, Tick and Order about `tick` and the order by time.
-- - WebServer: webserver.h and .cpp, from `timer` and `dealclientdata` to `eventLoop`, with `cb_func` and
--   `timer_handler` of timer/lst_timer.cpp. Accounts and Serves are its invariant, Shuffle and Until what
--   it needs of lists, Accept, Clients, Events and Loop the handlers, Wait the reactor model's handshake
--   with the workers, Setup the choice of the engine and of the log.
-- - BufferPool: memory/buffer_pool.h and .cpp; Ownership says who may use a buffer.
-- - Config: config.h and config.cpp; Options says what the options come to.
-- - Engine: Mock is engine/mock_engine.h and .cpp, Onnx is engine/onnx_engine.h and .cpp, with Batching
--   about `infer_batch` and Metadata about `init`, Manager is engine/model_manager.h.
--
-- Conventions. A pointer to a task, a buffer, a request or an engine is a natural number, and what
-- it points to stands in a store; null is `none`, and 0 for a timer. A pointer into a buffer is an
-- index or the text from there on. A section under a lock is one step; the signal that `mark_done`
-- sends after its section is part of Task/Marks alone. What the operating system or a library
-- answers is an argument: whether a thread is created, whether a signal ends a wait, the time, what
-- `writev` and `calloc` return, `strtof`, the text of a float. Floats are of any type. Machine
-- integers that the code only counts with are natural numbers; the task counter wraps at 2 ^ 64,
-- and the JSON integer is cut to 32 bits as its cast does.
--
-- Fuel. `read_loop` is the loop of `process_read`, on as many rounds as there are bytes to check and
-- two more; `floats` is on one round more than the text has bytes; `double_until` on as many rounds as
-- the size that is needed; `digits` on one more than the number. The loops over the timers take their
-- `rounds` from the caller: as many as there are timers are enough, and one more for `tick`. All other
-- loops follow a list.
--
-- Not modelled: the epoll and signal wrappers and the set-up of sockets (timer/lst_timer.cpp,
-- webserver.cpp), which act on the kernel; main.cpp, which calls the parts in turn; the session options
-- of the ONNX engine and its build without ONNX Runtime (engine/onnx_engine.cpp); the destructors; the
-- scripts and documents.
pub mod Prelude
pub mod Common
pub mod Lock
pub mod Task
pub mod Scheduler
pub mod BlockQueue
pub mod Log
pub mod Http
pub mod Config
pub mod Engine
pub mod BufferPool
pub mod ThreadPool
pub mod WebServer
pub mod Timer
