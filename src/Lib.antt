-- ===== src/Lib.antt =====
-- The Watchlist program: a desktop GUI that watches devices, a service that stores them in SQLite, and
-- a client and a server that exchange requests and acknowledgements over MQTT.
--
-- Parts and files. Paths are from the repository's root.
--
-- AppState models src/Watchlist/AppState.hpp and AppState.cpp. The state is the record `AppState`,
-- with one function for each method (`add_outbound` for `AddOutbound`, and so on). Every method holds
-- the mutex for its body, so that a method is one step; `DispatchOutbound` takes it several times and
-- is the sequence of those steps around the call of the handler, which is a parameter. History,
-- Console and Outbound hold the theorems.
--
-- Gui.Device and Gui.DeviceMonitorState model src/Gui/DeviceMonitorState.hpp and
-- DeviceMonitorState.cpp: the devices on the screen, the editor, the pending deletion and the queued
-- commands. A method that returns `bool` is a function that gives the result with the new state. Calls
-- makes a datatype of the methods, so that theorems range over every order of calls.
--
-- Storage.Item and Storage.Interface model src/Utils/Storage/DatabaseItem.hpp and IDatabase.hpp. The
-- interface is a record of operations, and `Contract` states what its comments promise. Storage.Utf8
-- models `IsValidUtf8` of src/Utils/Storage/SQLiteDatabase.cpp; the loop has the length of the text as
-- fuel, which is enough because each round reads at least one byte.
--
-- DeviceStorageService models src/Watchlist/DeviceStorageService.hpp and DeviceStorageService.cpp over
-- any database of the interface. Worker holds the thread's state machine: each step is one critical
-- section or the work between two of them, so that a list of steps is an interleaving of the threads.
-- Stopped and Replayed say where a batch ends and what it has done until there, Execute what its
-- result says.
--
-- Messaging models src/Watchlist/Messaging/MqttMessages.hpp, MqttMessages.cpp and MqttTopics.hpp. The
-- JSON library is a parameter with the assumption `ReadsObjects`, which is what RFC 8259 says of a
-- flat object of strings; Messaging.Examples has a parser that satisfies it.
--
-- Concurrency.ThreadPool models src/Utils/Concurrency/ThreadPoolManager.hpp: a turn of a worker is one
-- critical section of the queue's mutex or the call of a task, and a list of turns is a schedule.
-- Created holds what the constructor guarantees, Order what every interleaving keeps, and Drain the
-- joins.
--
-- Dispatch.RequestDispatcher models src/Watchlist/Dispatch/RequestDispatcher.hpp and
-- RequestDispatcher.cpp over the thread pool, the messages and the application state;
-- Dispatch.KeyValueStore models src/Watchlist/Storage/KeyValueStore.cpp. The SQLite library and the
-- publisher are parameters.
--
-- Storage.Address, Storage.Validation and Storage.SqliteDatabase model the rest of
-- src/Utils/Storage/SQLiteDatabase.cpp: the tests of addresses (the loops have one more than the
-- length of the text as fuel, which is enough because each round takes a part with its separator; Spec
-- says what a row of parts, an octet, a label and a host name are, without these loops), the
-- validation, and the methods on items over SQLite as a parameter. Rows holds what is assumed of the
-- SQL statements, Transactions of transactions; Refines is about the contract, and Replaces about
-- `ReplaceAll`, and Decoded about items that are bound and decoded again. Catalogue has the schema
-- tests and Initialize the method `Initialize` with its migration, over the statements on SQLite's
-- catalogue; Initialize.Laws says what they do.
--
-- Messaging.Topics models `TopicMatches` of src/Watchlist/Messaging/MqttService.cpp, with the length
-- of the filter and one more as fuel: each round takes a level with its separator.
-- Messaging.MqttService models the rest of that file over the Paho client library and the
-- application's handlers as parameters: Operations and Connection hold the methods and the client's
-- callbacks, Events puts them in any order, and Run holds the loop that owns the connection, over a
-- schedule of what other threads do while it waits. Each method is run to its end as one step. Stages,
-- Owned, Quiet, Invariants, Mirrors, Pending and Routing hold the theorems.
--
-- Concurrency.AsyncEventLoop models src/Utils/Concurrency/AsyncEventLoop.hpp and the task states of
-- CoroutineTask.hpp: the ready tasks, the timers, the event waiters, the worker's round in three
-- actions (take, resume, suspend) and the stop. A coroutine is the number of its frame, and the
-- actions say where it suspends next. Copies of events do not throw. Moves has the actions, Conserved
-- and Stopped follow each task through the queues, Ended its status, and Timers the priority queue.
--
-- Concurrency.EventLoopGenerator models src/Utils/Concurrency/EventLoopGenerator.hpp: submissions, the
-- worker, and producer threads that consume a generator, in Producers. Order follows the ids, Drain
-- the shutdown, Generated how the generation of a sequence has ended, and Gathered and Sequence the
-- result of a producer.
--
-- How the parts interact: the GUI queues commands in the monitor state, the storage service takes them
-- as batches and returns the stored devices, and the server's dispatcher parses requests, records them
-- in the application state and queues work on a thread pool.
--
-- Bytes are natural numbers, and texts are lists of them. `int` is ℤ and unsigned fields are ℕ; no
-- operation of the modelled code overflows, except where the model writes `% 2 ^ w` out.
--
-- Not modelled: drawing with Dear ImGui, GLFW and OpenGL, logging and profiling, what other threads do
-- between the critical sections of one method of the MQTT service,
-- src/Utils/Concurrency/EventLoopCoroutine.hpp, application paths, program entries, and the vendored
-- code under libs.
pub mod AppState
pub mod Concurrency
pub mod DeviceStorageService
pub mod Dispatch
pub mod Gui
pub mod Messaging
pub mod Prelude
pub mod Storage
