-- ===== src/Lib.antt =====
-- RuBLE, a Ruby extension in C++ that wraps SimpleBLE, a library for Bluetooth Low Energy.
--
-- The parts of the program, all below ext/ruble:
--
--   * bindings: the classes that Ruby sees. An Adapter finds peripherals; a Peripheral has services, a
--     Service has characteristics, and a Characteristic has descriptors. Each object holds the SimpleBLE
--     object behind it and hands its calls on to its owner, with its own UUID in front, until the
--     Peripheral calls SimpleBLE.
--   * management: one Registry for each owner keeps one proxy object for each address or UUID, so that Ruby
--     sees the same object each time; RubyQueue carries the events of SimpleBLE, which arrive on threads
--     of its own, over to a thread of Ruby, which then calls the procs of the user.
--   * containers and concerns: ByteArray (the values that are read and written), NamedBitSet
--     (capabilities and statuses), Callback (a proc of the user), CharacteristicValueTracker (which
--     notified values are new).
--   * utils: CallbackTraits (whether a proc takes the arguments of an event), async (waiting with a
--     timeout), ruby_context (whether a thread is in Ruby).
--
-- The files of this development, by the source that they model. Functions keep their names; a
-- constructor is `new_` or `from_` or `of_` and what it is made from, an operator is `op_` and its name, and
-- `operator[]` is `get` (`byte_at` of a byte array). A call that changes an object takes the
-- object and returns it behind its result.
--
--   * Base: lists, texts (`std::string` as its bytes), `std::map`, and exceptions as values. A failed
--     assertion and undefined behaviour are the error `fault`.
--   * Management/RubyQueue: management/RubyQueue.hpp and RubyQueue.cpp, each function as one step. Its
--     child Threads takes loop, push, stop and running apart into the accesses to shared memory, for
--     any number of threads in any interleaving, with start as one step; Invariant, Safety, InOrder, Capacity (the count of the semaphore, with
--     types/stl.hpp), Progress, Drained and Determined (how the loop's thread gets on) and Mailbox (what the threads do to an abstract
--     mailbox, in which the order of what waits is forgotten) are about these. Order and Lifecycle are about the functions as steps.
--     Atomic and Sessions relate the two accounts: what the functions do as steps, the threads can do. Starvation has a run of
--     the threads in which items wait on. Launched and
--     Graceful run the threads while ensure_started and stop_on_exit sleep.
--   * Management/Registry: management/Registry.hpp. Its calls, made one after the other, are steps; only
--     fetch and clear hold the mutex, and what the others read while one of these runs is not modelled. Its child Abstract has
--     what a client may rely on, a function from keys to proxies.
--     Management/RegistryFactory: management/RegistryFactory.hpp, with utils/hash.cpp in Utils/Hash. Its child Race takes
--     registry, which takes no lock, apart into the calls of the hash map, for any number of threads, and says where two of
--     these calls are a data race.
--   * Bindings/Peripheral, Bindings/Service, Bindings/Characteristic: bindings/Peripheral.hpp and
--     Peripheral.cpp, Service.hpp and Service.cpp, Characteristic.hpp, Characteristic.cpp, Descriptor.hpp and
--     Descriptor.cpp. Bindings/Adapter: bindings/Adapter.hpp and Adapter.cpp.
--     Bindings/Startup and Bindings/Shutdown: Init_RuBLE and DeInit in bindings/RuBLE.cpp, with Init_Registries in
--     management/Registry.cpp and wrap_termination_handler in utils/exception_handling.cpp; Shutdown/Exit is DeInit with
--     the queue that it stops. Bindings/Device is a device for the tests.
--     The globals of bindings/globals.cpp are in Bindings/Startup too. Bindings/Enums: the enumerations that Ruby sees.
--     Bindings/Methods: the functions Init_* of bindings, containers and management/Registry.cpp, which define the classes and
--     methods for Ruby, as tables of statements; its child Loading runs them.
--   * Bindings/Marking: utils/garbage_collection.cpp and ruby_mark of every class. Bindings/Inspection: to_s of every class.
--     Bindings/Characteristic/Backlog and Bindings/Adapter/Queued: values that are notified and peripherals that are found
--     while the thread of Ruby is busy or keeps up, through the queue. Bindings/Adapter/Scanning: what starts and stops a scan. Bindings/Service/Owners: the registries of several services. Bindings/Routing: from a
--     peripheral to a descriptor, and the calls on what was found.
--   * Containers/ByteArray, Containers/NamedBitSet, Containers/Callback: the files of these names in
--     containers, with utils/containers.hpp for `join`; Utils/Containers is its `map_by`.
--   * Concerns/ValueTracker: concerns/CharacteristicValueTracker.hpp and CharacteristicValueTracker.cpp.
--     Concerns/Rubyable: concerns/Rubyable.hpp.
--   * Utils/Async, Utils/CallbackTraits, Utils/RubyContext: utils/async.hpp and async.cpp,
--     utils/RubyCallbackTraits.hpp and RubyCallbackTraits.cpp, utils/ruby_context.hpp. Utils/Ruby: utils/ruby.hpp.
--     Utils/ExceptionHandling: utils/exception_handling.hpp and exception_handling.cpp, with cpp_protect of utils/ruby.hpp. Utils/Hexadecimal: utils/hexadecimal.hpp. Utils/Inspection: utils/inspection.hpp and inspection.cpp.
--
-- The modules called Runs, and RubyQueue/Scheduled with its scheduler, hold tests and concrete instances of the theorems.
--
-- What is a parameter: SimpleBLE (`Backend` and `AdapterBackend`: a state, and functions that return or throw and change it),
-- boost::endian with the byte order and the size of unsigned long of the platform (`Platform`, with its documented
-- behaviour as `Converts`), boost::algorithm::hex_lower (`Boost`, with its documented behaviour as `WritesHex`) and
-- boost::describe::enum_to_string, boost::enable_error_info, what Rice marks for a type of its own, its table of methods
-- and its choice of a receiver (`Rice`, with its documented behaviour as `Documented`), Ruby's conversions (`Ruby`, with their documented behaviour on Integers as
-- `Integers`) and its inspect, the
-- names of types, the clock and sleeping (`Environment`, where threads run in between with `Schedules`), and the classes of the objects and proxies of a registry.
--
-- Machine integers: `uint_least8_t` and `uint8_t` wrap at 256, the counter of ruby_context at 2 ^ 64,
-- and `to_i` is over the bytes of its type. Sizes of containers do not wrap. The semaphore's count has no
-- bound here; `semaphore_max` is the greatest that its type is sure to hold.
-- Fuel: `wait_until` and the loops that poll with it run on fuel, and `none` means that it ran out; the theorems
-- on them say which fuel is enough. `drain` runs one round for each unit of fuel; the theorem on it gives as much as
-- there are items.
--
-- Not modelled: declarations, type aliases and concepts, which have no behaviour; functions that nothing calls
-- (extract_stacktrace, the disabled ruby_thread_create); the classes that Rice defines for maps and pointers; the text of
-- exceptions that the code throws and of debug output; the content of backtraces; the Ruby files below lib, which hold no state
-- that the parts above depend on; what rb_thread_kill does to a thread; what other
-- threads see between the steps of RubyQueue::start, or of a call of the unlocked hash map of RegistryFactory; and what becomes of the program when a proc that
-- the queue's thread calls raises an exception, which nothing there catches, so that it goes through frames of Ruby's own C code.
pub mod Base
pub mod Utils
pub mod Containers
pub mod Concerns
pub mod Management
pub mod Bindings
