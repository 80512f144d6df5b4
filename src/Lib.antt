-- ===== src/Lib.antt =====
-- Models and proofs for a cache whose values are read under leases.
--
-- The parts of the program and their files:
--   * cache_system/include/timer_queue.h and cache_system/src/timer_queue.cc, the heap timer:
--     TimerQueue.antt. TimerQueue's members are the record Timers, EventTimer is EventTimer, and
--     add_timer, del_timer and tick have their names. tick runs over any program that owns the
--     queue (the record Host: where the queue stands in its state, and what its closures do);
--     tick_round is the body of the loop under its lock_guard. TimerQueue/Loop has the rule by which
--     a program shows an invariant of tick from one of its rounds. Standard/Heap has std::push_heap
--     and std::pop_heap on vectors.
--   * cache_system/include/cache_state_manager.h, the lease of one element as a state machine:
--     StateManager.antt. read_in and update_in collect read_op and update_op of the three state
--     classes, enter_state their enter_state; start_expire and stop_expire have their names;
--     on_guarantee_over and on_protection_over are the two closures that go to the queue.
--   * cache_system/include/cache_data_center.h, the elements and the map of them:
--     DataCenter.antt. CacheElement is CacheElement, CacheDataCenter is Center; read_element,
--     update_element and call_handle_of are the element's methods, read_op and update_op the
--     center's. DataCenter/Deadlock has the center as the program that owns the timer queue,
--     DataCenter/Steps its calls as a step relation, and DataCenter/Moves the calls together with
--     the runs of the timer queue. DataCenter/Lapses, Fronts, RoundEffects and RoundEnds follow one
--     round of tick through the closures, Tick and Endings the whole of it. DataCenter/LeaseStore
--     has the abstract store of values under leases, as a relation on what clients see, View and
--     Acts what a center is of it, and Refinement the sequences of both.
--   * cache_system/proto/cache_message.proto and cache_system/include/protobuf_message_common.h:
--     Message.antt, with header_available and its check_header, and do_send_cache_message.
--   * cache_system/include/protobuf_message_server_impl.h, the server: Server.antt with its state,
--     Server/WaitAcks with CacheWaitAcktManager and WaitCacheAck (register_wait_ack,
--     unregister_wait_ack, expire_handle and timer_handle), and Server/Operations, where
--     process_read, process_update and process_ack are on_process of the three operations,
--     on_process is the table message_op_, and on_receive has its name. Where an answer's id waits
--     already, left_of is what register_wait_ack leaves of the answer (~CacheMessageRaii is
--     released, in Message.antt). Message/Forms has the messages written out field by field.
--   * cache_system/include/protobuf_message_client_impl.h, the client: Client.antt. read_message and
--     update_message are what the two do_send_request send, enter_request is the part that
--     read_cache_async and update_cache_async share, and process_response, do_send_ack and
--     on_receive have their names.
--   * cache_system/include/snowflake.h, the generator of operation ids: SnowFlake.antt.
--   * cache_system/include/socket_group_netlink_impl.h and socket_group.h: Sockets.antt and
--     Sockets/Group. cache_system/include/message_server.h and message_client.h, the templates of a
--     socket with an implementation: Sockets/Endpoints.
--   * cache_system/include/common.h, result codes, exceptions and the clock: Common.antt and
--     Outcome.antt, and Common/Remaining with expire_milliseconds_of_timestamp.
--   * cache_system/src/common.cc, the log: Log.antt with write_log.
-- A read or an update goes from the data center to the element, from there to its state manager,
-- and from there to the timer queue, which all elements share; tick goes the way back through the
-- closures. A packet reaches the data center through the socket group, the MessageServer and the
-- server's on_receive, and its answer waits for an acknowledgement with a timer of its own. EndToEnd
-- has a client and a server together, and a packet on its way through the socket group.
--
-- How a call ends is the type Outcome: it returns, throws, waits for a mutex that its own thread
-- holds, is undefined, or is a loop that ran out of fuel. Calls are functions from a state to an
-- outcome with the new state. Platform stands for the process's surroundings: the readings of the
-- system clock, in milliseconds, and the addresses of new objects, which are not null and not in
-- use. A clock that is not set back is the hypothesis IsSteady. A closure is a value of TimerCall,
-- with the cache id of the element that it captures or the address of the answer.
--
-- The invariants: IsValid of a timer queue (heap order, distinct addresses), IsLeased of a manager
-- and the queue (a lease that runs has exactly one armed timer, at the manager's address, which
-- lasts as long as the lease; an idle manager has none) and IsCenter of a data center (every
-- element is leased, and there are no timers of others). Spares says that a call on one element
-- leaves the armed timers of the others, so that their invariant holds on.
--
-- Bounds and fuel: the loop of tick gets one unit of fuel more than the runs that are left in the
-- queue (rounds), and each round takes at least one of them away. The delay of an update
-- protection is the 32-bit word of the source. Clock readings and expiry times are numbers without
-- a bound, as 64 bits of milliseconds do not run over.
--
-- Parameters: what protobuf does with bytes is the parameter Wire. That it writes no message with a
-- header as no bytes is the hypothesis IsWritten, and that it reads what it has written, for a
-- message whose numbers fit their fields, is IsFaithful. What netLink reads from a socket is the
-- parameter sgetn. What the resend of an answer does to a data center in a run of the timer queue is
-- the parameter resend_ack, of which IsQuietAck says that it leaves the center alone but for the
-- clock. The handles of the program's user are the client's parameter Handles.
-- The packets that a server or a client has sent are
-- a list, each with the socket, which is a number (0 for a null one).
--
-- Not modelled: the polling and sending of the netLink library and UdpSocket, which only calls it;
-- the calls of the log; the protobuf arena; and the samples. The mutexes of the data center and of
-- its elements are taken within single calls only, never twice by one thread, and are left out;
-- calls run one after another. The order of entries in the standard maps, which the program does
-- not look at, is that of insertion.
pub mod Base
pub mod Standard
pub mod Outcome
pub mod TimerQueue
pub mod Common
pub mod StateManager
pub mod DataCenter
pub mod Message
pub mod Server
pub mod Log
pub mod SnowFlake
pub mod Client
pub mod EndToEnd
pub mod Sockets
pub mod Tests
