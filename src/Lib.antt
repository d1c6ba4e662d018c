-- ===== src/Lib.antt =====
-- A verification library for IPCInfra: the reactor that tells handlers of what happens on file
-- descriptors, the epoll demultiplexer that it runs on, the containers that both share, the
-- policies by which an endpoint subscribes to the reactor and hands its input on, sockets, the
-- utilities for files and descriptors, and the reader of configuration files.
--
-- The program. A client subscribes a handle, a set of events and a handler object with Reactor
-- (TransportInfra/Reactor/Reactor.hpp), which enters a SubscriberContext into its table of
-- subscribers, registers the descriptor with EpollDemultiplexer
-- (TransportInfra/Reactor/EpollDemultiplexer.h) and keeps the handler object in a second table. The
-- demultiplexer's thread waits on epoll and puts an EventNotification for each ready descriptor
-- into a shared_queue (UtilitiesInfra/shared_queue.hpp). The reactor's thread takes the
-- notifications out, finds the subscriber by its key, sorts the events and calls the handler, marks
-- subscribers with an invalid handler as expired, and cleans them up from time to time. Above it,
-- an endpoint derives from an event handling policy, which subscribes it and calls its handlers;
-- these read from a device, which keeps its descriptor in a UnixResourceHandler and reads and
-- writes by LinuxIOUtilities, and hand what they read to a dispatcher.
--
-- The files.
-- - Prelude: names of the libraries, tests and lists over native numbers, integers, bits of words,
--   keys, and Run, what a call comes to: a value, undefined behaviour, a deadlock or an endless loop.
-- - Guarded: an object behind its mutex. A critical section is one step (Guarded.critical); copying
--   and moving are copy_constructor, move_constructor, copy_assign and move_assign.
-- - SharedQueue: UtilitiesInfra/shared_queue.hpp, push, try_pop, wait_and_pop and empty. A wait runs
--   to where it blocks or returns, and a blocked one is a step of its own (Fifo) when it is woken.
-- - LookupTable: UtilitiesInfra/shared_lookup_table.hpp. Hash is the table over std::unordered_map,
--   Sorted the one over std::vector, Operations the loops of container_operations.
-- - Events: TransportInfra/Reactor/EventTypes.h. Mask has getEventsMask and getEventsFromMask of
--   TransportInfra/Reactor/EpollDemultiplexer.cpp, Priority the comparison of sortByPriority.
-- - Demux: EpollDemultiplexer, getKeyFor, registerImpl, unregisterImpl, updateImpl; Demux/Monitor
--   its monitorWaitThread. Laws and Rounds hold proofs.
-- - Reactor: the reactor's state and tables; Reactor/Subscribing has subscribe, subscribeImpl and
--   unsubscribe, Reactor/Dispatch eventProcessingThread, Reactor/Lifecycle start, stop, clear and
--   the destructor's loop. The other files below Reactor hold proofs: Cleanup, Soundness (the
--   invariant), Entry, Subscribe, Unsubscribe, Delivery, Resubscribe, EarlyNotification, Restart.
-- - EventHandling: BaseEventHandlingPolicy and GenericEventHandlingPolicy
--   (TransportInfra/Policies/EventHandlingPolicy.hpp), over any listener. Session has Registry, the
--   interface of a listener that keeps its subscribers, and OverReactor fills it with the reactor.
-- - Sockets: ResourceHandler is UnixResourceHandler (TransportInfra/Policies/UnixResourceHandler.cpp),
--   Device is SocketDevice (TransportInfra/Devices/Sockets/SocketDevice.hpp) with connect, disconnect
--   and shutdown of TransportInfra/Policies/ConnectionPolicy.hpp and bind, listen and accept of
--   TransportInfra/Policies/AcceptorPolicy.hpp; Ownership and States hold proofs.
-- - LinuxIo: LinuxIOUtilities (UtilitiesInfra/LinuxUtils/LinuxIOUtilities.cpp and .hpp). Reading has
--   read, readLine, readInBuffer and availableSize, Writing write, Receiving recv and recvInBuffer,
--   Copying copyTo, Opening openNewFile and openExistingFile, Paths getDirectoryAndFileName and
--   fullPath; the files below Reading hold proofs.
-- - Configuration: Reader is ConfigurationReader with streamSize and readContent
--   (Configuration/ConfigurationReader.cpp), where iterators are positions; Book is ConfigurationBook
--   (Configuration/ConfigurationBook.cpp and .hpp). The files below them hold proofs, Reader/Printed
--   also the text that sections are printed to.
-- - Client: TransportEndpoint (TransportInfra/TransportEndpoint.hpp) in a client's role, with
--   TransportInfra/Policies/ClientCallbackPolicy.hpp and Dispatcher/Client, over the interface
--   ConnectableDevice, which OverSocket fills with a socket; Consistency holds proofs.
-- - Server: the server's TransportEndpoint with TransportInfra/Policies/ServerCallbackPolicy.hpp, the
--   associative storage and Dispatcher/Server; Server/Clients has the events of a stored client's
--   endpoint, whose callbacks are the server's. Serving, Sessions, Accepting, Disconnecting and
--   Reachable hold proofs; OverSocket is a listening socket as the device that accepts.
-- - Connection: EndpointConnectionInitialiserBase
--   (TransportInfra/EndpointConnectionInitialiserBase.hpp); Connection/Connector is Connector2
--   (TransportInfra/Connector.hpp) over a client's endpoint, Connection/Acceptor the acceptor
--   (TransportInfra/Acceptor.hpp) over a server's. Tallies, Completing, Outcomes and Stranding hold
--   proofs.
-- - TypeLists: UtilitiesInfra/typelist.hpp. Templates has the searches of
--   UtilitiesInfra/template_typelist.hpp, Values UtilitiesInfra/non_typelist.hpp, Dispatch
--   UtilitiesInfra/runtime_dispatcher.hpp and Policies UtilitiesInfra/policies_initializer.hpp;
--   Erasing, Reaching, Results and Lifecycle hold proofs.
-- - Conversion: UtilitiesInfra/ConversionUtils.h; Conversion/RoundTrip holds proofs.
-- - DeviceTypes: DeviceTypeReader of TransportInfra/ConnectorClient.cpp, over Configuration/Book;
--   DeviceTypes/Selecting holds proofs.
-- - Observers: Observable (UtilitiesInfra/Observable.hpp) with its ObservableStatePublisher
--   (UtilitiesInfra/ObservableStatePublisher.hpp); Counting and Hearing hold proofs.
-- - Endpoints: SingleEndpointStorage and AssociativeEndpointStorage
--   (TransportInfra/Policies/EndpointStorage.hpp), one file for each; Agreement has proofs.
-- - Dispatcher: the server's BaseDispatcherPolicy over a named pipe, and its LocalInputBuffer
--   (TransportInfra/Policies/DispatcherPolicy.hpp); Dispatcher/Server is the one over other devices,
--   Dispatcher/Client the client's, Dispatcher/FirstInput has proofs.
-- - Files: the enumerations of IOInfra/FileIODefinitions.h. Files/Permissions has FilePermissions
--   (IOInfra/FilePermissions.cpp), Files/StatusFlags FileStatusFlags (IOInfra/FileStatusFlags.cpp).
-- - Tests: the theorems at concrete inputs.
--
-- Names follow the source in snake_case (addHandlerInTable is add_handler_in_table).
--
-- What stands outside. The kernel is the record Demux.Epoll, any functions for epoll_ctl over any
-- state; what epoll_wait answers is the input of each round of the demultiplexer's thread; fcntl
-- is the record Files.StatusFlags.Fcntl, and the calls on paths are LinuxIo.Opening.FileKernel.
-- What each call of read, write or recv answers is the next of a list of offers (LinuxIo.Offer),
-- and what a call on a socket answers is an argument of the operation. What the server's and the
-- connector's devices and their listener answer are records of functions (AcceptingDevice,
-- ConnectableDevice, Listener); for sockets Server/OverSocket and Client/OverSocket fill the
-- first two. The hash of a handle, std::stable_sort, the clock and the code of the handlers are
-- arguments. A handler acts on the reactor, so that its code is a function from reactor to
-- reactor. Standard containers are lists; the iteration order of an unordered one is the order of
-- insertion.
--
-- Bounds. Handles are int and the model's integers are unbounded, which matters nowhere: a handle
-- is compared, stored, and reduced to 32 bits for the hash. Masks are words of 32 bits kept as
-- numbers. Times are in nanoseconds. The loop of subscribeImpl takes a number of rounds; one
-- round is enough where the key of the handle belongs to no other handle, and none is enough
-- elsewhere. The loops of LinuxIo go on as long as there are offers; one that has used all of
-- them waits, which is the answer `none`. A template that is nested more deeply than the
-- compiler's depth is a compile-time error, as is the call of a policy's deinit, which is
-- ambiguous; both are the answer `none` of TypeLists/Dispatch and TypeLists/Policies. The loops
-- of fillTable and collectionFor take numbers of rounds and end as endless_loop where they are
-- used up; the model of fillTable starts them with one more than the content has bytes, and each
-- round passes a byte.
--
-- Not modelled. Each operation of the reactor is one step, although the code locks its tables
-- several times in it. Printing is left out. The move operations of Reactor and
-- EpollDemultiplexer, the ownership of the handler bridges, the server's endpoint over a named
-- pipe, pipes and file devices and addresses are not modelled, and of the templates neither the
-- traits nor what only inherits; neither are the functions of LinuxIOUtilities that only call the
-- system (makefifo, generateTempFileName, getCurrentDir).
pub mod Client
pub mod Connection
pub mod Configuration
pub mod LinuxIo
pub mod Observers
pub mod Prelude
pub mod Demux
pub mod Conversion
pub mod DeviceTypes
pub mod Dispatcher
pub mod Endpoints
pub mod EventHandling
pub mod Events
pub mod Files
pub mod Guarded
pub mod LookupTable
pub mod Reactor
pub mod SharedQueue
pub mod Server
pub mod Sockets
pub mod TypeLists
mod Tests
