-- ===== src/Lib.antt =====
-- Verification library of the trading system's core: the ITCH market data client from its receive
-- buffer to its threads, the order book, the best quotes over the venues, the replay of recorded
-- messages, and the routes of messages between the services.
--
-- Parts. The socket of the ITCH client writes what it receives into an expandable ring buffer and
-- reads packets from it, which a factory turns into messages. The session's threads read
-- messages, send heartbeats and hand messages to handlers through a queue. An order book, apart
-- from the client, keeps orders by id and by price, and answers what rests at a price and what
-- the best prices are; an older book keeps price levels up to a depth. The aggregated book keeps
-- a quote for each venue and broadcasts the best. The replay server pumps the lines of a file to
-- a dispatcher that sends them. For orders, a broker takes the messages of the strategies, keeps
-- the routes back to them and who made which order in caches that are written to files, and calls
-- the order entry, which speaks FIX with a venue and sends the venue's reports to the broker; what
-- it sends either way it also sends to a serializer, which keeps the orders and trades in a
-- database.
--
-- Ring.antt: market_data/itch/ExpandableRingBuffer.{h,cpp}. The state is the record RingBuffer
-- with the members of the class; the block that m_pcBufferHead points to is a function from
-- offsets to bytes, and the bytes that realloc leaves uninitialised are a parameter. WriteData is
-- `write_data` with its parts `write_first`, `expand`, `unwrap` and `store`, ReadData `read_data`,
-- ReadDataUtilByte `read_data_util_byte`, OffsetOfByte `offset_of_byte`. A failed assertion is
-- `none`. The int lengths are natural numbers, without overflow: the buffer is taken to stay
-- below 2^31 bytes. Ring/Valid has the invariant and the data as a list, Ring/Write, Expand and
-- Loss are about writing, Read, Search and Until about reading, Fifo about sequences of both,
-- Refill about writing to an empty buffer.
--
-- Book.antt and Book/Limit.antt: order_book/order_book.v2. KOrder objects live on a heap, since a
-- limit and the order map point to the same object and `modify` changes it through the limit;
-- destroying objects is not modelled. A limit is in one tree only, and is a value there. A
-- std::set of limits is the list of its elements in ascending order, its operations are
-- `find_limit`, `insert_limit`, `erase_limit` and `put_limit`. KBook::add, remove, modify, clear
-- and the queries have the source's names in snake case. Undefined behaviour and failed
-- assertions are `none`, the conversion of a size that is no uint32_t among them. Volumes are
-- uint32_t and wrap.
--
-- Double.antt: the comparison and conversions of double are parameters; the theorems rely on
-- their order being that of a rank and on a conversion to uint32_t being below 2^32 where it is
-- defined. Which values can be converted is a parameter too, and a size that cannot is excluded by
-- a condition of the theorems.
--
-- Receive.antt: Socket::RecvPacket of market_data/itch/Socket.cpp, in the build with the ring
-- buffer. The chunks that recv returns are a parameter; a failure of recv, after which the code
-- loops, is the end of the chunks.
--
-- Packet.antt: market_data/itch/msg/PacketBase.{h,cpp}. A read is a function from a packet to an
-- outcome with the packet after it. strtol, strtod, the decimal print of a long and boost's
-- trim_right are parameters. Packet/Safe, Size and Write are about staying within the packet, about
-- how far a read moves, and about writing.
--
-- Message.antt and Message/Hotspot.antt: MessageFactory::ParseMessage and the Load functions of
-- market_data/itch/msg/server and hotspotfx. The registered creators are lists of types and loads.
-- The fields of a message whose load has failed are not modelled, since it is deleted.
-- Message/Client.antt has the Save functions of client. Hotspot/Safe and Size, Parse, Total and
-- Client/Login are the proofs.
--
-- Socket.antt: the rest of market_data/itch/Socket.cpp, with what connect, send, select and recv
-- return as parameters. Socket/Poll has the receiving half, Socket/Send what a send puts on the
-- wire.
--
-- Session.antt, Session/Log, Route and Workers: market_data/itch/Session.{h,cpp}. The record Session
-- has the members of the class; a call is a function from the session at its lock to the session
-- at its unlock. Session/Workers has one round of each thread, Session/Dispatch the threads as a
-- step relation on a session, a server thread and a pool, in which any thread may move whenever
-- the code lets it, and `Stop` and `Start` again; what wakes a thread is left open. Session/Calls, Log/Bounds, Miscast and
-- Dispatch/Queue, Once and Left are the proofs. Message/Cram is about messages that fail to load.
--
-- Aggregated.antt: aggregated_book/aggregated_book.cpp and the quotes of
-- common/src/c++/utils/bbo_book_types.{h,cpp}. updateOrderBooks is `update_order_books`; the clock is
-- read once in a call, and every broadcast is a value. Time.antt: common/src/c++/utils/time_utils.cpp.
--
-- Replay.antt: replay_server/msg_pump.cpp, the thread of the pump and its consumer as a step
-- relation, on a file that ends or fails; Replay/Dispatcher is the loop of
-- replay_server/msg_dispatcher.cpp on the results of the pump, with the FIX library and the state of
-- its parser as parameters, and no request to stop.
--
-- Route.antt: the struct route of common/src/c++/utils/types.h, with the array of addresses as its
-- bytes. Route/Cache: the serialisers of order_entry/order-fix/msg_cache.h, on a file whose writes
-- succeed.
--
-- Broker.antt: order_entry/order-fix/msg_processor.cpp, with the caches of msg_cache.h. A socket is a
-- list of frames, each with the mark that more follow; receiving from one with none left is
-- `waits`, a failed assertion or undefined behaviour `fails`. google::dense_hash_map and the file it
-- is serialised to are parameters with what its documentation says, Broker/Maps. MsgProcessor::run
-- is `run` on the list of what its calls of poll return, in single rounds of `poll_round`; the
-- frames that the broker sends to its own inproc socket are there at the next poll. Broker/Spec is a
-- router of whole messages, Broker/Refine relates the two, with Incoming, Keep, Answer and Outgoing
-- about single messages and Run about the loop. Restart is about the file of the routes, Short
-- about messages that are cut off, Assoc a map for the examples. The thread that answers pings and
-- the setting up of sockets are left out.
--
-- OrderEntry.antt: order_entry/order-fix/application.cpp for FIX 4.2, the only version that it sends.
-- The messages to and from the venue are records of the fields that are set, the protobuf messages
-- of common/proto records of what their getters return; how these are parsed and written, UUIDs and
-- the constants of FIX are parameters. OrderEntry/Orders has `dispatch` with the case of each type
-- and newOrderSingle42 and the like as `new_order_single42`, Reports the two onMessage that answer a
-- strategy. What sendToTarget returns is only logged, and not modelled. Echo, Routing
-- and Sends are the proofs, of which Routing sets the broker and the order entry side by side, and
-- Sample has what the examples share.
--
-- Serializer.antt: trade_serializer/trade_serializer.cpp. The connection to the database is a
-- parameter: a statement is executed, or throws while it is prepared or later, when the database may
-- have changed or not. Serializer/Laws has
-- what is relied on of the tables of trade_serializer/schema.sql, and a database that answers.
-- handleOrders is `handle_orders` on a list of times, a message at each. Statuses, Rejected and Filled
-- are the proofs, of which Filled sets the order entry and the serializer side by side; Table has
-- the two tables as lists for the examples.
--
-- PriceDepth.antt: order_book/order_book.v1, PriceDepthOrderBook. Entries live on a heap, and an
-- entry that the book destroys is put on a list; that nothing reads it afterwards is not stated. A
-- decrement of an erased iterator is `none`.
-- A std::map is a list in the order of its comparison, PriceDepth/Maps. The time stamps and the
-- codes of the entry types of the FIX library are parameters. PriceDepth/Trim and Sorted are about
-- the depth and the order of a side, PriceDepth/Undo about adding and removing.
--
-- Proofs about the book of orders. Book/Valid has the invariant; Tree, Orders and Volume the lemmas on
-- trees, on lists of orders and on volumes; Join, Insert and Add are about adding, Leave, Withdraw
-- and Remove about removing, Resize, Amend, Levels, Modify and Stamp about modifying; Query and
-- Best about the queries; Spec, Calls and Run set sequences of calls against a list of orders.
--
-- There is no fuel: every loop is structural recursion, over what the outside returns where the
-- code loops on that. Not modelled: printing; the sessions, console and other versions of the FIX
-- applications, whose logic is in calls of the FIX library; zeromq and protocol buffers around the
-- aggregated book; the flat book of order_book.v3; the vendored hashes.
pub mod Base
pub mod Double
pub mod Ring
pub mod Book
pub mod Route
pub mod Receive
pub mod Serializer
pub mod Message
pub mod Session
pub mod OrderEntry
pub mod PriceDepth
pub mod Time
pub mod Socket
pub mod Replay
pub mod Aggregated
pub mod Packet
pub mod Broker
