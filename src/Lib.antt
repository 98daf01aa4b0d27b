-- ===== src/Lib.antt =====
-- Models and proofs for MPMPESCoreCpp, a server for Minecraft: Pocket Edition in C++.
--
-- The parts that are modelled are RakLib, the network layer below the game, the lists of operators
-- and bans, the rails, the chunks of a level, item stacks and the packets of the game. A UDP
-- datagram arrives at the socket; SessionManager (src/raklib/SessionManager.cpp) finds or creates
-- the session of its sender; Session (src/raklib/Session.cpp) decodes it, acknowledges it, asks
-- again for what is missing, puts split packets together, delivers reliable packets in order, and
-- calls the handlers of the server. Every tick it sends what is due and closes sessions that have
-- timed out. The server above asks the lists of operators and bans who may join and what he may do,
-- and the rails which way they turn.
--
-- Files:
-- - Prelude and below: Boolean tests, lists, integers, bit masks, sets and maps over numbers.
-- - Binary, Binary/Stream: the readers and writers of src/binary/BinaryStream.cpp, and the cursor;
--   a function keeps its name (getLTriad is get_ltriad). Binary/Codec, Binary/At and Binary/Fields
--   hold the proofs.
-- - Raklib/Encapsulated, Raklib/Datagram, Raklib/Acknowledge: the packets of
--   src/raklib/EncapsulatedPacket.cpp, Datagram.cpp and AcknowledgePacket.cpp.
-- - Raklib/Session: the state of a session; Send, Handshake, Receive, Raw and Update below it are
--   the functions of src/raklib/Session.cpp, each loop and each block of a long function with a
--   name of its own. Frame, Sending, Routing and Entry say what a function leaves alone; Window is
--   about the two receiving windows (InTurn about the order of messages), Splits about split
--   packets (Parts and Sent about those that are sent), Recovery about what is sent again, and
--   Reach about all sessions that calls lead to.
-- - Raklib/SessionManager: the session table and the tick of src/raklib/SessionManager.cpp; Keys,
--   Sessions and Table below it are about the table, Tick about what a tick does to each session,
--   and Reach about all managers that calls lead to.
-- - Server/Permission, Server/Bans: the operators, the levels of commands and the bans of
--   include/mpmpes/server/Permission.hpp; Lookup below each holds the proofs.
-- - Block/Rails, Block/Rails/Placing: the shapes of rails, their recomputation and the placing of a
--   rail in include/mpmpes/block/Rails.hpp, over an interface for the level; Shapes,
--   Recompute and Updates below them hold the proofs.
-- - Level/Chunk: the blocks, metadata and heights of include/mpmpes/level/Chunk.hpp and
--   src/level/Chunk.cpp; Files below it has the file and the payload, Nibbles, Cells, Heights,
--   HeightMap, Passes, Sound, Elsewhere, RoundTrip and Loaded the proofs. Level/Generators: the
--   flat and the empty world of the same file; Noise below it has the noise, over the interface
--   Floats for the arithmetic of float, and Overworld, Nether and End the worlds; Columns, Flat,
--   Overworld/Sound, Nether/Caves, Nether/Bedrock and End/Platform hold the proofs.
-- - Item/Slot: item stacks and their slots on the wire, of include/mpmpes/item/Item.hpp; Clean,
--   Written and RoundTrip below it hold the proofs.
-- - Protocol/Info, Protocol/Encode, Protocol/Decode: the numbers, encoders and decoders of
--   include/mpmpes/protocol/Info.hpp and Packets.hpp, where encodeSetTime is encode_set_time;
--   Decode/RoundTrip holds the proofs.
-- - The Tests modules: runs on small inputs.
--
-- Conventions: a byte is a number below 256, and a string of bytes a list. An unsigned integer is a
-- natural number that wraps where the source lets it wrap. A float of the noise is an element of a
-- type that comes with the operations of the code. The int32_t bounds of the windows are
-- integers: they stay far below 2 ^ 31, since the numbers on the wire have 24 bits. A time is a
-- number of nanoseconds, where the source has seconds in a double. An exception that the caller
-- catches is `none`. What a session tells its manager and its handlers is a list of events. A
-- std::map is an ascending association list.
--
-- Fuel: the decoder of datagrams has one unit for each byte left, and each round consumes at least
-- one byte. The loops with a bound in the source (64 datagrams, 10000 packets, the number of
-- records or of parts) have that bound.
--
-- Not modelled: the socket and inet_pton, whose result is a parameter; the log; calls from a
-- handler back into the session during a packet; the motion along a rail; the reader of a sign's
-- tags; the opening of files; the rest of the program above RakLib (the server, players, levels,
-- inventories, plugins and configuration).
pub mod Prelude
pub mod Binary
pub mod Raklib
pub mod Server
pub mod Block
pub mod Level
pub mod Item
pub mod Protocol
