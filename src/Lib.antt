-- ===== src/Lib.antt =====
-- A verification of the ECU platform's C modules: ring buffer, bit utilities, CRC-16, CRC-32, the
-- packet builder and parser with the protocol that they share, memory pool, software timers, logger.
--
-- The parts and their files. Each module stands alone, except that the packet builder and the packet
-- parser call the CRC-16 module and share the constants of the protocol.
-- * RingBuffer models src/ringBuffer.c and include/ringBuffer.h. The record RingBuffer has the
--   fields of RingBuffer_t; init, push, pop, peek, clear, is_full, is_empty, get_size, get_capacity
--   and get_available_space are the functions ringBufferInit and so on. RingBuffer/Queue is the
--   bounded queue that the ring implements, RingBuffer/Valid the invariant, RingBuffer/Window the
--   elements that a ring holds, RingBuffer/Refine and RingBuffer/Query the single calls,
--   RingBuffer/Calls any call with what the queue answers to it, and RingBuffer/History sequences
--   of calls.
-- * BitUtils models src/bitUtils.c and include/bitUtils.h, on the bitwise operations of Bits, whose
--   lemmas describe a number by its binary digits. BitUtils/Mask, BitUtils/Digits, BitUtils/Fields
--   and BitUtils/Laws are about the single calls; BitUtils/Words and BitUtils/Array run them in
--   place on one word.
-- * Crc16 models src/crc16.c and include/crc16.h: crc16Init, crc16Update, crc16GetResult,
--   crc16Compute and crc16Verify, with the loop over the bytes and the loop over the bits.
--   Crc16/Compute relates them to the pure `checksum`; Crc16/Register and Crc16/Detect are about
--   the register and about changed messages, Crc16/Standard about the bit-wise model.
-- * Crc32 models src/crc32.c and include/crc32.h in the same way, with the reflected register and
--   the final complement; Crc32/Compute relates the calls to the pure `checksum`, and
--   Crc32/Register, Crc32/Detect and Crc32/Standard are as for CRC-16.
-- * Catalogue has no code behind it: it is the parametrised bit-wise model of checksums, by which
--   the headers of both modules name their algorithms.
-- * Streaming is the interface that both checksum modules have: the calls with what they promise,
--   and sequences of them. Crc16/Streaming and Crc32/Streaming fill it.
-- * Protocol models include/protocol.h; its `frame` is the specification of a packet on the wire.
-- * PacketBuilder models src/packetBuilder.c and include/packetBuilder.h, PacketParser models
--   src/packetParser.c and include/packetParser.h: packetBuilderBuildPacket, packetParserParse and
--   packetParserGetPacketSize. PacketBuilder/Build is about the frame that is built,
--   PacketBuilder/Outcome about any arguments. PacketParser/Accept and PacketParser/Sound are about
--   what the parser accepts, PacketParser/RoundTrip about a packet built and parsed.
--   PacketParser/Framing has a sender and a receiver that use the two modules as their headers say;
--   PacketParser/Wire and PacketParser/Chunks are about packets in a row that arrive in chunks.
-- * MemoryPool models src/memoryPool.c and include/memoryPool.h: memoryPoolInit, memoryPoolAcquire,
--   memoryPoolRelease and the queries. MemoryPool/Valid is the invariant, MemoryPool/Steps and
--   MemoryPool/Outcomes the single calls, MemoryPool/Start init, MemoryPool/History sequences of
--   calls, MemoryPool/Ownership and MemoryPool/Exclusive the blocks that a client holds along the
--   way. MemoryPool/Returned looks at a pool up to the order of its free stack, as a quotient, on
--   the counts of MemoryPool/Occurs. MemoryPool/Allocator is the allocator that a pool implements,
--   MemoryPool/FreeList its list of addresses, MemoryPool/Stands and MemoryPool/Refine the
--   refinement.
-- * SwTimer models src/swTimer.c and include/swTimer.h: softwareTimerInit, Create, Start, Stop,
--   Delete, GetState and GetRemainingTicks; SwTimer/Tick is softwareTimerTick. SwTimer/Slots is the
--   invariant, SwTimer/Handles and SwTimer/Laws the calls through a handle, SwTimer/Create,
--   SwTimer/Delete and SwTimer/Fresh what their names say, SwTimer/Reentry and SwTimer/Quiet one
--   tick, SwTimer/Lifetime any number of ticks. The callbacks are a parameter of tick that acts on
--   the slots and on a state of the application; a call of init from a callback is not covered.
--   SwTimer/Order is about the order of the callbacks. SwTimer/Moves is the state machine of one
--   slot, SwTimer/Lives a whole pool of them, SwTimer/Sweep the scan of a tick, SwTimer/Countdown
--   what the code makes of one slot in it, SwTimer/Diagram what each call is to do to the slots,
--   SwTimer/Calls the functions, SwTimer/Rounds a tick whose callbacks call the functions;
--   SwTimer/History and SwTimer/Safety are about any sequence of calls.
-- * Logger models src/logger.c and include/logger.h: loggerInit, SetBackend, ClearBackend, SetLevel
--   and GetLevel; Logger/Write is loggerWrite with the macros LOGGER_ERROR, LOGGER_WARN,
--   LOGGER_INFO and LOGGER_DEBUG. snprintf and vsnprintf are one parameter, of which Logger/Format
--   states what the C standard says; the backends are another, which acts on a world of the
--   application. Logger/Deliver is about what a backend gets, Logger/Outcome about how a call ends,
--   Logger/Macros about filtering, Logger/Settings about sequences of the other calls,
--   Logger/Session and Logger/Promises about sequences of all of them, for backends that look at
--   nothing behind the text they are given (`Reads`). Logger/Turns cuts loggerWrite into steps,
--   Logger/Course adds the steps of one call up, and Logger/Interleave is about calls that take
--   turns, each with its own buffer, as tasks do that log at the same time. The maximal message
--   length is any number from 2, which the header demands, to 2 ^ 64.
-- * Base has what the modules share: byte memory, fixed-width arithmetic, the loop over a buffer.
--
-- How C is modelled. A pointer argument is an Option: `none` is NULL, `some` carries what the pointer
-- points at, and the result carries it again after the call. Memory is a list of bytes; a read or
-- write outside it is the value `fault` of Exec, so a theorem that a call gives `done` also says that
-- it stays inside its memory. `size_t` and `uintptr_t` have 64 bits and wrap around; `uint8_t`,
-- `uint16_t` and `uint32_t` arithmetic is taken modulo the width. Pointers of one call are assumed
-- not to overlap. Loops are structural recursion on the number of rounds that are left, so that no
-- fuel is needed; only the receiver of PacketParser/Framing has fuel, the number of bytes that it has,
-- of which each packet takes at least one.
--
-- Not modelled: the test programs; interrupts and threads in all modules but the logger, since the
-- others leave locking to their callers; and changes of the logger's settings while a message is
-- written, which its header leaves to the caller as well.
pub mod Logger
pub mod Crc32
pub mod SwTimer
pub mod Base
pub mod Bits
pub mod BitUtils
pub mod Crc16
pub mod Protocol
pub mod PacketBuilder
pub mod PacketParser
pub mod MemoryPool
pub mod RingBuffer
pub mod Catalogue
pub mod Streaming
