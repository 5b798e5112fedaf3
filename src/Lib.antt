-- ===== src/Lib.antt =====
-- The I/Q data port of the Icom IC-7610: control of the radio over CI-V commands, the stream of I/Q
-- samples over an FTDI FT601 bridge, and the SoapySDR device on top of them.
--
-- The parts and how they interact. `IcomIQPort` (include/IcomIQPort.hpp, src/IcomIQPort.cpp) owns the
-- USB pipes: a command goes out as one padded CI-V message on one pipe, its reply comes back on a
-- second, and samples come in on a third. A reader thread of the port puts the samples in a
-- `BlockingRingBuffer` (include/BlockingRingBuffer.hpp), from which clients take them. `IcomCIVPort`
-- (src/IcomCIVPort.cpp) sends the same messages over a serial port. `SoapyIC7610SDR`
-- (include/SoapyIC7610SDR.hpp, src/IC7610SDR_Settings.cpp, src/IC7610SDR_Streaming.cpp) maps the calls
-- of SoapySDR to those of the I/Q port. `IcomIQPortStream` (include/IcomIQStream.hpp) reads the I/Q
-- pipe into the buffers of a `BufferPool` (include/BufferPool.hpp) and writes them to disk.
--
-- The files:
--   Prelude    native numbers, Boolean tests, lists, memory copies, signed integers, and the monad of
--              methods: a call returns, throws, or is undefined behaviour, with rules for what holds
--              of a call that returns, for predicates that a method keeps, and for methods that are
--              not undefined
--   Common     include/common.h
--   Bcd        read_bcd, bcd_digit and bcd_digits of include/IcomIQPort.hpp
--   Ring       include/BlockingRingBuffer.hpp: the state is the record `Ring`, writebuf and readbuf are
--              functions to a `Step`, which blocks where the source waits
--   Pool       include/BufferPool.hpp: `acquire` and `release` over a heap of buffers
--   BufferManager
--              include/BufferMGR.hpp, which nothing includes
--   Driver     the FTDI D3XX library, a parameter
--   Frame      the output buffers of sendIQCommand and sendCIVCmd
--   Port       src/IcomIQPort.cpp: Command (send and receive), Device (open, close, timeouts, data
--              switch, pipes), Levels (gain, attenuator, preamplifier, frequency), Settings (antenna,
--              DIGI-SEL, IP+), Data (reads), Async (the reader thread; in Destroy, the destructor
--              beside it), Configuration (what the bridge says of itself)
--   Stream     include/IcomIQStream.hpp: the completions of reads and writes are a step relation, in
--              any order; Convert is the conversion to CF32
--   Civ        src/IcomCIVPort.cpp, with libserialport as a parameter
--   Soapy      the SoapySDR device: Settings, Streaming, Registration, which is
--              src/IC7610SDR_Registration.cpp, and Life, which is a device from its constructor to
--              its destructor: a list of calls, which an exception ends
--   Tools      the programs of Tools: Options and Radio (what they share), Net (the sockets of
--              IC7610TCPServer.cpp and IC7610TCPClient.cpp), Push (IC7610zmqPush.cpp), Writer
--              (SigMFFileWriter.cpp), Programs (each up to its loop), Server (TCPServer while it
--              runs: the accept loop, its client threads and the reader), Find (findDevice.cpp).
--              Push/Program, Writer/Program and Client are each a whole program, from its options on
--
-- What is chosen. A pipe, a port or a device is a record whose `world` is what the libraries and the
-- radio remember; a library call takes the world to a new one. A byte is a natural number, and an
-- unsigned word wraps where it is computed with; an `int` is an integer. The samples of the ring are
-- kept as bytes, since both its ends copy bytes. The loop of `pad` has fuel 4, which is enough
-- because a buffer is at most three bytes short of a multiple of four (`pad-eq` in Frame/Laws); the
-- loop of readCIVReply has the 127 rounds of the source. A history of calls on the ring is a list,
-- in the order in which they get the mutex; a call that waits is a history that blocks. The reader
-- thread is its turns: the test of `_running`, the read that it then waits for, a `writebuf` that
-- waits, and, after a read that fails, its own iqAsyncStop up to the join and from there on. It and
-- its clients are a step relation on the port, in which a call of the port is one step, but for
-- iqAsyncStart and iqAsyncStop, which are two each: the thread may have turns before `_running` is
-- set, and before the join. A wait of a client is a call that blocks. The threads of TCPServer are
-- such a relation once more, with where each client stands. TCPClient is one client of that kind, and
-- zmqPush has a relation of its own, with the counters of its loop, which are `int`s; a send of it
-- that waits for a peer, or throws, is one that takes no step. The destructor of the port
-- is two steps, around its join, among turns of the reader. A whole program is the equation that its
-- set-up returns settings, followed by such a history. The writes of the stream that have not
-- completed are a list, of which any may be the next to complete.
--
-- What is not modelled: logging and printing, the event of the stream, the
-- alignment and the bytes of pool buffers and of the stream to disk, what the library says of the
-- chip beyond the numbers that are put in a text, and the test programs. getopt, atof, sockets,
-- ZeroMQ, JSON, files, the clock and paths are parameters; that bind and listen work is taken for
-- granted, as the server does. A client whose join comes after that of another one of the same
-- thread is taken to find no thread. The join of iqAsyncStop is the point between `stop_request` and
-- `stop_finish`; an exception in the reader ends the program, so no step follows it. The `memset` of
-- four bytes that the reader does behind its first queued read, and could overwrite the first
-- sample with, is left out, and so are the two counters of handleClient, `int`s that it prints and
-- that overflow after 2^21 rounds of a client, and a failure of zmqPush to bind its socket.
pub mod Prelude
pub mod Common
pub mod Bcd
pub mod BufferManager
pub mod Ring
pub mod Pool
pub mod Driver
pub mod Frame
pub mod Port
pub mod Civ
pub mod Soapy
pub mod Stream
pub mod Tools
