-- ===== src/Lib.antt =====
-- claire-common is a C++ library that the other claire libraries build on: an event loop, thread
-- primitives, logging, counters and histograms, tracing, text helpers. This development models the
-- parts with logic of their own and proves what makes them correct.
--
-- How the parts correspond to the code (paths from the repository's root):
--   Common        shared names; Common.Word has int and int64_t as bit patterns that wrap,
--                 Common.Outcome what a call comes to (a value, a failed CHECK, behaviour that C++
--                 leaves undefined, or fuel that ran out).
--   Metrics       claire/common/metrics. Ranges is BucketRanges and
--                 Histogram::InitializeBucketRanges, Samples is SampleVector with its iterator and
--                 HistogramSamples, Histogram is Histogram, Counters is CounterProvider, Counter and
--                 the difference that CounterSampler takes. A histogram owns its ranges and its
--                 samples; it records through SampleVector::Accumulate, and a snapshot merges the
--                 samples into a new vector through the iterator. A counter finds its cell through
--                 the provider, by its id and the slot of the calling thread.
--   Events        claire/common/events. Timeouts is TimeoutQueue, Poller is Channel and
--                 poller/EPollPoller, Loop is EventLoop, LoopPool is the turn of the loops in
--                 EventLoopThreadPool. The loop polls, calls the channels that are
--                 active and then runs the tasks that were posted; a channel tells the poller what
--                 events it asks for; the queue's timer is one of the channels.
--   Logging       claire/common/logging. Logger is LogBuffer and Logger, with the rounds of its
--                 thread among the lines of other threads; Stream is LogStream, which writes
--                 numbers through Strings.Number; File is LogFile, which rolls over on Files.
--   Strings       claire/common/strings. Number is the numbers of StringUtil.cc, Uri is UriEscape.cc
--                 with the tables that generate_escape_tables.py writes, Piece is StringPiece,
--                 Printf is StringPrintf.cc over a vsnprintf that is given.
--   Registry      HistogramRecorder and TraceRecorder (claire/common/metrics and tracing), one
--                 registry over the key.
--   Symbolizer    claire/common/symbolizer, the DWARF parser of Dwarf.h and Dwarf.cc. Reader is its
--                 Read functions, Section the chunks of a section, FilePath is Dwarf::Path, Entries
--                 the abbreviations and attributes, Lines is LineNumberVM (Names reads its header
--                 and the names, Search finds an address) and Lookup is Dwarf itself: it finds the
--                 compilation unit of an address, reads the unit's attributes with Entries and runs
--                 the unit's line number program. Elf is ElfFile of Elf.h and Elf.cc, the searches
--                 for sections, and in Symbols for symbols, over the bytes of the mapped file.
--                 Process is Symbolizer, which finds the file that is mapped at an address, keeps
--                 it, and asks Elf for the symbol and Lookup for the line.
--   Files         claire/common/files. System is a record of the calls of the C library and the
--                 system, Streams the kinds of file, Whole the functions on names and whole files.
--   Threading     BlockingQueue (claire/common/base), CountDownLatch and ThreadPool
--                 (claire/common/threading), as step relations over the threads that sleep and wake.
--   Tests         runs at concrete inputs, and the theorems applied there.
--
-- Choices. A signed overflow, which C++ leaves undefined, wraps. A DCHECK is dropped, as in a
-- release build, but for those of RemoveChannel. Loops take fuel: a binary search or a merge as
-- many rounds as there are buckets (for a merge twice, and one), the layout loop one for each
-- bucket, IntToBuffer 20 digits and HexToBuffer 16, which suffice for 64 bits; the theorems say
-- that the loops end. Floating point is a record of operations, and what a theorem needs of it
-- is a hypothesis: that for positive numbers a step is at most half a unit above that of a
-- linear interpolation, and that the last step gives the maximum. A loop of the symbolizer takes
-- one round more than there are bytes ahead, and each round takes a byte. A StringPiece there is
-- what lies in the mapped file from its pointer on, and a size, since StringPiece::advance moves
-- the one and leaves the other; reading past the file is undefined. The constants of DWARF 4 are
-- written out. An exception that ends a call, of boost::get for one, stands with the failed
-- CHECKs. Boost's container of timeouts is a record of operations with what boost documents as
-- laws. What code under a lock does is one step; what happens between the steps of a thread is
-- an argument of its model, or, in Threading, a step of another thread. A callback is the list
-- of what it does to the object that calls it. StringAppendV has a round for each size up to 32
-- MB, and ReadFileToString takes fuel above the length of the file; both are proved to be
-- enough. The calls of the system are a record of functions over an unknown state, with what the
-- C standard says of fread and fwrite as laws.
--
-- Not modelled: the listing of a directory, rapidjson, protobuf; the text that histograms print;
-- the mapping of ELF files into memory; wrappers of pthreads. Memory reclamation is modelled for
-- the registry only, where an object is deleted.
pub mod Common
pub mod Events
pub mod Files
pub mod Logging
pub mod Metrics
pub mod Registry
pub mod Strings
pub mod Symbolizer
pub mod Threading
mod Tests
