-- ===== src/Lib.antt =====
-- constexpr_fmt_str: compile-time parsed `printf` formatting (constexpr_fmt.h) and the asynchronous
-- logger on top of it (tz_logger.h, runtime_logger.h, runtime_logger.cpp, timestamp_formatter.cpp).
--
-- A log statement stores its arguments in the staging buffer of its thread; the background thread
-- moves the bytes to the sink's buffers, and the sink thread formats them behind a timestamp.
--
-- The parts and their files. `CFMT_STR` and `CFMT_STR_OUTBUFARG` (constexpr_fmt.h) analyse a literal
-- format string at compile time and then write the arguments into a bounded buffer.
-- - Outbuf: `OutbufArg`, the buffer with its running pointer and the number of bytes that a buffer
--   without end would have got. Outbuf/Holds relates it to the text it stands for.
-- - Spec, Spec/Scan: `isTerminal` to `getOneSpec`, `analyzeFormatString`, `countValidSpecInfos`,
--   `countArgsRequired`, `squeezeSoundSize`, `preprocessInvalidSpecs`. Spec/Pieces is a grammar of
--   format strings that the loops are compared with; Spec/Skip, Find, Analyze, Count, Store, Round and Switch compare
--   one loop each.
-- - Digits: `formatDec`, `formatOct`, `formatHex` with their tables (Digits/Tables); Digits/Value says
--   what a numeral means.
-- - Convert: `converter_single` and the recursion over specifiers and arguments. Args has the argument
--   types and `SARG`, `UARG`, `formattedWidth`, `maxFractSize`; Text, Integer and Float are the branches
--   of the conversion ladder; Emit is the common end that writes padding, sign, zeros and text; Format is
--   `converter_impl` and the macros. Layout and Render say what is to be written as plain texts, Width
--   how long it is, Numbers and Unsigned which numeral an integer gets, Refine and Contract compare the code with them.
-- - Staging: the circular queue `StagingBuffer` of runtime_logger.h between one logging thread and the
--   background thread.
-- - Entry: the log entries of tz_logger.h and tz_type.h. Store has `getStrSizeArray`, `getNArgsSize`, `storeArgs` and
--   `LogEntryHandler::dump`, Load has `_ARG` and `formator`, Statement the macro `TZ_LOG` with the header
--   `OneLogEntry`. Bytes reads bytes back, Typed and Reload are about one argument stored and loaded, Keeps about what
--   stays as it was, Sized and Enough about the sizes, Laid and Dumped about where all arguments stand, Formatted
--   about formatting them, Header about the members of an entry, Known, Placed and RoundTrip about the whole
--   statement, Moved and Copied about an entry copied to another place.
-- - Sink: `SinkLogger`, `append` and the exchange of its buffers with `threadFunc` (Threads). Copied is about
--   `appendInternal`, Inv about the pointers to buffers, Order about runs of both threads, Whole about calls
--   that one buffer holds. Output has the loops of `threadFunc` over buffers, blocks and entries; Lines, CheckPoint,
--   Entries, Blocks and Buffers compare them with the list of the entries, Texts is about the prefix of a line, Statements about the entries that `TZ_LOG` leaves.
-- - Timestamp: `TimestampFormatter` and `safe_strftime`. Strftime is about the loop of `safe_strftime`, Cache about the
--   strings kept for a second, Parts about the parts of the format. <ctime> and the limit of `resize` are
--   the parameter `Calendar`.
-- - Runtime: `RuntimeLogger`, the staging buffers of the threads with their pointers, and `poll_`. System has the threads
--   as interleaved steps; Pointers is about lists of pointers, Inv and Ends about the invariant, Safety and Calls about
--   the use of the buffers, Scan and Rounds about a scan of `poll_`, Names about `setName`.
-- Tests has runs and the theorems at concrete inputs.
--
-- Conventions. A character is a number below 256, a format string the list of its characters without
-- the closing '\0'. A read or write outside an array, an exception of constant evaluation and a call
-- that does not compile are `none`. A pointer is an index into its array; `size_t` is a number below
-- 2 ^ 64 and wraps as written; an `int` is an integer,
-- and casts to it wrap; a number in a format that overflows it does not compile, and where the padding of a field
-- overflows it, which is undefined in the code, the result is `none` too.
-- Sizes are those of a 64-bit Linux; a `u_short` is stored low byte first. The
-- bits of `flags_` are fields of a record. Local buffers start as zeros; nothing reads them before they
-- are written. `<cmath>`, `std::to_chars`, `c32rtomb` and `wcsrtombs` are the fields of the record
-- `Library`, a parameter of all conversions; the bytes of a floating number in a log entry are those of the
-- parameter `RealCodec`.
--
-- Fuel. The scanning loops take one round more than the string has characters, the digit loops 11
-- rounds (22 octal digits, two a round), the padding loop one round more than the bytes it writes;
-- the loops of `appendInternal` and `threadFunc` one round for each byte, the scan of
-- `poll_` one round for each buffer; the theorems below that give a result show that none of these
-- runs out. The fuel of `safe_strftime` is the number of sizes of its
-- buffer; the code has no bound but the exception of `resize`.
--
-- Not modelled: the Windows branches, `STACK_MEMORY` allocation, `CFMT_STR_TUPLE` (it differs
-- from `CFMT_STR` in how the arguments are passed), arguments of class types in a log statement,
-- the file of `threadFunc`, whose `fwrite` is commented out, the clock TSCNS, a copy of another project's class, negative
-- timestamps, the wrappers of system calls in portability.cpp and the benchmarks of
-- constexpr_fmt.cpp.
pub mod Prelude
pub mod Outbuf
pub mod Spec
pub mod Digits
pub mod Convert
pub mod Staging
pub mod Entry
pub mod Sink
pub mod Timestamp
pub mod Runtime
mod Tests
