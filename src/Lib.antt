-- ===== src/Lib.antt =====
-- A model of the applets of this repository, which are stages of a pipeline on recorded streams:
-- `pipeline_dispatcher` starts the stages, `log_parse` turns log lines into JSON, `stream_merge`
-- turns the chunk records of a session into clips, and `clip_store` keeps clips in a database file.
--
-- The parts and their files:
--   Prelude: Boolean tests on native numbers, lists with native lengths, chains over `Option`, and
--     signed integers.
--   Base64: lib/base64.c. The encoder's loop takes three octets at a time from the list that stands
--     for the source; the decoder keeps its guarded writes (`put_byte`) and its 64-bit length.
--   DynamicBuffer: lib/dynamic_buffer.c. A block of memory is the list of its bytes. Chain has the
--     appends in a row of its callers.
--   Json: lib/jsonl_codec.c over the trees of cJSON; a number is `Double`, a binary fraction, an
--     infinity or NaN.
--   Library: lib/libpipeline.c, its paths, and in Inotify the walk over the events that reads return.
--   StreamMerge: applets/stream_merge. Events is sm_events.c, Records the types of sm_fsm.h, Fsm the
--     operations of sm_fsm.c, each a function from the state to the action, the new state and
--     `*out`. Session is what the main loop does to the machine, as a list of calls (chunk, idle
--     check, final flush), and Poll its poll timeout. LongDouble is the `long double` of sm_fsm.c. Reader is sm_reader.c. Emit (`emit_clip`,
--     `handle_action`), Drain (`drain_meta`) and Main (`check_idle` and the loop of
--     `stream_merge_main`) are stream_merge.c in detail, with its buffer and its text output; their
--     Refines, Loop and Session modules relate them to Session, and Main.Inputs tells which of its
--     calls the rounds of the loop stand for.
--   ClipStore: applets/clip_store. Row is clip_store.h, Hash and Index db_query.c, Number `%ld` and
--     `strtol`, Format db_format.c with the reading of lines, Compact db_compact.c and `print_rows`
--     of clip_store.c, Commands the `--set`, `--get` and `--delete` of clip_store.c, and
--     Commands.Clips its default mode.
--   LogParse: applets/log_parse. Filter is log_filter_expr.c, Regex log_regex.c, Output
--     log_output_format.c and Csv the text of its CSV lines, Aggregate the aggregates of
--     log_parse.c, Main its options and checks, Main.Lines what is done with a line (with
--     `log_filter_match_jsonl`), and Main.Loop the loop and the end. Main.Trim and Main.Wanted say in
--     terms of their own which lines are taken.
--   Dispatcher: applets/main.c (Applet), and of applets/pipeline_dispatcher pd_spawn.c (Children
--     for the wait, Spawn for the descriptors of a child), pd_pipeline.c (Pipeline) and pd_config.c
--     (Config, the checks, and Config.Parse, the options and the paths of the applets).
--
-- How they interact: the session feeds the state machine one record at a time and prints what it
-- hands over. In detail, `drain_meta` appends what it reads to a dynamic buffer, cuts it into
-- lines, gives each line to the reader, which asks the JSON codec, and prints clips, whose events
-- the codec writes to another buffer. log_parse gives the fields of a line to the filter, the full
-- log and the output or the aggregate. clip_store appends rows as lines, whose value field is
-- compressed by miniz and encoded by Base64; every lookup, listing and compaction first loads the
-- whole file into the hash index, in which a later row of a key replaces an earlier one.
--
-- Numbers: unsigned fields are native numbers with their wrap at 2^64 written out. Signed times are
-- integers with no bound, as overflow of signed numbers is undefined in C; `strtol` stops at the
-- bounds of a 64-bit `long`. `long double` has a mantissa of 64 bits, as on x86-64
-- (StreamMerge.LongDouble). `calloc` refuses an array of more than `size_t` bytes, so an index has
-- less than 2^60 rows, and for less than 2^58 it does not meet that bound. A C string is the list of
-- its bytes without the NUL.
--
-- Loops with a bound on the rounds: the probe loop of `find_slot` has as many rounds as buckets,
-- enough as a valid table has an empty bucket (Index.Free); the doubling loop of `row_index_grow`
-- has 2 n + 2 rounds for n rows, enough for less than 2^60 rows, where no product wraps and each
-- round adds at least one bucket (Index.Capacity); the loop over `uncompress` has 64 rounds, enough as a
-- buffer of at least 2^10 bytes then passes every size (Format.Packed); the doubling loop of `dynamic_buffer_reserve` has 65 rounds, enough for any
-- 64-bit size (DynamicBuffer.Reserve); the loop over the lines of `drain_meta` has one round more
-- than the buffer has bytes, enough as each round drops a line (Drain.Loop), and the walk over
-- inotify events one more than the bytes that it read, enough as an event has 16 bytes
-- (Library.Inotify.Events). Running out is the answer `stuck`, or `none`, which the theorems exclude.
--
-- Loops on what the system answers go over the list of its answers: the reads of a file up to the
-- one that ends them, the rounds of `poll`, the lines of stdin.
--
-- What is outside the repository is a parameter: cJSON (`Cjson`), the POSIX expressions (`Regex`),
-- `double` where it is added (`Doubles`, with what is used of IEEE 754 in `IsExact`), miniz
-- (`Zlib`, with what is used of it in `IsZlib`), which requests for memory and which calls of stdio
-- and the file system succeed (`Allocator`, `System`, `Disk`, `Heap`, `Stream`, and `Env` and
-- `World` for a run), and what `pipe`, `fork` and `waitpid` answer.
--
-- Not modelled: the option parsing of stream_merge and clip_store; how stream_merge opens its files,
-- waits for the metadata file and makes its watches; the argument lists of the stages of
-- pipeline_dispatcher and its signal handlers; file locks, the logger and usage texts, which are
-- calls of the system; and the freeing of memory.
pub mod Prelude
pub mod Base64
pub mod DynamicBuffer
pub mod Json
pub mod Library
pub mod ClipStore
pub mod StreamMerge
pub mod LogParse
pub mod Dispatcher
