-- ===== src/Lib.antt =====
-- A verification library for atomic-blob-store, a store of whole blobs under opaque keys. A blob is
-- kept in one file per key, in an envelope with a domain tag, a version, a length and a CRC-32C.
-- Callers hand operations to one coordinator thread, which keeps a queue for each key, hands the
-- operations to a bounded pool of workers and runs flushes, cleanups and closes between them.
--
-- The files and the code that they model:
--   Errors           src/error.rs and AtomicBlobStoreConfigError of src/config.rs.
--   Config           src/config.rs and validate_maximum of src/engine/mod.rs.
--   Format           src/format.rs. Format/Encode: envelope_header, envelope_parts and
--                    encode_envelope. Format/Reader: read_section. Format/Decode: decode_reader and
--                    validate_envelope_reader. Format/Stream: write_stream_envelope. Format/Load:
--                    load_blob and load_blob_into_sender, and ensure_namespace_available of
--                    src/filesystem/mod.rs. Format/Crc: what the code uses of the crc32c crate, as a
--                    parameter.
--   Engine/Event     src/engine/event.rs and src/engine/lifecycle.rs.
--   Engine/Operation src/engine/operation.rs: operations, results, deliver and deliver_error.
--   Engine/Workers   src/engine/workers.rs: the worker pool.
--   Engine/Queues, Engine/Scheduler, Engine/Coordinator
--                    src/engine/scheduler.rs: the per-key queues; dispatch_if_idle,
--                    dispatch_available, dispatch_maintenance and advance_pending_if_ready; the
--                    handlers and the loop of run_scheduler, and
--                    fail_queued_after_coordinator_panic.
--   Engine/Front     the entry points of src/engine/mod.rs, submit, submit_operation and
--                    CoordinatorJoin.
--   Engine/Opening   EngineHandle::open and from_config of src/engine/mod.rs.
--   Engine/Owned     run_owned_operation of src/engine/operation.rs, on Unix; Engine/Owned/Promise is
--                    what an operation promises of the payloads that are stored, and
--                    Engine/Owned/Traces runs operations one after the other.
--   Engine/System    the coordinator with its callers and workers, as a relation of reachable states.
--   Filesystem       src/filesystem/mod.rs. Filesystem/Inspect and Filesystem/Identifier:
--                    inspect_blob and random_identifier. Filesystem/Unix: its operations on Unix,
--                    with initialize_platform in Filesystem/Unix/Start. Filesystem/Windows: those on
--                    Windows; below it Start initialize_platform, Wide wide_path, Times the
--                    file time of refresh_windows_clear_age, Staging the staging names and
--                    is_owned_temporary_filename, Operations the moves, commits, syncs and staging
--                    files, Blobs save_blob, save_blob_from_receiver, clear_blob and
--                    quarantine_blob, Cleanup cleanup_stale_files. Both have a file Lawful, what
--                    their calls are relied on to do, and a file Memory, a system in memory.
--   Blocking         the loops of save_from and load_into of src/blocking.rs, after the start of the
--                    stream; Blocking/Reads is a Read source.
--   Paths            src/path.rs, and blob_path of src/engine/mod.rs.
--   Tokio            open and save_from of src/tokio.rs; what select! finds of the worker's result
--                    before each read is a list.
-- The other files below these hold proofs; the files called Tests hold concrete runs.
--
-- How state is read. The coordinator's state is the record Scheduler: the variables of run_scheduler,
-- the events in its channel, the jobs with the workers and the replies that were sent. A function of
-- the source that changes it takes a Scheduler and returns one; `round` is one turn of the loop. The
-- lifecycle, which the source shares under a lock, is a field. A oneshot channel is a number, and a
-- reply is that number with what arrived; a sender that is dropped is a reply of its own. Bytes and
-- machine integers are numbers; usize and u64 are 64 bits wide. Test hooks and benchmark events are
-- compiled out.
--
-- Loops. The loops over a payload in chunks, of validate_envelope_reader and load_blob_into_sender,
-- and those of save_from are well-founded recursion on the remaining length. dispatch_available runs
-- on fuel, one more than the operations that are queued, since each turn takes one off a queue;
-- advance_pending_if_ready recurses on the pending events. The coordinator's loop is a step relation
-- and needs no bound. The loops that try random names until one is free run on fuel, the number of
-- their turns, and answer none beyond it; one turn more than the namespace has entries is enough
-- where the names differ.
--
-- Parameters. CRC-32C is two functions with the law that appending continues a checksum; the order in
-- which a hash map is iterated is a function that lists every key that has work; whether a thread can
-- be started and whether it panics is a function of the number of requests; BLAKE3 is a function from
-- keys to numbers, with its hexadecimal form; the components of a path are a function; what the
-- operating system answers when a file or a directory is opened, read, written or sought in is an
-- argument. The calls of src/filesystem/mod.rs into the operating system,
-- std::path, atomic_write_file, rustix, getrandom and windows-sys are the records Unix and Windows,
-- over a state of their own; the files that a namespace holds are a function of that state, and what
-- the calls do to it the laws of the records Lawful and Listed. Nobody else changes the namespace.
--
-- Panics. decode_reader panics where it allocates more than isize::MAX bytes for a declared length;
-- the definition decode_reader tells what it returns elsewhere, decode_reader_or_panic both, and a
-- load whose decoder panics does not come back from its worker. A worker that panics drops its
-- sender, which the relation of Engine/System has as a step. A commit that fails may have been made:
-- so the laws say of atomic_write_file on Unix and of a move on Windows, but for the error of a move
-- onto a file that it was not to replace.
--
-- Not modelled: the methods of the facades that only wait for the engine; load_into of src/tokio.rs,
-- which is the loop of src/blocking.rs with awaits; the setters and accessors of src/config.rs;
-- src/engine/stream.rs, two records of channel ends; printing; tests and benchmarks.
pub mod Prelude
pub mod Errors
pub mod Config
pub mod Format
pub mod Engine
pub mod Filesystem
pub mod Blocking
pub mod Tokio
pub mod Paths
