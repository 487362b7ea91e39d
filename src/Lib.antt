-- ===== src/Lib.antt =====
-- vorleser-server: an audiobook server. It keeps a SQLite database of users, libraries, audiobooks
-- and play states, fills it by scanning directories of audio files, and serves it over HTTP. Paths
-- below are from the root of the repository.
--
-- Parts and files:
--   Prelude, Exec, Path      shared names, lists, results and Boolean tests; code with a state that
--                            may fail, and its postconditions; std::path on texts
--   Errors                   UserError (src/models/user.rs), WorkerError (src/worker/error.rs) and
--                            failure::Error
--   Db                       the tables of src/schema.rs, with the row types of src/models
--   Db.Backend, Db.Lawful    what the program uses of diesel, SQLite, uuid, chrono, argon2rs and
--                            base64: an interface and its laws
--   Db.Memory                a backend in memory that meets the laws and runs the tests
--   Models.User              src/models/user.rs: User::create, verify_password, generate_api_token,
--                            accessible_libraries, accessible_audiobooks, get_book_if_accessible
--   Models.Library           Library::create of src/models/library.rs
--   Models.Permission        LibraryPermission::permit of src/models/library_permission.rs
--   Models.Audiobook         update_path and ensure_exists_in of src/models/audiobook.rs
--   Models.Playstate         src/models/playstate.rs
--   Responses                src/responses: APIResponse, APIError, their responders and conversions
--   Api.Request, Api.Guard   src/handlers.rs: who a request comes from
--   Api.Auth                 src/api/auth.rs
--   Api.Audiobooks           src/api/audiobooks.rs
--   Api.Libraries            src/api/libraries.rs
--   Api.RangedFile           src/api/ranged_file.rs
--   Worker.Host              what the scanner uses of the operating system, walkdir, regex, ring and
--                            FFmpeg: an interface
--   Worker.Hashing           src/worker/hashing.rs
--   Worker.Scanner           src/worker/scanner.rs: Changes (should_scan), Deleted (recover_deleted,
--                            delete_not_in_fs), Single (create_audiobook), Multifile
--                            (create_multifile_audiobook), Run (walk_books, scan_library)
--   Ffmpeg                   the functions of FFmpeg that src/worker calls: an interface; its laws on
--                            frames are in Ffmpeg.Frames
--   Ffmpeg.Util              src/worker/util.rs, and new_media_error of src/worker/error.rs
--   Ffmpeg.MediaFile         src/worker/mediafile.rs; Covers (get_coverart)
--   Ffmpeg.Muxer             src/worker/muxer.rs: Copying, Appending, Opening and Merging follow
--                            merge_files from its inner loop outwards
--   Mllt                     build_mllt of src/helpers/mllt.rs; Tagging has mlltify, over an interface
--                            of the crates id3 and mp3_metadata; Once is about calling it again
--   Config                   src/config.rs
--   CommandLine              src/bin/main.rs: run_scan, create_library and the other commands; Main
--                            has `main` itself
--   Server                   src/helpers/rocket.rs, the catchers of src/handlers.rs, DB of
--                            src/helpers/db.rs and src/static_files.rs: requests, routes (Routes) and
--                            replies, with the handlers of Api behind their guards; Kept and
--                            Serving are about the tables that they leave alone
--
-- Code that acts on the world is a function of a state, `Exec S E A`: it returns a result and the
-- next state, also after an error. The state is that of the backend; `view` is the content of its
-- tables. Every statement on the database may fail with an error of the engine and then leaves the
-- tables as they were; a transaction that ends in an error is rolled back. A handler runs as one
-- sequence of statements; statements of other connections between them are not modelled.
--
-- A UUID is a number, a time stamp a number of nanoseconds, an `f64` its bits; an addition of `f64` is
-- an operation of the host. The numbers of src/api/ranged_file.rs and src/helpers/mllt.rs wrap around
-- at their width as in a release build. The loop over the chunks of frames in Mllt runs on the number
-- of frames as its fuel, which is enough since each chunk takes a frame at least.
--
-- The loops over the packets of a media file run on fuel; fuel above the number of frames that the
-- file has still to give is enough, and running out of it is a fault of its own beside errors and
-- panics. Time stamps and durations are `i64` and wrap around.
--
-- That the database fails at a statement is evidence, `IsDatabase` of Db.Lawful, that only the laws of
-- the statements give; so a theorem that excuses an outcome by a failure of the database excuses it
-- only where a statement has failed. The backend in memory fails only at an insertion.
--
-- The scanner sees media files and the muxer through Worker.Host, where reading a media file twice in
-- one state gives the same result; Ffmpeg models the same code over the functions of the C library. A
-- path is its text; whether it is UTF-8 is a test of the host. Code of the scanner that may panic, in
-- taking a connection or in the code for media files, is a `Task`; an error in it is logged where the
-- program logs it, and a panic is passed on. The panics of the scanner on a pattern that does not
-- compile and on a path that is no UTF-8 are left out, and so is all logging. Of a HEAD request,
-- which is routed as GET, the reply's body is not left out. Not
-- modelled are the parser and the loggers that src/bin/main.rs sets up, sentry, the set-up of the
-- connection pool in src/helpers/db.rs, and the conversion of a UUID to and from a column in
-- src/helpers/uuid.rs. Of Rocket, the order of routes and guards is written out as it is documented.
mod Prelude
pub mod CommandLine
pub mod Server
pub mod Config
pub mod Ffmpeg
pub mod Errors
pub mod Exec
pub mod Db
pub mod Models
pub mod Responses
pub mod Api
pub mod Path
pub mod Worker
pub mod Mllt
