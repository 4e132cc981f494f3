-- ===== src/Lib.antt =====
-- getBibleSword: a lossless, deterministic extraction of SWORD modules into a stream of NDJSON.
--
-- The program reads a module, and writes one JSON object per line and a footer that counts and
-- hashes them. Bytes travel as byte values: base64, size, SHA-256, and the text where it is UTF-8.
-- The C interface passes the stream to a callback; the command line writes it to a file.
--
-- The parts, and the code that each models:
--   Sha256          src/sha256.cpp: `Sha256`; Sha256/Compress is `transform`. Sha256/Fips has the
--                   functions, constants and compression of FIPS 180-4 apart from the code, and
--                   Sha256/Padding the digest of a whole message with them.
--   Base64          src/base64.cpp: `base64_encode`. Base64/Decode is a decoder by RFC 4648.
--   Utf8            src/byte_value.cpp: `is_valid_utf8`. Utf8/Scalar is the encoding of RFC 3629.
--   Json            src/byte_value.cpp: `json_escape`, `json_string`. Json/Read is a reader.
--   ByteValue       src/byte_value.cpp: `byte_value_json`. ByteValue/Consumer reads and checks one,
--                   as docs/contract-v1.md asks of a consumer.
--   Annotation      src/annotation.cpp: the segments of markup.
--   Ndjson          src/ndjson_writer.cpp: `NdjsonWriter`, over a `std::ostream`. Ndjson/FooterLine
--                   says what the members of a footer are, apart from the code that prints it.
--   CallbackStream  src/callback_streambuf.cpp: `CallbackStreambuf`, and a stream on it.
--   CApi            src/c_api.cpp: `run_streaming_operation` and the two calls that use it. The
--                   thread's flag is part of the state, and the callback sees it.
--   CommandLine     src/main.cpp: `parse_chunk_size`, `parse_arguments`.
--   FileOutput      src/main.cpp: `FileDescriptorBuffer`, over the system call `write`.
--   SourceEncoding  src/source_encoding.cpp: `source_utf8`, over ICU.
--   Artifact        src/artifact.cpp: `emit_artifacts`, in Artifact/Files; Artifact/Discovery has
--                   `discover_artifacts`. Artifact/Answers is what the system answers of the
--                   candidates, and Artifact/Blocks what a consumer finds of an artifact.
--   Extractor       src/sword_extractor.cpp: the session of a command, its diagnostics, its header
--                   and footer. Extractor/Module describes a module, Extractor/Configuration finds its
--                   files, Extractor/Entries goes through its entries, and Extractor/Commands has
--                   `list_modules` and `extract_module`. Extractor/Tallies and Extractor/Tracking
--                   follow the counts through all of these; Extractor/Contract is for the caller,
--                   and Extractor/Delivery for a caller of the C interface.
--   Exec            calls that may throw, over a state that an exception leaves as it is then.
--   OrderedMap      `std::map` with strings as keys.
--   Prelude         names and lemmas that the others share.
--   Tests           runs at concrete inputs.
--
-- Bytes are natural numbers; a machine integer wraps where the code's type does. Loops are by
-- recursion on the data, or on fuel: the scan of markup and the validation of UTF-8 take the
-- length of the input, and every round takes in a byte at least, as does the search for a line
-- of a configuration file; a decimal number takes its own value. The retries of `write` have
-- fuel that runs out only where the code would go on.
--
-- Parameters: the `std::ostream` of the writer, with what C++ documents of a stream that stays
-- good (`Collects`); the caller's callback, with what docs/c-api-v1.md asks of it (`Consumes`);
-- the text of `std::ios_base::failure`; the system call `write` (`Writes`); ICU (`WritesUtf8`);
-- a stream that stays bad once it has failed (`StaysBad`); the file system and the system calls
-- of src/artifact.cpp (`ReadsFit`, `Lists`); and SWORD, with the streams and paths of
-- src/sword_extractor.cpp (`World`, `IsSound`), as what the calls answer in their order: a list
-- of answers of `::read`, and the positions of a traversal. Each has an instance in Tests.
--
-- Not modelled: a file or a traversal without end; an exception of SWORD between two diagnostics of one
-- entry; `AtomicOutput` and `main` of src/main.cpp; the mutex of the C interface; and the exhaustion
-- of memory.
pub mod Prelude
pub mod Artifact
pub mod Extractor
pub mod Exec
pub mod Base64
pub mod Sha256
pub mod Utf8
pub mod Json
pub mod ByteValue
pub mod OrderedMap
pub mod Ndjson
pub mod Annotation
pub mod CallbackStream
pub mod CApi
pub mod CommandLine
pub mod FileOutput
pub mod SourceEncoding
pub mod Tests
