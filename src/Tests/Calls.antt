-- ===== src/Tests/Calls.antt =====
-- The theorems on the callback, the C interface and the command line at concrete calls.
use getbiblesword.Prelude.{
  ◌%◌, ◌^◌, ◌≡◌, refl, arith, ◌⊎◌, true, false, ℕ, none, some, List, [], ◌∷◌, ◌++◌, Bytes, codes,
  ◌==◌, length, min, take, replicate,
}
use getbiblesword.Exec.{ok, pure, ◌>>◌}
use getbiblesword.OrderedMap.{lookup, upsert}
use getbiblesword.Sha256.{
  hex_bytes, hex_digest, finalize, state_bytes, flush_full, update, length_bytes,
}
use getbiblesword.Sha256.Compress.{transform}
use getbiblesword.Json.{json_string, to_string}
use getbiblesword.OrderedMap.Order.{order}
use getbiblesword.Sha256.Padding.{standard_digest}
use getbiblesword.Ndjson
use getbiblesword.Ndjson.{
  record_line, object_json, counts_json, footer_line, emit, emit_record, finish,
}
use getbiblesword.Ndjson.Records.{Record, text_of, counts_from}
use getbiblesword.Ndjson.Session.{emit_all, write_stream}
use getbiblesword.CallbackStream
use getbiblesword.CallbackStream.{
  cancelled, no_failure, Callback, CallbackStreambuf, CallbackOutput, flush_pending, overflow, sync,
  put_char, put_all, open_output, write_output, flush_output, callback_ostream,
}
use getbiblesword.CallbackStream.Delivery.{Consumes, Bounded, taken, taken-flush_pending}
use getbiblesword.CallbackStream.Output.{put_all-Bounded}
use getbiblesword.CallbackStream.Delivered.{write_stream-delivered}
use getbiblesword.CApi.{
  status_ok, status_invalid_argument, Error, set_message, error_storage_is_valid, Call,
  CallerCallback, Operation, run_streaming_operation,
}
use getbiblesword.CApi.Errors.{c_string, set_message-c_string, Reports}
use getbiblesword.CApi.Options.{ExtractOptions, ExtractionOptions, gbs_extract_module_v1}
use getbiblesword.CApi.Options.Checks.{
  IsRequest, IsAsked, invalid_options_are_refused, valid_options_are_run,
}
use getbiblesword.CApi.Streaming.{
  run_streaming_operation-Reports, run_streaming_operation-active, reentrant,
  reentry_from_callback_is_refused, run_streaming_operation-delivers, outcome_of,
}
use getbiblesword.CommandLine.{
  CommandLine, same_text, classify, last_option, check_arguments, parse_options, parse_command,
  parse_arguments,
}
use getbiblesword.CommandLine.Constraints.{Accepted, IsQuestion, parse_arguments-Accepted}

-- A callback that takes everything in, whatever the flag is.
abbrev pub collect : Callback Bytes
collect context span = (some 0, context ++ span)

abbrev pub caller : CallerCallback Bytes
caller flag = collect

pub one_ne_zero : (0 == 0) ≡ false → ⊥
one_ne_zero h = cc

abbrev pub collect-Consumes : Consumes collect
collect-Consumes = record {
  accepted = λ context. context;
  accepted-continue = λ context span h. refl;
  accepted-refuse = λ context span h. absurd (one_ne_zero h);
}

abbrev cancelled_buffer : CallbackStreambuf Bytes
cancelled_buffer = record { pending = codes "a"; failure = cancelled; context = [] }

taken-flush_pending_example :
    taken collect collect-Consumes (flush_pending collect cancelled_buffer).1
    ≡ taken collect collect-Consumes cancelled_buffer
taken-flush_pending_example = taken-flush_pending collect collect-Consumes cancelled_buffer

put_all-Bounded_example :
    Bounded collect collect-Consumes (put_all collect (codes "verse") (CallbackStream.new [])).1
put_all-Bounded_example =
    put_all-Bounded collect collect-Consumes (codes "verse") (CallbackStream.new [])
      (record { fits = omega arith })

abbrev one_record : List Record
one_record = record { type = codes "book"; fields = [] } ∷ []

one_record-succeeds :
    (write_stream (callback_ostream collect) one_record true [] (Ndjson.new (open_output []))).0
    ≡ ok tt
unfolding write_stream emit_all emit emit_record finish lookup write_output flush_output put_all
    put_char overflow sync flush_pending record_line object_json upsert order json_string to_string
    footer_line counts_json hex_digest finalize state_bytes transform flush_full update length_bytes
one_record-succeeds = refl

write_stream-delivered_example :
    (write_stream
      (callback_ostream collect)
      one_record
      true
      []
      (Ndjson.new (open_output []))).1.output.buffer.context
    ≡ text_of one_record
      ++ footer_line
          (length one_record % 2 ^ 64)
          (counts_from [] one_record)
          (hex_bytes (standard_digest (text_of one_record)))
          true
          []
write_stream-delivered_example =
    write_stream-delivered collect collect-Consumes [] one_record true [] refl one_record-succeeds

-- The operation of one record and its footer.
abbrev write_one : Operation Bytes
write_one callback = write_stream (callback_ostream callback) one_record true [] >> pure true

abbrev caller_error : Error
caller_error = record { struct_size = 520; status = 7; message = [] }

abbrev idle_call : Call Bytes
idle_call = record { active = false; error = some caller_error; context = [] }

abbrev nested_call : Call Bytes
nested_call = record { active = true; error = some caller_error; context = codes "before" }

run-succeeds : (run_streaming_operation [] (some caller) write_one idle_call).0 ≡ status_ok
unfolding write_stream emit_all emit emit_record finish lookup write_output flush_output put_all
    put_char overflow sync flush_pending record_line object_json upsert order json_string to_string
    footer_line counts_json hex_digest finalize state_bytes transform flush_full update length_bytes
    run_streaming_operation
run-succeeds = refl

run_streaming_operation-delivers_example :
    ((outcome_of [] write_one caller collect-Consumes []).0 ≡ ok true)
    × ((run_streaming_operation [] (some caller) write_one idle_call).1.context
        ≡ taken collect collect-Consumes
            (outcome_of [] write_one caller collect-Consumes []).1.output.buffer)
run_streaming_operation-delivers_example =
    run_streaming_operation-delivers [] write_one caller collect-Consumes idle_call run-succeeds

is_large_enough : error_storage_is_valid (some caller_error) ≡ true
unfolding error_storage_is_valid
is_large_enough = refl

run_streaming_operation-Reports_example :
    Reports
      (run_streaming_operation [] (some caller) write_one idle_call).0
      (run_streaming_operation [] (some caller) write_one idle_call).1.error
run_streaming_operation-Reports_example =
    run_streaming_operation-Reports [] write_one (some caller) idle_call is_large_enough

run_streaming_operation-active_example :
    (run_streaming_operation [] (some caller) write_one idle_call).1.active ≡ false
run_streaming_operation-active_example =
    run_streaming_operation-active [] write_one (some caller) idle_call

-- A callback that calls in again, and keeps the status of this as a byte before each span.
abbrev note_status : ℕ → Bytes → Callback Bytes
note_status status left context span = collect (context ++ (status ∷ [])) span

reentry_from_callback_is_refused_example :
    run_streaming_operation []
      (some (reentrant [] write_one caller write_one none (codes "inner") note_status))
      write_one
      idle_call
    ≡ run_streaming_operation []
        (some (λ _. note_status status_invalid_argument (codes "inner")))
        write_one
        idle_call
reentry_from_callback_is_refused_example =
    reentry_from_callback_is_refused [] write_one caller write_one none (codes "inner") note_status
      idle_call

abbrev storage : Bytes
storage = replicate 512 65

abbrev small_text : Bytes
small_text = codes "no"

set_message-c_string_example :
    (c_string (set_message small_text storage) ≡ take (min (length small_text) 511) small_text)
    × (length (set_message small_text storage) ≡ 512)
set_message-c_string_example = set_message-c_string small_text storage (refl, (refl, tt)) refl

abbrev pub options : ExtractOptions
options = record {
  struct_size = 64;
  abi_version = 1;
  sword_path = some (codes "/sword");
  module_name = some (codes "KJV");
  artifact_chunk_size = 0;
  reserved = 0 ∷ 0 ∷ 0 ∷ 0 ∷ [];
}

abbrev small_chunks : ExtractOptions
small_chunks = record options { artifact_chunk_size = 4095 }

small_chunks-IsNoRequest : IsRequest small_chunks → ⊥
small_chunks-IsNoRequest h = omega (arith, h.chunk_is_large_enough)

abbrev extract : ExtractionOptions → Operation Bytes
extract request = write_one

invalid_options_are_refused_example :
    ((gbs_extract_module_v1 [] extract (some small_chunks) (some caller) nested_call).0
      ≡ status_invalid_argument)
    × ((gbs_extract_module_v1 [] extract (some small_chunks) (some caller) nested_call).1.context
        ≡ codes "before")
invalid_options_are_refused_example =
    invalid_options_are_refused [] extract small_chunks (some caller) nested_call
      small_chunks-IsNoRequest

options-IsRequest : IsRequest options
options-IsRequest = record {
  is_large_enough = omega arith;
  is_abi = refl;
  reserved_is_zero = omega arith;
  has_path = refl;
  has_module = refl;
  chunk_is_large_enough = omega arith;
  chunk_is_small_enough = omega arith;
}

valid_options_are_run_example :
    (request : ExtractionOptions) × IsAsked options request
    × (gbs_extract_module_v1 [] extract (some options) (some caller) idle_call
        ≡ run_streaming_operation [] (some caller) (extract request) idle_call)
valid_options_are_run_example =
    valid_options_are_run [] extract options (some caller) idle_call options-IsRequest
      is_large_enough

abbrev list_arguments : List Bytes
list_arguments =
    codes "--sword-path" ∷ codes "/sword" ∷ codes "--output" ∷ codes "o" ∷ codes "--force" ∷ []

abbrev list_command : CommandLine
list_command = record {
  command = codes "list";
  sword_path = codes "/sword";
  module_name = [];
  output_path = some (codes "o");
  chunk_size = 1048576;
  force = true;
}

list_is_parsed :
    parse_arguments (codes "getbiblesword" ∷ codes "list" ∷ list_arguments) ≡ ok list_command
unfolding parse_arguments parse_command parse_options classify same_text last_option check_arguments
list_is_parsed = refl

parse_arguments-Accepted_example :
    IsQuestion (codes "list") list_arguments list_command
    ⊎ (((codes "list" ≡ codes "list") ⊎ (codes "list" ≡ codes "extract"))
        × ((codes "list" ≡ codes "help") ⊎ Accepted (codes "list") list_command))
parse_arguments-Accepted_example =
    parse_arguments-Accepted (codes "getbiblesword") (codes "list") list_arguments list_command
      list_is_parsed
