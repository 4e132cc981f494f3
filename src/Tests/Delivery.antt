-- ===== src/Tests/Delivery.antt =====
-- The theorems on whole calls of the C interface, on a small module.
use getbiblesword.Prelude.{◌≡◌, refl, true, false, inr, some, none, [], Bytes, codes}
use getbiblesword.Exec.{ok}
use getbiblesword.CApi.{
  status_ok, Call, run_streaming_operation, gbs_list_modules_v1, error_storage_is_valid, set_error,
}
use getbiblesword.CallbackStream.{
  write_output, flush_output, put_all, put_char, overflow, sync, flush_pending,
}
use getbiblesword.Ndjson.{
  emit, emit_record, finish, record_line, object_json, footer_line, counts_json,
}
use getbiblesword.OrderedMap.{lookup, upsert}
use getbiblesword.OrderedMap.Order.{order}
use getbiblesword.Json.{json_string, to_string}
use getbiblesword.Sha256.{
  hex_digest, finalize, state_bytes, flush_full, update, length_bytes, sha256_hex,
}
use getbiblesword.Sha256.Compress.{transform}
use getbiblesword.Base64.{base64_encode}
use getbiblesword.ByteValue.{byte_value_json}
use getbiblesword.Utf8.{is_valid_utf8}
use getbiblesword.CommandLine.{same_text}
use getbiblesword.Extractor.{emit_header, header_fields, on_writer, finish_with, footer_fields}
use getbiblesword.Extractor.Module.{
  module_fields, classify_module, enum_json, direction_name, encoding_name, markup_name,
}
use getbiblesword.Extractor.Commands.{
  World, list_modules, list_session, list_in, canonical_root, emit_modules, conclude_command,
}
use getbiblesword.Extractor.Configuration.{other_file, finished}
use getbiblesword.Extractor.Entries.{no_dictionary, last}
use getbiblesword.Extractor.Delivery.{list_operation, gbs_list_modules_v1-IsStream}
use getbiblesword.Extractor.Tracking.Stages.{no_artifacts}
use getbiblesword.Extractor.Tracking.Complete.{IsStream}
use getbiblesword.Tests.Calls.{caller, collect-Consumes}
use getbiblesword.Tests.Extraction.{small_world, small_world-IsSound, kjv, kjv_conf, one_entry}

abbrev first_call : Call Bytes
first_call = record { active = false; error = none; context = [] }

list-succeeds :
    (gbs_list_modules_v1 []
      (list_operation small_world)
      (some (codes "/sword"))
      (some caller)
      first_call).0
    ≡ status_ok
unfolding gbs_list_modules_v1 run_streaming_operation error_storage_is_valid set_error list_modules
    list_session list_in canonical_root emit_modules conclude_command emit_header header_fields
    on_writer finish_with footer_fields module_fields classify_module enum_json direction_name
    encoding_name markup_name emit emit_record finish lookup write_output flush_output put_all
    put_char overflow sync flush_pending record_line object_json upsert order json_string to_string
    footer_line counts_json hex_digest finalize state_bytes transform flush_full update length_bytes
    byte_value_json base64_encode is_valid_utf8 sha256_hex same_text
list-succeeds = refl

-- A module that SWORD cannot position at its first entry, and that has no configuration file
abbrev empty_world : World
empty_world = record small_world {
  find_module = λ root name. ok (
      some (record {
        info = record kjv { config = [] };
        dictionary = no_dictionary;
        top_error = 1;
        traversal = last one_entry 0;
      }));
  configuration = λ root. record {
    master = record { path = []; relative_path = []; first = kjv_conf; second = kjv_conf };
    master_status = other_file;
    directory = inr finished;
    sort = λ less files. files;
  };
}

gbs_list_modules_v1-IsStream_example :
    IsStream no_artifacts true
      (gbs_list_modules_v1 []
        (list_operation small_world)
        (some (codes "/sword"))
        (some caller)
        first_call).1.context
gbs_list_modules_v1-IsStream_example =
    gbs_list_modules_v1-IsStream caller collect-Consumes [] small_world small_world-IsSound
      first_call refl (some (codes "/sword")) list-succeeds
