-- ===== src/CommandLine.antt =====
-- src/main.cpp: the command line, `parse_chunk_size` and `parse_arguments`.
-- `argv` is the list of its strings, the program's name first. A path is its text, which
-- `std::filesystem::path` keeps, and is empty where the text is.
pub mod Constraints
use getbiblesword.Prelude.{
  ℕ, ◌+◌, ◌-◌, ◌*◌, ◌^◌, Bool, true, false, not, ◌&&◌, ◌||◌, Option, none, some, List, [], ◌∷◌,
  ◌++◌, Bytes, codes, ltb, leb, ◌==◌, if◌then◌else◌,
}
use getbiblesword.Exec.{Exception, invalid_argument, Result, ok, throw}
use getbiblesword.OrderedMap.{is_some}
use getbiblesword.CallbackStream.{is_empty}

abbrev pub minimum_chunk_size : ℕ
minimum_chunk_size = 4096

abbrev pub maximum_chunk_size : ℕ
maximum_chunk_size = 16 * 1024 * 1024

abbrev pub default_chunk_size : ℕ
default_chunk_size = 1024 * 1024

pub record CommandLine : Type 0 where
  pub command : Bytes
  pub sword_path : Bytes
  pub module_name : Bytes
  pub output_path : Option Bytes
  pub chunk_size : ℕ
  pub force : Bool

-- `==` on strings
unfoldable pub same_text : Bytes → Bytes → Bool
same_text [] [] = true
same_text [] (y ∷ ys) = false
same_text (x ∷ xs) [] = false
same_text (x ∷ xs) (y ∷ ys) = x == y && same_text xs ys

-- `std::from_chars` in base 10 on a `std::size_t`, behind the digits read so far: the value where
-- all of the input is digits and it fits, and `none` where there is an error or a rest.
unfoldable pub from_digits : ℕ → Bytes → Option ℕ
from_digits value [] = some value
from_digits value (c ∷ input) =
    let next = value * 10 + (c - b'0') in
    let rest = from_digits next input in
    if leb b'0' c && leb c b'9' && ltb next (2 ^ 64) then rest else none

abbrev pub from_chars : Bytes → Option ℕ
from_chars [] = none
from_chars (c ∷ input) = from_digits 0 (c ∷ input)

abbrev chunk_size_text : Bytes
chunk_size_text = codes "--artifact-chunk-size must be an integer from 4096 through 16777216"

abbrev pub in_bounds : Option ℕ → Result ℕ
in_bounds none = throw (invalid_argument chunk_size_text)
in_bounds (some value) =
    if ltb value minimum_chunk_size || ltb maximum_chunk_size value
    then throw (invalid_argument chunk_size_text)
    else ok value

unfoldable pub parse_chunk_size : Bytes → Result ℕ
parse_chunk_size input = in_bounds (from_chars input)

abbrev pub invalid : {A : Type 0} → Bytes → Result A
invalid text = throw (invalid_argument text)

-- The checks behind the loop.
unfoldable pub check_arguments : CommandLine → Result CommandLine
check_arguments result =
    if is_empty result.sword_path
    then invalid (codes "--sword-path is required")
    else if same_text result.command (codes "extract") && is_empty result.module_name
    then invalid (codes "--module is required for extract")
    else if same_text result.command (codes "list") && not (is_empty result.module_name)
    then invalid (codes "--module is only valid for extract")
    else if same_text result.command (codes "list") && not (result.chunk_size == default_chunk_size)
    then invalid (codes "--artifact-chunk-size is only valid for extract")
    else if result.force && not (is_some result.output_path)
    then invalid (codes "--force requires --output")
    else ok result

-- The options of the loop.
pub data Switch : Type 0 where
  sword_path_option module_option output_option chunk_size_option force_option help_option unknown :
      Switch

unfoldable pub classify : Bytes → Switch
classify option =
    if same_text option (codes "--sword-path")
    then sword_path_option
    else if same_text option (codes "--module")
    then module_option
    else if same_text option (codes "--output")
    then output_option
    else if same_text option (codes "--artifact-chunk-size")
    then chunk_size_option
    else if same_text option (codes "--force")
    then force_option
    else if same_text option (codes "--help") || same_text option (codes "-h")
    then help_option
    else unknown

-- `require_value`, where no argument is left.
abbrev pub missing_value : Bytes → Result CommandLine
missing_value name = invalid (name ++ codes " requires a value")

abbrev pub with_chunk_size : CommandLine → Result ℕ → Result CommandLine
with_chunk_size result (ok value) = ok (record result { chunk_size = value })
with_chunk_size result (throw e) = throw e

abbrev pub unknown_option : Bytes → Result CommandLine
unknown_option option = invalid (codes "unknown option: " ++ option)

abbrev pub help_of : CommandLine → CommandLine
help_of result = record result { command = codes "help" }

-- The last argument; no value is left for it.
unfoldable pub last_option : Switch → CommandLine → Bytes → Result CommandLine
unfolding check_arguments
last_option sword_path_option result option = missing_value option
last_option module_option result option = missing_value option
last_option output_option result option = missing_value option
last_option chunk_size_option result option = missing_value option
last_option force_option result option = check_arguments (record result { force = true })
last_option help_option result option = ok (help_of result)
last_option unknown result option = unknown_option option

-- The loop, and the checks behind it.
unfoldable pub parse_options : CommandLine → List Bytes → Result CommandLine
unfolding last_option classify parse_chunk_size
parse_options result [] = check_arguments result
parse_options result (option ∷ []) = last_option (classify option) result option
parse_options result (option ∷ value ∷ rest) = elim (classify option) [
  | sword_path_option ↦ parse_options (record result { sword_path = value }) rest
  | module_option ↦ parse_options (record result { module_name = value }) rest
  | output_option ↦ parse_options (record result { output_path = some value }) rest
  | chunk_size_option ↦ elim (parse_chunk_size value) [
    | ok size ↦ parse_options (record result { chunk_size = size }) rest
    | throw e ↦ throw e
  ]
  | force_option ↦ parse_options (record result { force = true }) (value ∷ rest)
  | help_option ↦ ok (help_of result)
  | unknown ↦ unknown_option option
]

abbrev pub empty_command_line : Bytes → CommandLine
empty_command_line command = record {
  command = command;
  sword_path = [];
  module_name = [];
  output_path = none;
  chunk_size = default_chunk_size;
  force = false;
}

abbrev pub is_empty_list : List Bytes → Bool
is_empty_list [] = true
is_empty_list (x ∷ xs) = false

-- The command, with the options behind it.
unfoldable pub parse_command : Bytes → List Bytes → Result CommandLine
unfolding parse_options
parse_command command options =
    let parsed = parse_options (empty_command_line command) options in
    if same_text command (codes "--help") || same_text command (codes "-h")
    then ok (empty_command_line (codes "help"))
    else if same_text command (codes "--version")
    then ok (empty_command_line (codes "version"))
    else if same_text command (codes "help")
        || (same_text command (codes "version") || same_text command (codes "contract"))
    then (if is_empty_list options
        then ok (empty_command_line command)
        else invalid (command ++ codes " does not accept options"))
    else if not (same_text command (codes "list")) && not (same_text command (codes "extract"))
    then invalid (codes "unknown command: " ++ command)
    else parsed

unfoldable pub parse_arguments : List Bytes → Result CommandLine
unfolding parse_command
parse_arguments [] = invalid (codes "a command is required")
parse_arguments (program ∷ []) = invalid (codes "a command is required")
parse_arguments (program ∷ command ∷ options) = parse_command command options
