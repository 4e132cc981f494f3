-- ===== src/CommandLine/Constraints.antt =====
-- What an accepted command line is.
use getbiblesword.Prelude.{
  ℕ, ◌≤◌, ◌≡◌, refl, sym, subst, arith, ◌⊎◌, inl, inr, Bool, true, false, not, ◌&&◌, ◌||◌, Option,
  none, some, List, [], ◌∷◌, Bytes, codes, ltb, if◌then◌else◌, Bool-cases, eq_of_==,
}
use getbiblesword.Exec.{Exception, Result, ok, throw}
use getbiblesword.OrderedMap.{is_some}
use getbiblesword.CallbackStream.{is_empty}
use getbiblesword.CommandLine.{
  minimum_chunk_size, default_chunk_size, CommandLine, same_text, from_chars, in_bounds,
  parse_chunk_size, invalid, check_arguments, Switch, sword_path_option, module_option,
  output_option, chunk_size_option, force_option, help_option, unknown, classify, unknown_option,
  help_of, last_option, parse_options, empty_command_line, is_empty_list, parse_command,
  parse_arguments,
}

abbrev pub IsSize : ℕ → Type 0
IsSize n = (4096 ≤ n) × (n ≤ 16777216)

in_bounds-IsSize : (read : Option ℕ) (size : ℕ) → in_bounds read ≡ ok size → IsSize size
in_bounds-IsSize none size h = absurd (ground arith)
in_bounds-IsSize (some n) size h = elim (Bool-cases (ltb n minimum_chunk_size)) [
  | inl small ↦ absurd (ground arith)
  | inr large ↦ ground arith
]

parse_chunk_size-IsSize :
    (input : Bytes) (size : ℕ) → parse_chunk_size input ≡ ok size → IsSize size
unfolding parse_chunk_size
parse_chunk_size-IsSize input size h = in_bounds-IsSize (from_chars input) size h

-- The constraints of the usage text on a command that does something.
pub record IsUsable (c : CommandLine) : Type 0 where
  pub has_path : is_empty c.sword_path ≡ false
  pub extract_names_module :
      same_text c.command (codes "extract") ≡ true → is_empty c.module_name ≡ false
  pub list_names_none : same_text c.command (codes "list") ≡ true → is_empty c.module_name ≡ true
  pub list_keeps_size :
      same_text c.command (codes "list") ≡ true → c.chunk_size ≡ default_chunk_size
  pub force_has_output : c.force ≡ true → is_some c.output_path ≡ true

check_arguments-IsUsable :
    (c result : CommandLine) → check_arguments c ≡ ok result → (c ≡ result) × IsUsable c
unfolding check_arguments
check_arguments-IsUsable c result h = (
  ground arith,
  record {
    has_path = ground arith;
    extract_names_module = λ e. ground arith;
    list_names_none = λ e. ground arith;
    list_keeps_size = λ e. ground (arith, eq_of_== c.chunk_size default_chunk_size);
    force_has_output = λ e. ground arith;
  },
)

-- A command that does something: its name, its constraints, and the size of a chunk in bounds.
pub record Accepted (command : Bytes) (c : CommandLine) : Type 0 where
  pub command_is : c.command ≡ command
  pub is_usable : IsUsable c
  pub at_least : 4096 ≤ c.chunk_size
  pub at_most : c.chunk_size ≤ 16777216

-- What the parser answers for a command with options: that, or a request for help.
abbrev pub Answers : Bytes → CommandLine → Type 0
Answers command c = (c.command ≡ codes "help") ⊎ Accepted command c

check_arguments-Answers :
    (c result : CommandLine)
    → IsSize c.chunk_size
    → check_arguments c ≡ ok result
    → Answers c.command result
check_arguments-Answers c result size h =
    let (same, usable) = check_arguments-IsUsable c result h in
    inr (
      subst (Accepted c.command) same
        (record { command_is = refl; is_usable = usable; at_least = size.0; at_most = size.1 }))

help-Answers : (c result : CommandLine) → ok (help_of c) ≡ ok result → Answers c.command result
help-Answers c result h = inl (ground arith)

last_option-Answers :
    (switch : Switch) (c result : CommandLine) (option : Bytes)
    → IsSize c.chunk_size
    → last_option switch c option ≡ ok result
    → Answers c.command result
unfolding last_option
last_option-Answers sword_path_option c result option size h = absurd (ground arith)
last_option-Answers module_option c result option size h = absurd (ground arith)
last_option-Answers output_option c result option size h = absurd (ground arith)
last_option-Answers chunk_size_option c result option size h = absurd (ground arith)
last_option-Answers force_option c result option size h =
    check_arguments-Answers (record c { force = true }) result size h
last_option-Answers help_option c result option size h = help-Answers c result h
last_option-Answers unknown c result option size h = absurd (ground arith)

-- The rest of the arguments has been parsed as stated.
abbrev Parsed : List Bytes → CommandLine → Type 0
Parsed arguments result =
    (c : CommandLine)
    → IsSize c.chunk_size
    → parse_options c arguments ≡ ok result
    → Answers c.command result

module _ (c : CommandLine) (option value : Bytes) (rest : List Bytes) (result : CommandLine)
    (size : IsSize c.chunk_size) (later : Parsed rest result)
    (again : Parsed (value ∷ rest) result) where
  sized-Answers :
      (parsed : Result ℕ)
      → ((n : ℕ) → parsed ≡ ok n → IsSize n)
      → elim parsed [ ok n ↦ parse_options (record c { chunk_size = n }) rest | throw e ↦ throw e ]
        ≡ ok result
      → Answers c.command result
  sized-Answers (ok n) bounds h = later (record c { chunk_size = n }) (bounds n refl) h
  sized-Answers (throw e) bounds h = absurd (ground arith)

  switch-Answers :
      (switch : Switch)
      → elim switch [
        | sword_path_option ↦ parse_options (record c { sword_path = value }) rest
        | module_option ↦ parse_options (record c { module_name = value }) rest
        | output_option ↦ parse_options (record c { output_path = some value }) rest
        | chunk_size_option ↦ elim (parse_chunk_size value) [
          | ok size ↦ parse_options (record c { chunk_size = size }) rest
          | throw e ↦ throw e
        ]
        | force_option ↦ parse_options (record c { force = true }) (value ∷ rest)
        | help_option ↦ ok (help_of c)
        | unknown ↦ unknown_option option
      ]
        ≡ ok result
      → Answers c.command result
  switch-Answers sword_path_option h = later (record c { sword_path = value }) size h
  switch-Answers module_option h = later (record c { module_name = value }) size h
  switch-Answers output_option h = later (record c { output_path = some value }) size h
  switch-Answers chunk_size_option h =
      sized-Answers (parse_chunk_size value) (parse_chunk_size-IsSize value) h
  switch-Answers force_option h = again (record c { force = true }) size h
  switch-Answers help_option h = help-Answers c result h
  switch-Answers unknown h = absurd (ground arith)

parse_options-Answers : (arguments : List Bytes) (result : CommandLine) → Parsed arguments result
unfolding parse_options
parse_options-Answers [] result c size h = check_arguments-Answers c result size h
parse_options-Answers (option ∷ []) result c size h =
    last_option-Answers (classify option) c result option size h
parse_options-Answers (option ∷ value ∷ rest) result c size h =
    switch-Answers c option value rest result size (parse_options-Answers rest result)
      (parse_options-Answers (value ∷ rest) result) (classify option) h

eq_of_same_text : (a b : Bytes) → same_text a b ≡ true → a ≡ b
unfolding same_text
eq_of_same_text [] [] h = refl
eq_of_same_text [] (y ∷ ys) h = absurd (ground arith)
eq_of_same_text (x ∷ xs) [] h = absurd (ground arith)
eq_of_same_text (x ∷ xs) (y ∷ ys) h = ground (arith, eq_of_== x y, eq_of_same_text xs ys)

abbrev Runs : Bytes → List Bytes → CommandLine → Type 0
Runs command options result =
    ((same_text command (codes "list") ≡ true) ⊎ (same_text command (codes "extract") ≡ true))
    × (parse_options (empty_command_line command) options ≡ ok result)

-- The last two branches of `parse_command`.
runs_or_unknown :
    (parsed : Result CommandLine) (text : Bytes) (is_list is_extract : Bool) (result : CommandLine)
    → (if not is_list && not is_extract then invalid text else parsed) ≡ ok result
    → ((is_list ≡ true) ⊎ (is_extract ≡ true)) × (parsed ≡ ok result)
runs_or_unknown parsed text true is_extract result h = (inl refl, h)
runs_or_unknown parsed text false true result h = (inr refl, h)
runs_or_unknown parsed text false false result h = absurd (ground arith)

-- The command lines that ask for information, and what each asks for: an option in place of the command, or
-- a plain word with nothing behind it.
abbrev pub AsksFor : Bytes → List Bytes → Bytes → Type 0
AsksFor command options answer =
    (((command ≡ codes "--help") ⊎ (command ≡ codes "-h")) × (answer ≡ codes "help"))
    ⊎ (((command ≡ codes "--version") × (answer ≡ codes "version"))
        ⊎ (((command ≡ codes "help") ⊎ ((command ≡ codes "version") ⊎ (command ≡ codes "contract")))
            × (options ≡ [])
            × (answer ≡ command)))

abbrev pub IsQuestion : Bytes → List Bytes → CommandLine → Type 0
IsQuestion command options result =
    (answer : Bytes) × AsksFor command options answer × (result ≡ empty_command_line answer)

either : (a b : Bool) → (a || b) ≡ true → (a ≡ true) ⊎ (b ≡ true)
either true b h = inl refl
either false b h = inr h

is_either :
    (command a b : Bytes)
    → (same_text command a || same_text command b) ≡ true
    → (command ≡ a) ⊎ (command ≡ b)
is_either command a b h = elim (either (same_text command a) (same_text command b) h) [
  | inl e ↦ inl (eq_of_same_text command a e)
  | inr e ↦ inr (eq_of_same_text command b e)
]

is_one_of :
    (command a b c : Bytes)
    → (same_text command a || (same_text command b || same_text command c)) ≡ true
    → (command ≡ a) ⊎ ((command ≡ b) ⊎ (command ≡ c))
is_one_of command a b c h =
    elim (either (same_text command a) (same_text command b || same_text command c) h) [
      | inl e ↦ inl (eq_of_same_text command a e)
      | inr e ↦ inr (is_either command b c e)
    ]

nothing : (options : List Bytes) → is_empty_list options ≡ true → options ≡ []
nothing [] h = refl
nothing (x ∷ xs) h = absurd (ground arith)

information :
    (command answer : Bytes) (options : List Bytes) (result : CommandLine)
    → AsksFor command options answer
    → ok (empty_command_line answer) ≡ ok result
    → IsQuestion command options result
information command answer options result asks h =
    let e : empty_command_line answer ≡ result = ground arith in (answer, asks, sym e)

parse_command-Runs :
    (command : Bytes) (options : List Bytes) (result : CommandLine)
    → parse_command command options ≡ ok result
    → IsQuestion command options result ⊎ Runs command options result
unfolding parse_command
parse_command-Runs command options result h =
    elim (Bool-cases (same_text command (codes "--help") || same_text command (codes "-h"))) [
      | inl help ↦ inl (
          information command (codes "help") options result
            (inl (is_either command (codes "--help") (codes "-h") help, refl)) (rw help at h))
      | inr no_help ↦ elim (Bool-cases (same_text command (codes "--version"))) [
        | inl version ↦ inl (
            information command (codes "version") options result
              (inr (inl (eq_of_same_text command (codes "--version") version, refl)))
              (rw (no_help, version) at h))
        | inr no_version ↦
            elim (Bool-cases (
              same_text command (codes "help")
              || (same_text command (codes "version") || same_text command (codes "contract")))) [
                | inl asks ↦ elim (Bool-cases (is_empty_list options)) [
                  | inl alone ↦ inl (
                      information command command options result
                        (inr (
                          inr (
                            is_one_of command (codes "help") (codes "version") (codes "contract")
                                asks,
                            nothing options alone,
                            refl,
                          )))
                        (rw (no_help, no_version, asks, alone) at h))
                  | inr more ↦ absurd (throw_ne_ok (rw (no_help, no_version, asks, more) at h))
                ]
                | inr no_question ↦
                    inr
                      (runs_or_unknown _ _ _ _ result (rw (no_help, no_version, no_question) at h))
              ]
      ]
    ]
  where
    throw_ne_ok : {A : Type 0} {a : A} {e : Exception} → throw e ≡ ok a → ⊥
    throw_ne_ok h = cc

-- A command line that is accepted asks for help, the version or the contract in one of the forms for that, and the
-- result has that and nothing else; or it is a `list` or an `extract`, and the result is help or a
-- command of this name with a path, with a module if and only if it extracts, with a chunk size in bounds, which is the default size for a list, and with
-- an output where it has force.
pub parse_arguments-Accepted :
    (program command : Bytes) (options : List Bytes) (result : CommandLine)
    → parse_arguments (program ∷ command ∷ options) ≡ ok result
    → IsQuestion command options result
      ⊎ (((command ≡ codes "list") ⊎ (command ≡ codes "extract"))
          × ((result.command ≡ codes "help") ⊎ Accepted command result))
unfolding parse_arguments
parse_arguments-Accepted program command options result h =
    elim (parse_command-Runs command options result h) [
      | inl question ↦ inl question
      | inr (which, parsed) ↦ inr (
        elim which [
          | inl list ↦ inl (eq_of_same_text command (codes "list") list)
          | inr extract ↦ inr (eq_of_same_text command (codes "extract") extract)
        ],
        parse_options-Answers options result (empty_command_line command) (omega arith) parsed,
      )
    ]
