-- ===== src/Extractor/Configuration/Lines.antt =====
-- `defines_module` as a test of the lines of a configuration file.
use getbiblesword.Prelude.{
  ℕ, zero, suc, ◌<◌, ◌≡◌, refl, ap, arith, Bool, true, false, ◌||◌, none, some, List, [], ◌∷◌, ◌++◌,
  Bytes, All, length, length-append, ◌==◌,
}
use getbiblesword.Extractor.Configuration.Definition.{
  next_line, without_return, without_mark, is_section, search_lines, defines_module,
}

abbrev pub IsLine : Bytes → Type 0
IsLine line = All (λ c. (c == 10) ≡ false) line

-- The text of the lines, with a line feed between each two of them
abbrev pub joined : Bytes → List Bytes → Bytes
joined line [] = line
joined line (next ∷ lines) = line ++ (10 ∷ joined next lines)

-- One of the lines is the name in brackets. A byte order mark counts only in front of the first line.
abbrev pub any_section : Bool → List Bytes → Bytes → Bool
any_section is_first [] module_name = false
any_section is_first (line ∷ lines) module_name =
    is_section (without_mark is_first (without_return line)) module_name
    || any_section false lines module_name

next_line-last : (line : Bytes) → IsLine line → next_line line ≡ (line, none)
unfolding next_line
next_line-last [] h = refl
next_line-last (c ∷ line) h = rw (h.0, next_line-last line h.1) refl

next_line-append :
    (line later : Bytes) → IsLine line → next_line (line ++ (10 ∷ later)) ≡ (line, some later)
unfolding next_line
next_line-append [] later h = refl
next_line-append (c ∷ line) later h = rw (h.0, next_line-append line later h.1) refl

search_lines-any_section :
    (fuel : ℕ) (is_first : Bool) (line : Bytes) (lines : List Bytes) (module_name : Bytes)
    → All IsLine (line ∷ lines)
    → length (joined line lines) < fuel
    → search_lines fuel is_first (joined line lines) module_name
      ≡ any_section is_first (line ∷ lines) module_name
unfolding search_lines
search_lines-any_section zero is_first line lines module_name h enough =
    absurd (omega (arith, enough))
search_lines-any_section (suc fuel) is_first line [] module_name h enough =
    rw (next_line-last line h.0) refl
search_lines-any_section (suc fuel) is_first line (next ∷ lines) module_name h enough =
    let test = is_section (without_mark is_first (without_return line)) module_name in
    rw (next_line-append line (joined next lines) h.0) (
      ap (λ (t : Bool). test || t)
        (search_lines-any_section fuel false next lines module_name h.1
          (omega (arith, enough, length-append line (10 ∷ joined next lines)))))

-- Lines without line feeds, joined by line feeds: `defines_module` finds the module exactly where one
-- of these lines, without a carriage return at its end and, for the first, without a byte order mark in
-- front, passes the test for a section of that name. The fuel of the loop is always enough.
pub defines_module-any_section :
    (line : Bytes) (lines : List Bytes) (module_name : Bytes)
    → All IsLine (line ∷ lines)
    → defines_module (joined line lines) module_name ≡ any_section true (line ∷ lines) module_name
unfolding defines_module
defines_module-any_section line lines module_name h =
    search_lines-any_section (suc (length (joined line lines))) true line lines module_name h
      (omega arith)
