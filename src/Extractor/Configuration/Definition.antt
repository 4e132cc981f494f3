-- ===== src/Extractor/Configuration/Definition.antt =====
-- src/sword_extractor.cpp: `ascii_iequals` and `defines_module`. The rest of the text from `offset` on
-- is the list.
use getbiblesword.Prelude.{
  ℕ, zero, suc, ◌+◌, ◌-◌, Bool, true, false, not, ◌&&◌, ◌||◌, Option, none, some, [], ◌∷◌, Bytes,
  length, take, drop, ltb, ◌==◌, if◌then◌else◌,
}
use getbiblesword.CommandLine.{same_text}

-- `std::tolower` in the C locale
abbrev pub tolower : ℕ → ℕ
tolower c = if ltb 0x40 c && ltb c 0x5b then c + 32 else c

unfoldable pub iequal_characters : Bytes → Bytes → Bool
iequal_characters [] right = true
iequal_characters (l ∷ left) [] = false
iequal_characters (l ∷ left) (r ∷ right) = tolower l == tolower r && iequal_characters left right

unfoldable pub ascii_iequals : Bytes → Bytes → Bool
unfolding iequal_characters
ascii_iequals left right =
    if not (length left == length right) then false else iequal_characters left right

-- The bytes up to a line feed, and what is behind it; `none` where there is no line feed.
unfoldable pub next_line : Bytes → Bytes × Option Bytes
next_line [] = ([], none)
next_line (c ∷ bytes) =
    let (line, later) = next_line bytes in if c == 10 then ([], some bytes) else (c ∷ line, later)

abbrev pub last_is : ℕ → Bytes → Bool
last_is b [] = false
last_is b (c ∷ []) = c == b
last_is b (c ∷ d ∷ bytes) = last_is b (d ∷ bytes)

-- `if (!line.empty() && line.back() == '\r') line.remove_suffix(1U)`
unfoldable pub without_return : Bytes → Bytes
without_return line = if last_is 13 line then take (length line - 1) line else line

-- `line.remove_prefix(3U)` for the byte order mark
unfoldable pub without_mark : Bool → Bytes → Bytes
without_mark is_first line =
    if is_first && same_text (take 3 line) (0xef ∷ 0xbb ∷ 0xbf ∷ []) then drop 3 line else line

abbrev pub first_is : ℕ → Bytes → Bool
first_is b [] = false
first_is b (c ∷ bytes) = c == b

unfoldable pub is_section : Bytes → Bytes → Bool
unfolding ascii_iequals
is_section line module_name =
    not (ltb (length line) 2)
    && (first_is b'[' line
        && (last_is b']' line && ascii_iequals (take (length line - 2) (drop 1 line)) module_name))

-- The loop, with fuel. Each round but the last takes a line feed.
unfoldable pub search_lines : ℕ → Bool → Bytes → Bytes → Bool
unfolding next_line without_return without_mark is_section
search_lines zero is_first bytes module_name = false
search_lines (suc fuel) is_first bytes module_name =
    is_section (without_mark is_first (without_return (next_line bytes).0)) module_name
    || elim (next_line bytes).1 [
      | none ↦ false
      | some later ↦ search_lines fuel false later module_name
    ]

unfoldable pub defines_module : Bytes → Bytes → Bool
unfolding search_lines
defines_module bytes module_name = search_lines (suc (length bytes)) true bytes module_name
