-- ===== src/Tests/Extraction.antt =====
-- The theorems on artifacts and on the extraction, on a small module.
use getbiblesword.Prelude.{
  ◌≡◌, refl, sym, ap, arith, inl, inr, true, false, none, some, List, [], ◌∷◌, ◌++◌, Bytes, codes,
  All, drop, take, length-take,
}
use getbiblesword.Prelude.Int.{pos, negsuc}
use getbiblesword.Exec.{ok}
use getbiblesword.CallbackStream.{is_empty}
use getbiblesword.CommandLine.{same_text}
use getbiblesword.Ndjson
use getbiblesword.Ndjson.Records.{new-Holds}
use getbiblesword.Ndjson.Emits.{StaysBad, Emits}
use getbiblesword.Artifact.{ArtifactCandidate, Stat, answered, failed, received, System}
use getbiblesword.Artifact.Stream.{ReadsFit}
use getbiblesword.Artifact.Discovery.{Paths, Tree, directory, discover_artifacts}
use getbiblesword.Artifact.Discovery.Confined.{Lists, IsPlaced, discover_artifacts-IsPlaced}
use getbiblesword.Artifact.Discovery.Unique.{HasNoRepeats}
use getbiblesword.Extractor.Module.{SwordConstants, ModuleInfo}
use getbiblesword.Extractor.Configuration.{FileCalls, at, regular_file}
use getbiblesword.Extractor.Configuration.Definition.{defines_module}
use getbiblesword.Extractor.Configuration.Lines.{joined, any_section, defines_module-any_section}
use getbiblesword.Extractor.Entries.{Entry, last, no_dictionary}
use getbiblesword.Extractor.Entries.Json.{verse_key}
use getbiblesword.Extractor.Commands.{
  no_more, next_module, Root, unusable, canonical, World, list_modules,
}
use getbiblesword.Extractor.Tracking.Stages.{no_artifacts}
use getbiblesword.Extractor.Tracking.Commands.{IsSound}
use getbiblesword.Extractor.Contract.{Concludes, list_modules-Concludes}
use getbiblesword.Tests.Streams.{memory, memory-Collects}
use getbiblesword.Tests.Sources.{ascii}

memory-StaysBad : StaysBad memory
memory-StaysBad = record { write-bad = λ s bytes h. h }

-- A regular file, which two calls of `::read` give.
abbrev file_stat : Stat
file_stat = record {
  device = 1;
  inode = 2;
  mode = 0x81a4;
  size = 5;
  modified = 0;
  modified_nanoseconds = 0;
  changed = 0;
  changed_nanoseconds = 0;
}

abbrev disk : System
disk = record {
  visit = λ path. record {
    lstat = answered file_stat;
    readlink = λ capacity. failed 22;
    open_file = answered (record {
      opened = answered file_stat;
      reads = λ limit.
          received (take limit (codes "Genes"))
          ∷ received (take limit (drop limit (codes "Genes")))
          ∷ [];
      after = answered file_stat;
    });
  };
  errno_message = λ errno. codes "error";
}

pub disk-ReadsFit : ReadsFit disk
disk-ReadsFit = record {
  fits = λ limit path. (
    omega (arith, length-take limit (codes "Genes")),
    (omega (arith, length-take limit (drop limit (codes "Genes"))), tt),
  );
}

abbrev one_candidate : List ArtifactCandidate
one_candidate =
    record {
      absolute_path = codes "/sword/nt";
      relative_path = codes "nt";
      role = codes "module_data";
    }
    ∷ []

-- Paths below `/sword`
abbrev short_paths : Paths
short_paths = record {
  lexically_relative = λ path root. drop 7 path;
  lexically_normal = λ path. path;
  is_absolute = λ path. same_text (take 1 path) (codes "/");
  join = λ root path. root ++ (codes "/" ++ path);
  components = λ path. path ∷ [];
  parent_path = λ path. codes "/sword";
  filename = λ path. drop 7 path;
  same_path = same_text;
}

-- Each directory lists its own path, which is a repeat.
abbrev small_tree : Tree
small_tree = record {
  canonical = λ path. inr path;
  symlink_status = λ path. directory;
  recursive_entries = λ dir. record { files = dir ∷ []; failure = none };
  entries = λ dir. record { files = []; failure = none };
  sort = λ less candidates. candidates;
}

small_tree-Lists : Lists short_paths small_tree
small_tree-Lists = record {
  below = λ root dir within. (within, tt);
  sort-All = λ P less candidates h. h;
}

discover_artifacts-IsPlaced_example :
    let found =
      (discover_artifacts short_paths small_tree
        (codes "/sword")
        (codes "modules")
        (codes "/sword/a.conf" ∷ [])).output in
    All (IsPlaced short_paths (codes "/sword")) found × HasNoRepeats short_paths found
discover_artifacts-IsPlaced_example =
    discover_artifacts-IsPlaced short_paths small_tree small_tree-Lists (codes "/sword")
      (codes "/sword") (codes "modules") (codes "/sword/a.conf" ∷ []) refl

defines_module-any_section_example :
    defines_module (joined (codes "# KJV") (codes "[kjv]" ∷ [])) (codes "KJV")
    ≡ any_section true (codes "# KJV" ∷ codes "[kjv]" ∷ []) (codes "KJV")
defines_module-any_section_example =
    defines_module-any_section (codes "# KJV") (codes "[kjv]" ∷ []) (codes "KJV")
      ((refl, (refl, (refl, (refl, (refl, tt))))), ((refl, (refl, (refl, (refl, (refl, tt))))), tt))

abbrev some_constants : SwordConstants
some_constants = record {
  direction_ltr = 0;
  direction_rtl = 1;
  direction_bidi = 2;
  enc_latin1 = 1;
  enc_utf8 = 2;
  enc_scsu = 3;
  enc_utf16 = 4;
  enc_rtf = 5;
  enc_html = 6;
  fmt_plain = 1;
  fmt_thml = 2;
  fmt_gbf = 3;
  fmt_html = 4;
  fmt_htmlhref = 5;
  fmt_rtf = 6;
  fmt_osis = 7;
  fmt_webif = 8;
  fmt_tei = 9;
  fmt_xhtml = 10;
  fmt_latex = 11;
  modtype_bibles = codes "Biblical Texts";
  modtype_commentaries = codes "Commentaries";
  modtype_lexdicts = codes "Lexicons / Dictionaries";
  modtype_dailydevos = codes "Daily Devotional";
  modtype_genbooks = codes "Generic Books";
  keyerr_outofbounds = 1;
}

abbrev pub kjv : ModuleInfo
kjv = record {
  type = some (codes "Biblical Texts");
  name = some (codes "KJV");
  description = none;
  language = some (codes "en");
  direction = 0;
  encoding = 2;
  markup = 7;
  config = (codes "ModDrv", codes "zText") ∷ [];
  config_entry = λ name. some (codes "modules");
}

abbrev pub one_entry : Entry
one_entry = record {
  key = some (codes "Genesis 1:1");
  index = pos 4;
  raw = codes "In the beginning";
  read_error = 0;
  encoding = none;
  rendered = codes "In the beginning";
  attributes = [];
  strip = λ text. some text;
  scope = verse_key (record {
    testament = pos 1;
    book = pos 1;
    chapter = pos 1;
    verse = pos 1;
    suffix = negsuc 0;
    index = pos 4;
    book_abbreviation = some (codes "Gen");
    book_name = some (codes "Genesis");
    osis_reference = some (codes "Gen.1.1");
    versification = some (codes "KJV");
  });
}

abbrev pub kjv_conf : FileCalls
kjv_conf = record {
  is_open = true;
  end_position = at 5;
  seeks_back = true;
  content = λ size. codes "[KJV]";
  has_extra_byte = false;
  at_end = true;
}

abbrev pub small_world : World
small_world = record {
  versions = record { producer_version = codes "1.0.0"; sword_version = codes "1.9.0" };
  constants = some_constants;
  icu = ascii;
  system = disk;
  root = λ path. canonical (codes "/sword");
  modules = λ root. next_module kjv no_more;
  find_module = λ root name. ok (
      some (record {
        info = kjv;
        dictionary = no_dictionary;
        top_error = 0;
        traversal = last one_entry 0;
      }));
  configuration = λ root. record {
    master = record {
      path = codes "/sword/mods.conf";
      relative_path = codes "mods.conf";
      first = kjv_conf;
      second = kjv_conf;
    };
    master_status = regular_file;
    directory = inl [];
    sort = λ less files. files;
  };
  paths = short_paths;
  tree = small_tree;
}

abbrev text_of_root : Root → Bytes
text_of_root (canonical root) = root
text_of_root (unusable message) = []

pub small_world-IsSound : IsSound small_world
small_world-IsSound = record {
  reads_fit = disk-ReadsFit;
  root_not_empty = λ path root e. sym (ap (λ (r : Root). is_empty (text_of_root r)) e);
  lists = small_tree-Lists;
}

list_modules-Concludes_example :
    let run = list_modules memory small_world (codes "sword") (Ndjson.new []) in
    Concludes memory memory-Collects memory-StaysBad [] no_artifacts run.0 run.1
list_modules-Concludes_example =
    list_modules-Concludes memory memory-Collects memory-StaysBad [] small_world small_world-IsSound
      (Ndjson.new []) (new-Holds memory memory-Collects [] [] refl) (codes "sword")
