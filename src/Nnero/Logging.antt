-- ===== src/Nnero/Logging.antt =====
-- nnero/logging.hpp and nnero/logging.cpp: `logInit` on a file. A string is the list of its chars'
-- codes, and so is the text of the file. The map is a list with the newest entry first.
mod Examples
pub mod Words
pub mod Printing
pub mod Output
use cpp_prac.Prelude.{
  ℕ, ◌==◌, Bool, true, false, ◌&&◌, ◌||◌, Option, none, some, List, [], ◌∷◌, ◌++◌, if◌then◌else◌,
  leb,
}

abbrev pub Text : Type 0
Text = List ℕ

pub data LogLevel : Type 0 where
  debug info warn error fatal : LogLevel

pub data LogMode : Type 0 where
  console file both : LogMode

pub data LogRatio : Type 0 where
  second milli mirco : LogRatio

pub record LogConfig : Type 0 where
  pub log_path : Text
  pub log_name : Text
  pub log_mode : LogMode
  pub log_level : LogLevel
  pub log_ratio : LogRatio

-- `logInit` ends in `abort`, or sets `s_config_ptr` and `s_level`.
pub data Init : Type 0 where
  broken_line no_path no_file not_found : Init
  loaded : LogConfig → LogLevel → Init

abbrev pub same : Text → Text → Bool
same [] [] = true
same [] (_ ∷ _) = false
same (_ ∷ _) [] = false
same (c ∷ cs) (d ∷ ds) = (c == d) && same cs ds

abbrev pub is_empty : Text → Bool
is_empty [] = true
is_empty (_ ∷ _) = false

-- `find("=")` and the two `substr`.
unfoldable pub split : Text → Option (Text × Text)
split [] = none
split (c ∷ cs) =
    let rest = split cs in
    if c == 61
    then some ([], cs)
    else elim rest [ none ↦ none | some (name, value) ↦ some (c ∷ name, value) ]

-- `config_map[name]`, which is empty where nothing was set.
unfoldable pub config : List (Text × Text) → Text → Text
config [] name = []
config ((k, v) ∷ m) name = if same k name then v else config m name

-- The white space of `>>`.
unfoldable pub is_space : ℕ → Bool
is_space c = c == 32 || leb 9 c && leb c 13

-- What `ifs >> line` leaves in `line` in each turn of the loop, until the end of the file is met: the
-- next word, or the same as before where only white space is left. The flag is whether a word is read.
unfoldable pub turns : Bool → Text → Text → List Text
turns in_word line [] = line ∷ []
turns false line (c ∷ cs) = elim (is_space c) [
  | true ↦ turns false line cs
  | false ↦ turns true (c ∷ []) cs
]
turns true line (c ∷ cs) = elim (is_space c) [
  | true ↦ line ∷ turns false line cs
  | false ↦ turns true (line ++ c ∷ []) cs
]

-- The body of the loop, on the lines of its turns; `none` is the abort.
unfoldable pub read_lines : List (Text × Text) → List Text → Option (List (Text × Text))
read_lines m [] = some m
read_lines m (line ∷ lines) = elim (split line) [
  | none ↦ none
  | some entry ↦ read_lines (entry ∷ m) lines
]

-- log.path, log.file, log.level, log.mode and log.time.
abbrev pub log_prefix : Text → Text
log_prefix name = 108 ∷ 111 ∷ 103 ∷ 46 ∷ name

abbrev pub path_key : Text
path_key = log_prefix (112 ∷ 97 ∷ 116 ∷ 104 ∷ [])

abbrev pub file_key : Text
file_key = log_prefix (102 ∷ 105 ∷ 108 ∷ 101 ∷ [])

abbrev pub level_key : Text
level_key = log_prefix (108 ∷ 101 ∷ 118 ∷ 101 ∷ 108 ∷ [])

abbrev pub mode_key : Text
mode_key = log_prefix (109 ∷ 111 ∷ 100 ∷ 101 ∷ [])

abbrev pub time_key : Text
time_key = log_prefix (116 ∷ 105 ∷ 109 ∷ 101 ∷ [])

-- The words for the values.
abbrev pub console_word : Text
console_word = 99 ∷ 111 ∷ 110 ∷ 115 ∷ 111 ∷ 108 ∷ 101 ∷ []

abbrev pub file_word : Text
file_word = 102 ∷ 105 ∷ 108 ∷ 101 ∷ []

abbrev pub debug_word : Text
debug_word = 100 ∷ 101 ∷ 98 ∷ 117 ∷ 103 ∷ []

abbrev pub info_word : Text
info_word = 105 ∷ 110 ∷ 102 ∷ 111 ∷ []

abbrev pub warn_word : Text
warn_word = 119 ∷ 97 ∷ 114 ∷ 110 ∷ []

abbrev pub error_word : Text
error_word = 101 ∷ 114 ∷ 114 ∷ 111 ∷ 114 ∷ []

abbrev pub fatal_word : Text
fatal_word = 102 ∷ 97 ∷ 116 ∷ 97 ∷ 108 ∷ []

abbrev pub second_word : Text
second_word = 115 ∷ 101 ∷ 99 ∷ 111 ∷ 110 ∷ 100 ∷ []

abbrev pub milli_word : Text
milli_word = 109 ∷ 105 ∷ 108 ∷ 108 ∷ 105 ∷ []

abbrev pub micro_word : Text
micro_word = 109 ∷ 105 ∷ 99 ∷ 114 ∷ 111 ∷ []

-- The defaults are those of an empty value too, since no word is empty.
unfoldable pub read_mode : Text → LogMode
read_mode s = if same s console_word then console else if same s file_word then file else both

unfoldable pub read_level : Text → LogLevel
read_level s =
    if same s debug_word
    then debug
    else if same s info_word
    then info
    else if same s warn_word
    then warn
    else if same s error_word
    then error
    else if same s fatal_word
    then fatal
    else info

unfoldable pub read_ratio : Text → LogRatio
read_ratio s =
    if same s second_word
    then second
    else if same s milli_word
    then milli
    else if same s micro_word
    then mirco
    else milli

-- Whether a mode writes to a file.
abbrev pub to_file : LogMode → Bool
to_file console = false
to_file file = true
to_file both = true

-- What follows the loop.
unfoldable pub configure : List (Text × Text) → Init
configure m =
    let mode = read_mode (config m mode_key) in
    let level = read_level (config m level_key) in
    if to_file mode && is_empty (config m path_key)
    then no_path
    else if to_file mode && is_empty (config m file_key)
    then no_file
    else loaded
        (record {
          log_path = config m path_key;
          log_name = config m file_key;
          log_mode = mode;
          log_level = level;
          log_ratio = read_ratio (config m time_key);
        })
        level

-- `logInit(file_path)`: `none` is a file that cannot be opened.
unfoldable pub log_init : Option Text → Init
log_init none = not_found
log_init (some content) = elim (read_lines [] (turns false [] content)) [
  | none ↦ broken_line
  | some m ↦ configure m
]
