-- ===== src/Nnero/Logging/Output.antt =====
-- nnero/logging.hpp and nnero/logging.cpp: the macro `LOG`, `Log::stream` and the destructor of `Log`.
-- What the clock and the thread say, and `<<` for the number of the line, are given.
use cpp_prac.Prelude.{ℕ, leb, Bool, true, false, List, [], ◌∷◌, ◌++◌, if◌then◌else◌}
use cpp_prac.Nnero.Logging.{
  Text, LogLevel, debug, info, warn, error, fatal, LogMode, console, file, both, LogRatio, second,
  milli, mirco, LogConfig, to_file,
}

-- One use of `LOG`, with the text that is put into the stream.
pub record Message : Type 0 where
  pub level : LogLevel
  pub file_name : Text
  pub func : Text
  pub line : ℕ
  pub text : Text
  pub now_second : Text
  pub now_milli : Text
  pub now_micro : Text
  pub today : Text
  pub thread_id : Text

-- The places to which a text goes.
pub data Sink : Type 0 where
  cerr : Text → Sink
  appends : Text → Text → Sink

abbrev pub to_console : LogMode → Bool
to_console console = true
to_console file = false
to_console both = true

abbrev pub rank : LogLevel → ℕ
rank debug = 0
rank info = 1
rank warn = 2
rank error = 3
rank fatal = 4

-- "[DEBUG " and the others.
abbrev pub level_text : LogLevel → Text
level_text debug = 91 ∷ 68 ∷ 69 ∷ 66 ∷ 85 ∷ 71 ∷ 32 ∷ []
level_text info = 91 ∷ 73 ∷ 78 ∷ 70 ∷ 79 ∷ 32 ∷ 32 ∷ []
level_text warn = 91 ∷ 87 ∷ 65 ∷ 82 ∷ 78 ∷ 32 ∷ 32 ∷ []
level_text error = 91 ∷ 69 ∷ 82 ∷ 82 ∷ 79 ∷ 82 ∷ 32 ∷ []
level_text fatal = 91 ∷ 70 ∷ 65 ∷ 84 ∷ 65 ∷ 76 ∷ 32 ∷ []

abbrev pub time_text : LogRatio → Message → Text
time_text mirco m = m.now_micro
time_text second m = m.now_second
time_text milli m = m.now_milli

module _ (to_string : ℕ → Text) where
  -- What `stream` puts before the text: "[LEVEL time <thread> file->func:line]: ".
  unfoldable pub prefix : LogConfig → Message → Text
  prefix config m =
      level_text m.level
      ++ time_text config.log_ratio m
      ++ 32 ∷ []
      ++ 60 ∷ []
      ++ m.thread_id
      ++ 62 ∷ 32 ∷ []
      ++ m.file_name
      ++ 45 ∷ 62 ∷ []
      ++ m.func
      ++ 58 ∷ []
      ++ to_string m.line
      ++ 93 ∷ 58 ∷ 32 ∷ []

  -- The line that the destructor writes.
  abbrev pub line_of : LogConfig → Message → Text
  line_of config m = prefix config m ++ m.text ++ 10 ∷ []

  -- The file of a day, with ".log" at its end.
  abbrev pub file_of : LogConfig → Message → Text
  file_of config m = config.log_path ++ config.log_name ++ m.today ++ 46 ∷ 108 ∷ 111 ∷ 103 ∷ []

  -- The destructor of `Log`.
  unfoldable pub flush : LogConfig → Message → List Sink
  flush config m =
      (if to_console config.log_mode then cerr (line_of config m) ∷ [] else [])
      ++ (if to_file config.log_mode
          then appends (file_of config m) (line_of config m) ∷ []
          else [])

  -- `LOG(level)`
  unfoldable pub log : LogLevel → LogConfig → Message → List Sink
  log s_level config m = if leb (rank s_level) (rank m.level) then flush config m else []

  unfoldable pub log_all : LogLevel → LogConfig → List Message → List Sink
  log_all s_level config [] = []
  log_all s_level config (m ∷ ms) = log s_level config m ++ log_all s_level config ms
