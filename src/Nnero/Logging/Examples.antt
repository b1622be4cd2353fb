-- ===== src/Nnero/Logging/Examples.antt =====
-- Runs of nnero/logging.cpp, and the theorems about it at inputs.
use cpp_prac.Prelude.{ℕ, true, ◌≡◌, refl, some, [], ◌∷◌}
use cpp_prac.Nnero.Logging.{
  LogConfig, LogLevel, info, Text, warn, both, mirco, broken_line, no_path, loaded, is_space, turns,
  split, config, read_lines, configure, read_mode, log_init,
}
use cpp_prac.Nnero.Logging.Output.{Message, log, log_all}
use cpp_prac.Nnero.Logging.Words.{no_space, all_space}
use cpp_prac.Nnero.Logging.Printing.{text_of, log_init-text_of}

-- The path /a=b/ has an equals sign itself.
abbrev sample : LogConfig
sample = record {
  log_path = 47 ∷ 97 ∷ 61 ∷ 98 ∷ 47 ∷ [];
  log_name = 110 ∷ [];
  log_mode = both;
  log_level = warn;
  log_ratio = mirco;
}

path_plain : no_space sample.log_path ≡ true
unfolding is_space
path_plain = refl

name_plain : no_space sample.log_name ≡ true
unfolding is_space
name_plain = refl

newline : all_space (10 ∷ []) ≡ true
unfolding is_space
newline = refl

log_init-text_of_example : log_init (some (text_of sample (10 ∷ []))) ≡ loaded sample warn
log_init-text_of_example = log_init-text_of sample (10 ∷ []) path_plain name_plain newline refl refl

-- A space in the path makes a word of its own, which has no equals sign.
spaced_aborts :
    log_init (some (text_of (record sample { log_path = 97 ∷ 32 ∷ 98 ∷ [] }) [])) ≡ broken_line
unfolding log_init read_lines turns is_space split
spaced_aborts = refl

-- With no path and no mode the default mode, both, ends in an abort.
no_path_aborts : log_init (some (110 ∷ 61 ∷ 109 ∷ [])) ≡ no_path
unfolding log_init read_lines turns is_space split configure read_mode config
no_path_aborts = refl

-- An empty file is one empty line.
empty_aborts : log_init (some []) ≡ broken_line
unfolding log_init read_lines turns split
empty_aborts = refl

abbrev message : LogLevel → Message
message level = record {
  level = level;
  file_name = 102 ∷ [];
  func = 103 ∷ [];
  line = 7;
  text = 104 ∷ [];
  now_second = 49 ∷ [];
  now_milli = 50 ∷ [];
  now_micro = 51 ∷ [];
  today = 100 ∷ [];
  thread_id = 105 ∷ [];
}

-- The digit of a line below 10.
abbrev digit : ℕ → Text
digit n = 55 ∷ []

-- Below the level that is set nothing comes out.
info_is_dropped : log_all digit warn sample (message info ∷ []) ≡ []
unfolding log_all log
info_is_dropped = refl
