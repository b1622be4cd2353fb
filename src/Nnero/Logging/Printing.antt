-- ===== src/Nnero/Logging/Printing.antt =====
-- Configurations written out and read by nnero/logging.cpp.
use cpp_prac.Prelude.{true, false, ◌&&◌, ap, ◌∙◌, some, [], ◌∷◌, ◌++◌, ◌≡◌, refl}
use cpp_prac.Nnero.Logging.{
  Text, LogLevel, debug, info, warn, error, fatal, LogMode, console, file, both, LogRatio, second,
  milli, mirco, LogConfig, loaded, is_empty, split, config, read_lines, path_key, file_key,
  level_key, mode_key, time_key, console_word, file_word, debug_word, info_word, warn_word,
  error_word, fatal_word, second_word, milli_word, micro_word, read_mode, read_level, read_ratio,
  to_file, configure, log_init, is_space, turns,
}
use cpp_prac.Nnero.Logging.Words.{no_space, all_space, last_turns, turns_word, turns_end}

abbrev pub level_word : LogLevel → Text
level_word debug = debug_word
level_word info = info_word
level_word warn = warn_word
level_word error = error_word
level_word fatal = fatal_word

-- The comment of logging.hpp has the word all for both.
abbrev pub mode_word : LogMode → Text
mode_word console = console_word
mode_word file = file_word
mode_word both = 97 ∷ 108 ∷ 108 ∷ []

abbrev pub ratio_word : LogRatio → Text
ratio_word second = second_word
ratio_word milli = milli_word
ratio_word mirco = micro_word

-- The five lines of a configuration.
abbrev path_line : LogConfig → Text
path_line c = path_key ++ 61 ∷ c.log_path

abbrev name_line : LogConfig → Text
name_line c = file_key ++ 61 ∷ c.log_name

abbrev level_line : LogConfig → Text
level_line c = level_key ++ 61 ∷ level_word c.log_level

abbrev mode_line : LogConfig → Text
mode_line c = mode_key ++ 61 ∷ mode_word c.log_mode

abbrev time_line : LogConfig → Text
time_line c = time_key ++ 61 ∷ ratio_word c.log_ratio

-- The text of a file with these lines, and what follows the last of them.
abbrev pub text_of : LogConfig → Text → Text
text_of c ending =
    path_line c
    ++ (10
        ∷ (name_line c
            ++ (10 ∷ (level_line c ++ (10 ∷ (mode_line c ++ (10 ∷ (time_line c ++ ending))))))))

level-word : (l : LogLevel) → read_level (level_word l) ≡ l
unfolding read_level
level-word debug = refl
level-word info = refl
level-word warn = refl
level-word error = refl
level-word fatal = refl

mode-word : (m : LogMode) → read_mode (mode_word m) ≡ m
unfolding read_mode
mode-word console = refl
mode-word file = refl
mode-word both = refl

ratio-word : (r : LogRatio) → read_ratio (ratio_word r) ≡ r
unfolding read_ratio
ratio-word second = refl
ratio-word milli = refl
ratio-word mirco = refl

level_word-no_space : (l : LogLevel) → no_space (level_word l) ≡ true
unfolding is_space
level_word-no_space debug = refl
level_word-no_space info = refl
level_word-no_space warn = refl
level_word-no_space error = refl
level_word-no_space fatal = refl

mode_word-no_space : (m : LogMode) → no_space (mode_word m) ≡ true
unfolding is_space
mode_word-no_space console = refl
mode_word-no_space file = refl
mode_word-no_space both = refl

ratio_word-no_space : (r : LogRatio) → no_space (ratio_word r) ≡ true
unfolding is_space
ratio_word-no_space second = refl
ratio_word-no_space milli = refl
ratio_word-no_space mirco = refl

-- The turns over the file.
all_turns :
    (c : LogConfig) (ending : Text)
    → no_space c.log_path ≡ true
    → no_space c.log_name ≡ true
    → all_space ending ≡ true
    → turns false [] (text_of c ending)
      ≡ path_line c ∷ name_line c ∷ level_line c ∷ mode_line c ∷ last_turns (time_line c) ending
unfolding is_space
all_turns c ending path name blank =
    turns_word [] _ _ path
    ∙ ap (λ ls. path_line c ∷ ls)
        (turns_word (path_line c) _ _ name
          ∙ ap (λ ls. name_line c ∷ ls)
              (turns_word (name_line c) _ _ (level_word-no_space c.log_level)
                ∙ ap (λ ls. level_line c ∷ ls)
                    (turns_word (level_line c) _ _ (mode_word-no_space c.log_mode)
                      ∙ ap (λ ls. mode_line c ∷ ls)
                          (turns_end (mode_line c) _ ending (ratio_word-no_space c.log_ratio)
                            blank))))

-- A configuration whose path and name have no white space, written as five lines, with any white space
-- or none after the last, is read as it was, with its level, where a mode that writes to a file has a
-- path and a name.
pub log_init-text_of :
    (c : LogConfig) (ending : Text)
    → no_space c.log_path ≡ true
    → no_space c.log_name ≡ true
    → all_space ending ≡ true
    → (to_file c.log_mode && is_empty c.log_path) ≡ false
    → (to_file c.log_mode && is_empty c.log_name) ≡ false
    → log_init (some (text_of c ending)) ≡ loaded c c.log_level
unfolding log_init read_lines split configure config
log_init-text_of c [] no_path_space no_name_space blank path name =
    rw (log_init, all_turns c [] no_path_space no_name_space blank)
      (simp (mode-word c.log_mode, level-word c.log_level, ratio-word c.log_ratio, path, name))
log_init-text_of c (b ∷ bs) no_path_space no_name_space blank path name =
    rw (log_init, all_turns c (b ∷ bs) no_path_space no_name_space blank)
      (simp (mode-word c.log_mode, level-word c.log_level, ratio-word c.log_ratio, path, name))
