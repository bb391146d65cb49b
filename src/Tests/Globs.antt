-- ===== src/Tests/Globs.antt =====
-- Patterns and paths: tailer/glob.
use go_libtail.Prelude.{◌≡◌, ◌↔◌, refl, true, false, some}
use go_libtail.Errors.{text}
use go_libtail.Glob.{contains_wildcards, parse, from_path, glob, abs, dir, clean_rooted}
use go_libtail.Glob.Validator.{is_pattern_valid, turn}
use go_libtail.Glob.Validator.Grammar.{IsPattern}
use go_libtail.Glob.Validator.Sound.{is_pattern_valid_iff}
use go_libtail.Glob.Wildcards.{HasWildcard, contains_wildcards_iff, parse_iff, from_path-plain}

clean_test : clean_rooted (text "/a/./b//../c/") ≡ text "/a/c"
unfolding clean_rooted
clean_test = refl

dir_test : dir (text "/var/log/x.log") ≡ text "/var/log"
unfolding dir
dir_test = refl

root_dir_test : dir (text "/x.log") ≡ text "/"
unfolding dir
root_dir_test = refl

is_pattern_valid_iff_example :
    (is_pattern_valid false (text "a[^b-d\\]]*") ≡ true) ↔ IsPattern false (text "a[^b-d\\]]*")
is_pattern_valid_iff_example = is_pattern_valid_iff false (text "a[^b-d\\]]*")

contains_wildcards_iff_example :
    (contains_wildcards false (text "a\\*b?") ≡ true) ↔ HasWildcard false (text "a\\*b?")
contains_wildcards_iff_example = contains_wildcards_iff false (text "a\\*b?")

parse_iff_example : (parse (some (text "/w")) (text "../log/*.log") ≡ glob (text "/log/*.log")) ↔ (
    IsPattern false (text "../log/*.log")
    × (¬ HasWildcard false (dir (abs (text "/w") (text "../log/*.log"))))
    × (text "/log/*.log" ≡ abs (text "/w") (text "../log/*.log")))
parse_iff_example = parse_iff (text "/w") (text "../log/*.log") (text "/log/*.log")

parse_test : parse (some (text "/w")) (text "../log/*.log") ≡ glob (text "/log/*.log")
unfolding parse is_pattern_valid turn
parse_test = refl

from_path-plain_example :
    (¬ HasWildcard false (text "a.log"))
    × IsPattern false (text "a.log")
    × (text "/w/a.log" ≡ abs (text "/w") (text "a.log"))
unfolding from_path parse is_pattern_valid turn
from_path-plain_example = from_path-plain (text "/w") (text "a.log") (text "/w/a.log") refl
