-- ===== src/Errors.antt =====
-- tailer/fswatcher/errors.go: the error type of the tailer.
use Prim.Native.Char.{code}
use Prim.Native.String.{String}
use go_libtail.Prelude.{ℕ, Option, none, some, List, [], ◌∷◌, ◌++◌}

-- A Go string: here the code points of a text, which are its bytes where it is ASCII.
abbrev pub Text : Type 0
Text = List ℕ

abbrev pub text : String → Text
text String.[] = []
text (String.◌∷◌ c s) = code c ∷ text s

pub data ErrorType : Type 0 where
  not_specified directory_not_found file_not_found win_file_removed : ErrorType

-- tailerError; a cause is an error of another package, known by its text.
pub record Error : Type 0 where
  pub msg : Text
  pub cause : Option Text
  pub error_type : ErrorType

abbrev pub new_error : ErrorType → Option Text → Text → Error
new_error error_type cause msg = record { msg = msg; cause = cause; error_type = error_type }

-- The method Error().
error_text : Text → Option Text → Text
error_text (c ∷ msg) (some cause) = (c ∷ msg) ++ (text ": " ++ cause)
error_text (c ∷ msg) none = c ∷ msg
error_text [] (some cause) = cause
error_text [] none = text "unknown error"

unfoldable pub error : Error → Text
unfolding error_text
error e = error_text e.msg e.cause
