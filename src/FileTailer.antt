-- ===== src/FileTailer.antt =====
-- tailer/fswatcher/fswatcher.go: the file tailer.
pub mod ReadNewLines
pub mod Session
pub mod Os
pub mod Handles
pub mod Sync
pub mod Linux
pub mod Darwin
pub mod Windows
pub mod Polling
pub mod Run
pub mod Total
use go_libtail.Prelude.{ℕ, zero, suc, Bool}
use go_libtail.Prelude.Int.{ℤ, pos, negsuc}
use go_libtail.Errors.{Text}
use go_libtail.LineReader.{default_max_line_bytes}

-- A line as it is sent to the consumer; its field Extra is left nil.
pub record Line : Type 0 where
  pub line : Text
  pub file : Text
  pub truncated : Bool

pub record TailerOptions : Type 0 where
  pub max_line_bytes : ℤ

normal_limit : ℤ → ℤ
normal_limit (pos zero) = pos default_max_line_bytes
normal_limit (pos (suc n)) = pos (suc n)
normal_limit (negsuc n) = pos default_max_line_bytes

unfoldable pub normalize_tailer_options : TailerOptions → TailerOptions
unfolding normal_limit
normalize_tailer_options options = record options {
  max_line_bytes = normal_limit options.max_line_bytes;
}
