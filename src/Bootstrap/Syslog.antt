-- ===== src/Bootstrap/Syslog.antt =====
-- `SyslogWriter` of bootstrap/logging.rs. The answer of syslog is a parameter, and so are the decoding of
-- the bytes and the trimming of the text.
use text.Mathlib.Text.{find?}
use tt_riingd.Common.{
  ℕ, String, Bool, Result, ok, ◌>>=◌, List, is_some, if◌then◌else◌, ◌≡◌, refl, length,
}

pub data Severity : Type 0 where
  severity_err severity_warning severity_info severity_debug : Severity

abbrev pub contains : String → String → Bool
contains msg word = is_some (find? msg word)

unfoldable pub severity_of : String → Severity
severity_of msg =
    if contains msg "ERROR"
    then severity_err
    else if contains msg "WARN"
    then severity_warning
    else if contains msg "INFO"
    then severity_info
    else if contains msg "DEBUG"
    then severity_debug
    else severity_info

module _ (from_utf8_lossy : List ℕ → String) (trim_end : String → String)
    (send : Severity → String → Result (Unit {0})) where
  unfoldable pub write : List ℕ → Result ℕ
  write buf =
      let msg = trim_end (from_utf8_lossy buf) in do _ ← send (severity_of msg) msg; ok (length buf)

warned : severity_of "2025-01-01 WARN tick failed" ≡ severity_warning
unfolding severity_of
warned = refl

-- A word of the message counts as the level of its line.
misread : severity_of "2025-01-01 INFO no ERROR found" ≡ severity_err
unfolding severity_of
misread = refl
