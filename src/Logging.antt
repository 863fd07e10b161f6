-- ===== src/Logging.antt =====
-- The levels of the log (internal/log/level.go). A level is its number; printing is left out.
pub mod Levels
use blockmania.Prelude.{ℕ, [], Option, none, some, Bool, ◌==◌, leb, ltb, if◌then◌else◌, map}
use blockmania.Prelude.Texts.{Text, bytes, same}
use blockmania.Config.ByteSize.{to_lower}

abbrev pub debug_level : ℕ
debug_level = 1

abbrev pub info_level : ℕ
info_level = 2

abbrev pub warn_level : ℕ
warn_level = 3

abbrev pub error_level : ℕ
error_level = 4

abbrev pub stack_trace_level : ℕ
stack_trace_level = 5

abbrev pub fatal_level : ℕ
fatal_level = 6

-- `maxLevel`.
abbrev pub max_level : ℕ
max_level = 7

-- `MarshalYAML`; `none` is the panic.
unfoldable pub marshal_level : ℕ → Option Text
marshal_level l =
    if l == 0
    then some []
    else if l == debug_level
    then some (bytes "debug")
    else if l == error_level
    then some (bytes "error")
    else if l == fatal_level
    then some (bytes "fatal")
    else if l == info_level
    then some (bytes "info")
    else if l == stack_trace_level
    then some (bytes "stacktrace")
    else if l == warn_level
    then some (bytes "warn")
    else none

-- `String`; `none` is the panic.
unfoldable pub level_string : ℕ → Option Text
level_string l =
    if l == debug_level
    then some (bytes "DEBUG")
    else if l == error_level
    then some (bytes "ERROR")
    else if l == fatal_level
    then some (bytes "FATAL")
    else if l == info_level
    then some (bytes "INFO")
    else if l == stack_trace_level
    then some (bytes "STACKTRACE")
    else none

-- `UnmarshalYAML`, into a level that has a value; `none` is the error.
unfoldable pub unmarshal_level : Text → ℕ → Option ℕ
unmarshal_level raw l =
    let name = map to_lower raw in
    if same name []
    then some l
    else if same name (bytes "debug")
    then some debug_level
    else if same name (bytes "error")
    then some error_level
    else if same name (bytes "fatal")
    then some fatal_level
    else if same name (bytes "info")
    then some info_level
    else if same name (bytes "stacktrace")
    then some stack_trace_level
    else if same name (bytes "warn")
    then some warn_level
    else none

-- The lowest levels that are logged: on the console, to the file, over the network, and what
-- `updateMinLevels` makes of them.
pub record MinLevels : Type 0 where
  pub console : ℕ
  pub file : ℕ
  pub net : ℕ
  pub min : ℕ
  pub text : ℕ

abbrev lower_of : ℕ → ℕ → ℕ
lower_of a b = if ltb a b then a else b

-- `updateMinLevels`.
unfoldable pub update_min_levels : MinLevels → MinLevels
update_min_levels l =
    let text = lower_of l.file (lower_of l.console max_level) in
    record l { min = lower_of l.net text; text = text }

-- `AtDebug`, `AtInfo` and their kin: the test of the level.
abbrev pub is_logged : MinLevels → ℕ → Bool
is_logged l level = leb l.min level
