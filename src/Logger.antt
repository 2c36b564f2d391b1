-- ===== src/Logger.antt =====
-- src/utils/logger/logger.c and the levels of src/include/logger.h.
pub mod Filter
use bitcode.Base.{
  ℕ, zero, suc, ◌+◌, ◌/◌, ◌%◌, List, [], ◌∷◌, ◌++◌, Option, none, some, Bytes, codes, ltb, ◌==◌,
  if◌then◌else◌,
}

abbrev pub log_level_error : ℕ
log_level_error = 1

abbrev pub log_level_warn : ℕ
log_level_warn = 2

abbrev pub log_level_info : ℕ
log_level_info = 3

abbrev pub log_level_debug : ℕ
log_level_debug = 4

abbrev pub log_level_trace : ℕ
log_level_trace = 5

abbrev pub log_level_none : ℕ
log_level_none = 6

-- `g_compiler_log_level`, and what stderr has received.
pub record Log : Type 0 where
  pub compiler_log_level : ℕ
  pub stderr : Bytes

-- A call of `log_message`; `message` is what `vfprintf` makes of the format and its arguments.
pub record Entry : Type 0 where
  pub level : ℕ
  pub file : Bytes
  pub line : ℕ
  pub func : Bytes
  pub message : Bytes

-- `%d` on a line number, in front of `after`; the number itself is enough fuel.
unfoldable pub decimal_onto : ℕ → ℕ → Bytes → Bytes
decimal_onto zero n after = after
decimal_onto (suc fuel) n after =
    let more = decimal_onto fuel (n / 10) ((b'0' + n % 10) ∷ after) in
    if ltb n 10 then (b'0' + n) ∷ after else more

-- The `switch`: `none` is a return.
unfoldable pub level_str : ℕ → Option Bytes
level_str level =
    if level == log_level_error
    then some (codes "ERROR")
    else if level == log_level_warn
    then some (codes "WARN ")
    else if level == log_level_info
    then some (codes "INFO ")
    else if level == log_level_debug
    then some (codes "DEBUG")
    else if level == log_level_trace
    then some (codes "TRACE")
    else none

-- What the three calls of `fprintf` and `vfprintf` write.
unfoldable pub log_line : Bytes → Entry → Bytes
unfolding decimal_onto
log_line name e =
    codes "["
    ++ (name
        ++ (codes "] "
            ++ (e.file
                ++ (codes ":"
                    ++ decimal_onto (suc e.line) e.line
                        (codes " " ++ (e.func ++ (codes "() - " ++ (e.message ++ codes "\n"))))))))

unfoldable pub log_message : Entry → Log → Log
unfolding level_str log_line
log_message e log = if ltb log.compiler_log_level e.level then log else elim (level_str e.level) [
  | none ↦ log
  | some name ↦ record log { stderr = log.stderr ++ log_line name e }
]
