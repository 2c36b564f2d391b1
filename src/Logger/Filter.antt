-- ===== src/Logger/Filter.antt =====
-- Which messages reach stderr (src/utils/logger/logger.c).
use bitcode.Base.{
  ℕ, ◌≤◌, ◌<◌, ◌≡◌, ◌⊎◌, inl, inr, refl, ap, ◌∙◌, Bool, true, false, ◌&&◌, Bool-cases, List, [],
  ◌∷◌, ◌++◌, none, some, Bytes, codes, arith, leb, ltb, ◌==◌, if◌then◌else◌,
}
use mathlib.Core.List.{append-nil, append_assoc}
use bitcode.Logger.{Log, Entry, level_str, log_line, log_message}

-- The calls one after the other.
unfoldable pub log_all : List Entry → Log → Log
log_all [] log = log
log_all (e ∷ es) log = log_all es (log_message e log)

-- A message from ERROR to TRACE whose level is not over the level that is set.
abbrev pub is_shown : ℕ → Entry → Bool
is_shown threshold e = leb 1 e.level && leb e.level 5 && leb e.level threshold

-- The names of the levels.
abbrev pub name_of_level : ℕ → Bytes
name_of_level level =
    if level == 1
    then codes "ERROR"
    else if level == 2
    then codes "WARN "
    else if level == 3
    then codes "INFO "
    else if level == 4
    then codes "DEBUG"
    else codes "TRACE"

-- The lines of the messages that are shown, in their order.
abbrev pub shown : ℕ → List Entry → Bytes
shown threshold [] = []
shown threshold (e ∷ es) =
    if is_shown threshold e
    then log_line (name_of_level e.level) e ++ shown threshold es
    else shown threshold es

level_str-cases :
    (level : ℕ)
    → ((1 ≤ level) × (level ≤ 5) × (level_str level ≡ some (name_of_level level)))
      ⊎ (((level < 1) ⊎ (5 < level)) × (level_str level ≡ none))
unfolding level_str
level_str-cases level = ground arith

-- One call, by whether it is shown.
log_message-shown :
    (e : Entry) (log : Log)
    → log_message e log ≡ (
        if is_shown log.compiler_log_level e
        then record log { stderr = log.stderr ++ log_line (name_of_level e.level) e }
        else log)
unfolding log_message
log_message-shown e log = elim (Bool-cases (ltb log.compiler_log_level e.level)) [
  | inl over ↦
      let hidden : is_shown log.compiler_log_level e ≡ false = ground (arith, over) in
      rw (over, hidden, log_message) refl
  | inr under ↦ elim (level_str-cases e.level) [
    | inl (low, high, name) ↦
        let seen : is_shown log.compiler_log_level e ≡ true = ground (arith, under) in
        rw (under, seen, name, log_message) refl
    | inr (no_level, name) ↦
        let hidden : is_shown log.compiler_log_level e ≡ false = ground (arith, no_level) in
        rw (under, hidden, name, log_message) refl
  ]
]

-- Any calls of `log_message` one after the other append to stderr the lines of exactly the messages
-- whose level is from ERROR to TRACE and not over the level that is set, in their order, each with
-- the name of its level, and leave that level as it is. So LOG_LEVEL_NONE as the level that is set
-- shows every message.
pub log_all-shown :
    (es : List Entry) (log : Log)
    → log_all es log ≡ record log { stderr = log.stderr ++ shown log.compiler_log_level es }
unfolding log_all
log_all-shown [] log = rw (append-nil log.stderr) refl
log_all-shown (e ∷ es) log =
    ap (log_all es) (log_message-shown e log)
    ∙ elim (Bool-cases (is_shown log.compiler_log_level e)) [
      | inr hidden ↦ rw hidden (log_all-shown es log)
      | inl seen ↦
          let line = log_line (name_of_level e.level) e in
          rw seen (
            log_all-shown es (record log { stderr = log.stderr ++ line })
            ∙ rw (append_assoc log.stderr line (shown log.compiler_log_level es)) refl)
    ]
