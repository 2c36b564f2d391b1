-- ===== src/Tests/Logging.antt =====
-- Messages to the log.
use bitcode.Base.{◌≡◌, refl, List, [], ◌∷◌, codes}
use bitcode.Logger.{Log, Entry, log_message}
use bitcode.Logger.Filter.{log_all, shown, log_all-shown}

abbrev entries : List Entry
entries =
    record {
      level = 1;
      file = codes "vm.c";
      line = 98;
      func = codes "load_bytecode";
      message = codes "no file";
    }
    ∷ record {
      level = 4;
      file = codes "parser.c";
      line = 35;
      func = codes "parse_program";
      message = codes "100 lines";
    }
    ∷ []

abbrev log : Log
log = record { compiler_log_level = 3; stderr = [] }

logged :
    log_all entries log
    ≡ record log { stderr = codes "[ERROR] vm.c:98 load_bytecode() - no file\n" }
unfolding log_all log_message
logged = refl

log_all-shown_example :
    log_all entries log ≡ record { compiler_log_level = 3; stderr = shown 3 entries }
log_all-shown_example = log_all-shown entries log
