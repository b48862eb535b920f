-- ===== src/Logging/Setup.antt =====
-- app/core/logging.py: configure_logging, on the root logger and the loggers of uvicorn.
use batch_processing_system.Common.{
  ℕ, String, Option, none, some, List, [], ◌∷◌, ◌++◌, Bool, true, ◌≡◌, refl, str_eq, length,
  if◌then◌else◌, arith,
}
use batch_processing_system.Config.{Settings}

pub data Formatter : Type 0 where
  json_formatter console_formatter : Formatter

pub data Handler : Type 0 where
  stream : Formatter → Handler
  rotating : String → (max_bytes backup_count : ℕ) → Formatter → Handler

pub record Logger : Type 0 where
  pub handlers : List Handler
  pub propagate : Bool

-- The loggers that the function writes: the root with its level, and uvicorn's. The logger "uvicorn" is the parent
-- of the other two.
pub record Loggers : Type 0 where
  pub root : List Handler
  pub level : String
  pub uvicorn : Logger
  pub uvicorn_error : Logger
  pub uvicorn_access : Logger

abbrev pub given_or : Option String → String → String
given_or none default = default
given_or (some value) default = value

abbrev pub formatter : String → Formatter
formatter fmt = if str_eq fmt "json" then json_formatter else console_formatter

abbrev pub handlers_of : Settings → Formatter → List Handler
handlers_of settings f =
    stream f
    ∷ (if str_eq settings.log_file ""
        then []
        else rotating settings.log_file settings.log_file_max_bytes settings.log_file_backup_count f
          ∷ [])

abbrev pub routed : Logger → Logger
routed logger = record { handlers = []; propagate = true }

unfoldable pub configure_logging : Settings → Option String → Option String → Loggers → Loggers
configure_logging settings level fmt l = record {
  root = handlers_of settings (formatter (given_or fmt settings.log_format));
  level = given_or level settings.log_level;
  uvicorn = routed l.uvicorn;
  uvicorn_error = routed l.uvicorn_error;
  uvicorn_access = routed l.uvicorn_access;
}

-- The handlers that a record of a logger comes to: its own, and those of its ancestors as far as they
-- propagate.
abbrev pub passed_on : Logger → List Handler → List Handler
passed_on logger above = logger.handlers ++ (if logger.propagate then above else [])

abbrev pub reached_from_uvicorn : Loggers → List Handler
reached_from_uvicorn l = passed_on l.uvicorn l.root

-- Whatever the loggers were before: behind configure_logging a record of each of uvicorn's loggers comes
-- to the handlers of the root and to no other, once each; these are two where a path of a log file is
-- set, and one where it is empty; and a second call with the same arguments changes nothing.
configure_logging_routes :
    (settings : Settings) (level fmt : Option String) (before : Loggers)
    → let l = configure_logging settings level fmt before in
      (reached_from_uvicorn l ≡ l.root)
      × (passed_on l.uvicorn_error (reached_from_uvicorn l) ≡ l.root)
      × (passed_on l.uvicorn_access (reached_from_uvicorn l) ≡ l.root)
      × (length l.root ≡ (if str_eq settings.log_file "" then 1 else 2))
      × (configure_logging settings level fmt l ≡ l)
unfolding configure_logging
configure_logging_routes settings level fmt before = (refl, refl, refl, ground arith, refl)
