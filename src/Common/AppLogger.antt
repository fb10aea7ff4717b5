-- ===== src/Common/AppLogger.antt =====
-- libs/logger/logger.service.ts: the entries that NestJS's calls write. How pino prints them is not
-- modelled.
use async_long_request_proxy.Prelude.{String, Option, none, some, List, [], ◌∷◌}

-- A parameter behind the message.
pub data Param : Type 0 where
  text : String → Param
  other : String → Param

pub data PinoLevel : Type 0 where
  trace debug info warn error : PinoLevel

pub record LogEntry : Type 0 where
  pub level : PinoLevel
  pub context : String
  pub trace : Option Param
  pub message : String

abbrev pub or_app : Option String → String
or_app none = "App"
or_app (some s) = s

-- The last parameter, if it is a text, else the context of the instance, else "App".
unfoldable pub resolve_context : Option String → List Param → String
resolve_context global [] = or_app global
resolve_context global (text s ∷ []) = s
resolve_context global (other s ∷ []) = or_app global
resolve_context global (p ∷ q ∷ ps) = resolve_context global (q ∷ ps)

abbrev pub trace_of : List Param → Option Param
trace_of (p ∷ q ∷ ps) = some p
trace_of _ = none

abbrev pub write_entry : PinoLevel → Option String → String → List Param → LogEntry
write_entry level global message params = record {
  level = level;
  context = resolve_context global params;
  trace = none;
  message = message;
}

abbrev pub log : Option String → String → List Param → LogEntry
log = write_entry info

abbrev pub log_error : Option String → String → List Param → LogEntry
log_error global message params = record {
  level = error;
  context = resolve_context global params;
  trace = trace_of params;
  message = message;
}

abbrev pub log_warn : Option String → String → List Param → LogEntry
log_warn = write_entry warn

abbrev pub log_debug : Option String → String → List Param → LogEntry
log_debug = write_entry debug

abbrev pub log_verbose : Option String → String → List Param → LogEntry
log_verbose = write_entry trace
