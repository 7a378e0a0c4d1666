-- ===== src/Worker/Handlers.antt =====
-- manga_manager/application/job_handlers.py: how a handler ends, as a value.
use manga_manager.Prelude.{ℕ, Option, Text, strip, or_text}

-- An exception that is none of the classes of the module: `str(exc)` and the name of its type.
pub record Unexpected : Type 0 where
  pub text : Text
  pub type_name : Text

-- `exception_message`
abbrev pub exception_message : Unexpected → Text
exception_message e = or_text (strip e.text) e.type_name

-- The handler returns, or raises one of the exceptions that the worker tells apart.
pub data HandlerOutcome : Type 0 where
  returned : HandlerOutcome
  deferred_error : (code message : Text) (retry_after : ℕ) → HandlerOutcome
  retryable_error : (code message : Text) (retry_after : Option ℕ) → HandlerOutcome
  rerouted_error : HandlerOutcome
  permanent_error : (code message : Text) → HandlerOutcome
  lease_lost_error : HandlerOutcome
  cancelled_error : HandlerOutcome
  unexpected_error : Unexpected → HandlerOutcome
