-- ===== src/Filter.antt =====
-- src/common/filters/global-exception.filter.ts: the answer to every exception of a request.
pub mod Hides
mod Tests
use nest_nexus.Prelude.{
  ℕ, String, Bool, true, false, not, Option, none, some, ◌==◌, nat_eq, string_eq, if◌then◌else◌,
  leb,
}
use nest_nexus.Exec.{Exception, http, prisma_known, other}

pub data ErrorCode : Type 0 where
  unauthenticated forbidden_code not_found_code validation_error rate_limited conflict_code
        internal_error :
      ErrorCode

pub record Normalized : Type 0 where
  pub message : String
  pub code : ErrorCode
  pub status_code : ℕ

-- What a request throws: an `Error` with the text of its stack, or another value.
pub data Thrown : Type 0 where
  error : Exception → Option String → Thrown
  value : Thrown

-- `exception instanceof Error ? exception.stack : undefined`, whose text begins with the message.
abbrev pub stack_of : Thrown → Option String
stack_of (error e stack) = stack
stack_of value = none

-- The JSON envelope, without its time.
pub record Envelope : Type 0 where
  pub status_code : ℕ
  pub error_code : ErrorCode
  pub message : String
  pub path : String
  pub stack : Option String

unfoldable pub is_internal_error : ℕ → Bool
is_internal_error status_code = leb 500 status_code

unfoldable pub status_to_error_code : ℕ → ErrorCode
status_to_error_code status =
    if status == 400
    then validation_error
    else if status == 401
    then unauthenticated
    else if status == 403
    then forbidden_code
    else if status == 404
    then not_found_code
    else if status == 409
    then conflict_code
    else if status == 422
    then validation_error
    else if status == 429
    then rate_limited
    else internal_error

abbrev pub unhandled : String → Normalized
unhandled message = record { message = message; code = internal_error; status_code = 500 }

-- A constraint or a missing row has a general message; another code of the client is unhandled.
unfoldable pub normalize_exception : Thrown → Normalized
unfolding status_to_error_code
normalize_exception (error (http status message) stack) = record {
  message = message;
  code = status_to_error_code status;
  status_code = status;
}
normalize_exception (error (prisma_known code) stack) =
    if code == "P2002"
    then (record {
      message = "A record with this value already exists.";
      code = conflict_code;
      status_code = 409;
    })
    else if code == "P2025"
    then (record { message = "Record not found."; code = not_found_code; status_code = 404 })
    else unhandled code
normalize_exception (error (other message) stack) = unhandled message
normalize_exception value = unhandled "Unknown error"

abbrev pub is_dev : String → Bool
is_dev node_env = not (node_env == "production")

unfoldable pub handle_http_error : String → String → Thrown → Envelope
handle_http_error node_env url exception =
    let n = normalize_exception exception in
    record {
      status_code = n.status_code;
      error_code = n.code;
      message =
          if is_internal_error n.status_code
          then "An internal server error occurred."
          else n.message;
      path = url;
      stack =
          if is_dev node_env
          then (if is_internal_error n.status_code then stack_of exception else none)
          else none;
    }
