-- ===== src/Filter/Hides.antt =====
-- src/common/filters/global-exception.filter.ts: the answers to internal errors.
use nest_nexus.Prelude.{
  ℕ, String, ◌≡◌, refl, inl, inr, none, true, false, ◌==◌, nat_eq, string_eq, arith, leb,
  Bool-cases,
}
use nest_nexus.Exec.{http, prisma_known, other}
use nest_nexus.Filter.{
  Thrown, error, value, Envelope, internal_error, is_internal_error, status_to_error_code,
  normalize_exception, handle_http_error,
}

internal_status : (n : ℕ) → leb 500 n ≡ true → status_to_error_code n ≡ internal_error
unfolding status_to_error_code
internal_status n high = ground arith

internal_code :
    (e : Thrown)
    → is_internal_error (normalize_exception e).status_code ≡ true
    → (normalize_exception e).code ≡ internal_error
unfolding normalize_exception is_internal_error
internal_code value high = refl
internal_code (error (http status message) stack) high = internal_status status high
internal_code (error (other message) stack) high = refl
internal_code (error (prisma_known code) stack) high = elim (Bool-cases (code == "P2002")) [
  | inl taken ↦ let impossible : false ≡ true = rw taken at high in cc
  | inr another ↦ elim (Bool-cases (code == "P2025")) [
    | inl missing ↦ let impossible : false ≡ true = rw (another, missing) at high in cc
    | inr unknown ↦ rw (another, unknown) refl
  ]
]

abbrev pub without_stack : Envelope → Envelope
without_stack o = record o { stack = none }

-- The answers are the same up to their stacks, which are those of the exceptions or left out.
same_answer :
    (node_env url : String) (e f : Thrown)
    → is_internal_error (normalize_exception e).status_code ≡ true
    → (normalize_exception e).status_code ≡ (normalize_exception f).status_code
    → without_stack (handle_http_error node_env url e)
      ≡ without_stack (handle_http_error node_env url f)
unfolding handle_http_error
same_answer node_env url e f internal same =
    let internal' : is_internal_error (normalize_exception f).status_code ≡ true =
      rw (← same) internal in
    rw (internal_code e internal, internal_code f internal', internal, internal', same) refl

no_stack : (url : String) (e : Thrown) → (handle_http_error "production" url e).stack ≡ none
unfolding handle_http_error
no_stack url e = refl

-- Two exceptions that are internal errors of the same status get the same answer in production, and
-- it has no stack trace. In every other environment the two answers are the same up to their stack
-- traces.
pub handle_http_error-hides :
    (node_env url : String) (e f : Thrown)
    → is_internal_error (normalize_exception e).status_code ≡ true
    → (normalize_exception e).status_code ≡ (normalize_exception f).status_code
    → (handle_http_error "production" url e ≡ handle_http_error "production" url f)
      × ((handle_http_error "production" url e).stack ≡ none)
      × (without_stack (handle_http_error node_env url e)
          ≡ without_stack (handle_http_error node_env url f))
unfolding handle_http_error
handle_http_error-hides node_env url e f internal same = (
  same_answer "production" url e f internal same,
  no_stack url e,
  same_answer node_env url e f internal same,
)
