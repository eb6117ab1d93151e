-- ===== src/Filter/Tests.antt =====
-- Two internal errors, one answer.
use nest_nexus.Prelude.{true, none, some, ◌≡◌, refl}
use nest_nexus.Exec.{other, http}
use nest_nexus.Filter.{Thrown, error, handle_http_error, is_internal_error, normalize_exception}
use nest_nexus.Filter.Hides.{without_stack, handle_http_error-hides}

abbrev leaky : Thrown
leaky = error (other "password in the message") (some "Error: password in the message")

abbrev plain : Thrown
plain = error (http 500 "boom") (some "InternalServerErrorException: boom")

handle_http_error-hides_example :
    (handle_http_error "production" "/api" leaky ≡ handle_http_error "production" "/api" plain)
    × ((handle_http_error "production" "/api" leaky).stack ≡ none)
    × (without_stack (handle_http_error "development" "/api" leaky)
        ≡ without_stack (handle_http_error "development" "/api" plain))
unfolding is_internal_error normalize_exception
handle_http_error-hides_example =
    handle_http_error-hides "development" "/api" leaky plain internal same
  where
    internal : is_internal_error (normalize_exception leaky).status_code ≡ true
    internal = refl

    same : (normalize_exception leaky).status_code ≡ (normalize_exception plain).status_code
    same = refl

-- In development the stack trace goes out with the message that it begins with.
shown_in_development :
    (handle_http_error "development" "/api" leaky).stack ≡ some "Error: password in the message"
unfolding handle_http_error is_internal_error normalize_exception
shown_in_development = refl
