-- ===== src/Guards/OauthCsrf.antt =====
-- src/common/guards/oauth-csrf.guard.ts: the state that comes back against the one of the cookie.
use Prim.Native.Char.{code, len_utf8}
use nest_nexus.Prelude.{
  ℕ, ◌+◌, String, ◌≡◌, ◌↔◌, refl, ap, ◌∙◌, inl, inr, Bool, true, false, ◌&&◌, Option, none, some,
  ◌==◌, nat_eq, string_eq, eq_iff, eq_refl, if◌then◌else◌, truthy, or_else, ltb, Bool-cases,
  and-true,
}
use nest_nexus.Exec.{unauthorized, other, Result, ok, err, err-ne-ok}

-- `length` of a JavaScript string, in units of sixteen bits, and the length of its UTF-8 buffer.
abbrev pub units : String → ℕ
units String.[] = 0
units (String.◌∷◌ c s) = (if ltb (code c) 65536 then 1 else 2) + units s

abbrev pub bytes : String → ℕ
bytes String.[] = 0
bytes (String.◌∷◌ c s) = len_utf8 c + bytes s

-- `timingSafeEqual`, which throws for buffers of different lengths.
abbrev pub timing_safe_equal : String → String → Result Bool
timing_safe_equal a b =
    if bytes a == bytes b
    then ok (a == b)
    else err (other "Input buffers must have the same byte length")

abbrev pub accept_equal : Result Bool → Result Bool → Result Bool
accept_equal (ok true) activated = activated
accept_equal (ok false) activated = err (unauthorized "OAuth CSRF check failed")
accept_equal (err e) activated = err e

-- `canActivate`. The last argument is what `super.canActivate(context)`, which is passport, gives: it
-- counts only past the checks of the state.
unfoldable pub oauth_callback_guard : Option String → Option String → Result Bool → Result Bool
oauth_callback_guard cookie_state query_state activated =
    if truthy cookie_state
      && truthy query_state
      && (units (or_else cookie_state "") == units (or_else query_state ""))
    then accept_equal (timing_safe_equal (or_else cookie_state "") (or_else query_state ""))
        activated
    else err (unauthorized "OAuth CSRF check failed")

same_texts :
    (a b : String) (activated : Result Bool)
    → accept_equal (timing_safe_equal a b) activated ≡ ok true
    → (a ≡ b) × (activated ≡ ok true)
same_texts a b activated h = elim (Bool-cases (bytes a == bytes b)) [
  | inr differ ↦ absurd (err-ne-ok (rw differ at h))
  | inl as_long ↦ elim (Bool-cases (a == b)) [
    | inl same ↦ ((eq_iff a b).0 same, rw (as_long, same) at h)
    | inr differ ↦ absurd (err-ne-ok (rw (as_long, differ) at h))
  ]
]

passes :
    (cookie_state query_state : Option String) (activated : Result Bool)
    → oauth_callback_guard cookie_state query_state activated ≡ ok true
    → (truthy cookie_state ≡ true) × (cookie_state ≡ query_state) × (activated ≡ ok true)
unfolding oauth_callback_guard
passes none query_state activated h = absurd (err-ne-ok h)
passes (some a) none activated h = elim (Bool-cases (truthy (some a))) [
  | inl given ↦ absurd (err-ne-ok (rw given at h))
  | inr empty ↦ absurd (err-ne-ok (rw empty at h))
]
passes (some a) (some b) activated h =
    elim (Bool-cases (truthy (some a) && truthy (some b) && (units a == units b))) [
      | inr refused ↦ absurd (err-ne-ok (rw refused at h))
      | inl open_ ↦
          let (both, as_long) =
            and-true (truthy (some a) && truthy (some b)) (units a == units b) open_ in
          let (same, let_in) = same_texts a b activated (rw open_ at h) in
          ((and-true (truthy (some a)) (truthy (some b)) both).0, ap (λ x. some x) same, let_in)
    ]

matches :
    (state : String) (activated : Result Bool)
    → truthy (some state) ≡ true
    → oauth_callback_guard (some state) (some state) activated ≡ activated
unfolding oauth_callback_guard
matches state activated given =
    let units_same : (units state == units state) ≡ true =
      (nat_eq.beq_iff (units state) (units state)).1 refl in
    let bytes_same : (bytes state == bytes state) ≡ true =
      (nat_eq.beq_iff (bytes state) (bytes state)).1 refl in
    rw (given, units_same, bytes_same, eq_refl state) refl

-- The guard of the callback lets a request pass exactly when the cookie and the query hold the same
-- state, it is not empty, and passport, which it then calls, lets the request pass.
pub oauth_callback_guard-ok_iff :
    (cookie_state query_state : Option String) (activated : Result Bool)
    → (oauth_callback_guard cookie_state query_state activated ≡ ok true)
      ↔ ((truthy cookie_state ≡ true) × (cookie_state ≡ query_state) × (activated ≡ ok true))
oauth_callback_guard-ok_iff cookie_state query_state activated = (
  passes cookie_state query_state activated,
  λ (full, same, let_in). rw (← same) (given cookie_state full ∙ let_in),
)
  where
    given :
        (cookie_state : Option String)
        → truthy cookie_state ≡ true
        → oauth_callback_guard cookie_state cookie_state activated ≡ activated
    given none h = absurd cc
    given (some state) h = matches state activated h
