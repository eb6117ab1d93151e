-- ===== src/Exec.antt =====
-- Service methods that read and write the application's state and may throw. What was written
-- before a throw stays written, so the state comes back beside the exception.
pub mod Keeps
use nest_nexus.Prelude.{
  ℕ, String, ◌≡◌, refl, sym, ap, ◌⊎◌, inl, inr, Bool, true, false, Option, none, some,
}

-- What a handler can throw: Nest's HttpException with its status, Prisma's known request error with
-- its code, and any other error.
pub data Exception : Type 0 where
  http : ℕ → String → Exception
  prisma_known : String → Exception
  other : String → Exception

abbrev pub bad_request : String → Exception
bad_request message = http 400 message

abbrev pub unauthorized : String → Exception
unauthorized message = http 401 message

abbrev pub forbidden : String → Exception
forbidden message = http 403 message

abbrev pub not_found : String → Exception
not_found message = http 404 message

abbrev pub conflict : String → Exception
conflict message = http 409 message

abbrev pub too_many_requests : String → Exception
too_many_requests message = http 429 message

abbrev pub internal_server_error : String → Exception
internal_server_error message = http 500 message

pub data Result (A : Type 0) : Type 0 where
  ok : A → Result A
  err : Exception → Result A

abbrev pub Exec : Type 0 → Type 0 → Type 0
Exec S A = S → Result A × S

module _ {S A : Type 0} where
  abbrev pub pure : A → Exec S A
  pure a s = (ok a, s)

  abbrev pub throw : Exception → Exec S A
  throw e s = (err e, s)

  abbrev pub lift : Result A → Exec S A
  lift r s = (r, s)

  abbrev pub gets : (S → A) → Exec S A
  gets f s = (ok (f s), s)

module _ {S A B : Type 0} where
  abbrev pub continue : Result A → (A → Exec S B) → Exec S B
  continue (ok a) f s = f a s
  continue (err e) f s = (err e, s)

  infixl 5 ◌>>=◌ ◌>>◌
  abbrev pub ◌>>=◌ : Exec S A → (A → Exec S B) → Exec S B
  ◌>>=◌ m f s = let (r, s') = m s in continue r f s'

  abbrev pub ◌>>◌ : Exec S A → Exec S B → Exec S B
  m >> n = m >>= λ _. n

-- `catch`, with a handler that may go on or throw again.
abbrev pub handle : {S A : Type 0} → Result A → (Exception → Exec S A) → Exec S A
handle (ok a) f s = (ok a, s)
handle (err e) f s = f e s

abbrev pub catch : {S A : Type 0} → Exec S A → (Exception → Exec S A) → Exec S A
catch m f s = let (r, s') = m s in handle r f s'

abbrev pub unless : {S : Type 0} → Bool → Exception → Exec S (Unit {0})
unless true e s = (ok tt, s)
unless false e s = (err e, s)

-- `if (!x) throw e`, with the value for the code below.
abbrev pub require : {S A : Type 0} → Option A → Exception → Exec S A
require none e s = (err e, s)
require (some a) e s = (ok a, s)

-- A call that threw has not returned.
pub err-ne-ok : {A : Type 0} {e : Exception} {a : A} → ¬ (err e ≡ ok a)
err-ne-ok h = cc

pub failed {ℓ} :
    {S A : Type 0} {P : Type ℓ} {e : Exception} {a : A} {s t : S}
    → ◌≡◌ {A = Result A × S} (err e, s) (ok a, t)
    → P
failed {S} {A} h = absurd (err-ne-ok (ap (λ (o : Result A × S). o.0) h))

pub ok_inj : {A : Type 0} {a b : A} → ok a ≡ ok b → a ≡ b
ok_inj h = cc

pub Result-cases :
    {A : Type 0} (r : Result A) → ((e : Exception) × (r ≡ err e)) ⊎ ((a : A) × (r ≡ ok a))
Result-cases (err e) = inl (e, refl)
Result-cases (ok a) = inr (a, refl)

module _ {S A B : Type 0} where
  continue-ok :
      (o : Result A × S) (f : A → Exec S B) {b : B} {t : S}
      → continue o.0 f o.1 ≡ (ok b, t)
      → (a : A) × (o ≡ (ok a, o.1)) × (f a o.1 ≡ (ok b, t))
  continue-ok (ok a, s) f h = (a, refl, h)
  continue-ok (err e, s) f h = failed h

  -- A block that answered: its first action did, and then the rest.
  pub bind-ok :
      (m : Exec S A) (f : A → Exec S B) (s : S) {b : B} {t : S}
      → (m >>= f) s ≡ (ok b, t)
      → (a : A) × (u : S) × (m s ≡ (ok a, u)) × (f a u ≡ (ok b, t))
  bind-ok m f s h = let (a, same, rest) = continue-ok (m s) f h in (a, (m s).1, same, rest)

-- A guard that let the block go on changed nothing and its test held.
pub unless-ok :
    {S : Type 0} (b : Bool) (e : Exception) (s : S) {t : S}
    → ◌≡◌ {A = Result (Unit {0}) × S} (unless b e s) (ok tt, t)
    → (b ≡ true) × (t ≡ s)
unless-ok {S} true e s h = (refl, sym (ap (λ (o : Result (Unit {0}) × S). o.1) h))
unless-ok false e s h = failed h

pub require-ok :
    {S A : Type 0} (found : Option A) (e : Exception) (s : S) {a : A} {t : S}
    → ◌≡◌ {A = Result A × S} (require found e s) (ok a, t)
    → (found ≡ some a) × (t ≡ s)
require-ok none e s h = failed h
require-ok {S} {A} (some b) e s h =
    (ap some (ok_inj (ap (λ (o : Result A × S). o.0) h)), sym (ap (λ (o : Result A × S). o.1) h))
