-- ===== src/Exec/Keeps.antt =====
-- What an action leaves true of the state, whether it answers or throws: a rule for each way to build
-- an action, so that a block is checked by search.
use nest_nexus.Prelude.{Bool, true, false, Option, none, some, if◌then◌else◌}
use nest_nexus.Exec.{
  Exception, Result, ok, err, Exec, pure, throw, lift, require, unless, continue, ◌>>=◌, ◌>>◌,
}

pub record Keeps {ℓ} {S A : Type 0} (P : S → Type ℓ) (m : Exec S A) : Type ℓ where
  pub after : (s : S) → P s → P (m s).1

module _ {ℓ} {S A : Type 0} {P : S → Type ℓ} where
  pub Keeps-pure : (a : A) → Keeps P (pure a)
  Keeps-pure a = record { after = λ s h. h }

  pub Keeps-throw : (e : Exception) → Keeps P (throw {A = A} e)
  Keeps-throw e = record { after = λ s h. h }

  pub Keeps-lift : (r : Result A) → Keeps P (lift r)
  Keeps-lift r = record { after = λ s h. h }

  pub Keeps-require : (found : Option A) (e : Exception) → Keeps P (require found e)
  Keeps-require none e = record { after = λ s h. h }
  Keeps-require (some a) e = record { after = λ s h. h }

  pub Keeps-if : (b : Bool) (m n : Exec S A) → Keeps P m → Keeps P n → Keeps P (if b then m else n)
  Keeps-if true m n km kn = km
  Keeps-if false m n km kn = kn

module _ {ℓ} {S : Type 0} {P : S → Type ℓ} where
  pub Keeps-unless : (b : Bool) (e : Exception) → Keeps P (unless b e)
  Keeps-unless true e = record { after = λ s h. h }
  Keeps-unless false e = record { after = λ s h. h }

module _ {ℓ} {S A B : Type 0} {P : S → Type ℓ} where
  continue-keeps :
      (r : Result A) (f : A → Exec S B) (s : S)
      → ((a : A) → Keeps P (f a))
      → P s
      → P (continue r f s).1
  continue-keeps (ok a) f s kf h = (kf a).after s h
  continue-keeps (err e) f s kf h = h

  pub Keeps-bind :
      (m : Exec S A) (f : A → Exec S B) → Keeps P m → ((a : A) → Keeps P (f a)) → Keeps P (m >>= f)
  Keeps-bind m f km kf = record {
    after = λ s h. continue-keeps (m s).0 f (m s).1 kf (km.after s h);
  }

  pub Keeps-then : (m : Exec S A) (n : Exec S B) → Keeps P m → Keeps P n → Keeps P (m >> n)
  Keeps-then m n km kn = Keeps-bind m (λ _. n) km (λ _. kn)

pub ruleset keeps_rules = (
  Keeps-pure, Keeps-throw, Keeps-lift, Keeps-require, Keeps-unless, Keeps-if, Keeps-bind,
  Keeps-then,
)
