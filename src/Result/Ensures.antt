-- ===== src/Result/Ensures.antt =====
-- What a result has if it is a success, by a rule for each part of a `do` block.
use mathlib.Core.Path.{subst}
use block_ex.Prelude.{◌≡◌, refl, ◌∙◌, Option, none, some}
use block_ex.Result.{Result, Error, ok, err, running, ok_or, ◌>>=◌}

-- Whatever a result is, if it is a success, it has the property.
pub record Ensures {A : Type 0} (P : A → Type 0) (r : Result A) : Type 0 where
  pub of : (a : A) → r ≡ ok a → P a

pub of_ok : {A : Type 0} (P : A → Type 0) (r : Result A) (a : A) → ok a ≡ r → P a → Ensures P r
of_ok P (ok b) a e p = record { of = λ c q. subst P (cc (e ∙ q)) p }
of_ok P (err x) a e p = absurd (cc e)
of_ok P running a e p = absurd (cc e)

pub Ensures-bind :
    {A B : Type 0} (P : B → Type 0) (m : Result A) (f : A → Result B)
    → ((a : A) → m ≡ ok a → Ensures P (f a))
    → Ensures P (m >>= f)
Ensures-bind P (ok a) f k = k a refl
Ensures-bind P (err e) f k = record { of = λ b q. absurd (cc q) }
Ensures-bind P running f k = record { of = λ b q. absurd (cc q) }

pub some_of : {A : Type 0} (e : Error) (o : Option A) (a : A) → ok_or e o ≡ ok a → o ≡ some a
some_of e none a h = absurd (cc h)
some_of e (some b) a h = cc h
