-- ===== src/Run/Ensures.antt =====
-- What holds where code returns: a postcondition on the value and the state.
use ansible_go.Base.{◌≡◌, refl, subst, ◌∙◌, Bool, true, false, if◌then◌else◌}
use ansible_go.Run.Keeps.{Keeps}
use ansible_go.Run.{Exn, Result, ok, err, Run, continue, pure, raise, gets, attempt, handle, ◌>>=◌}

pub ok-injective : {A : Type 0} (a b : A) → ok a ≡ ok b → a ≡ b
ok-injective a b e = cc

-- From a state with the property, `m` raises or returns a value and a state that are related.
pub record Ensures {S A : Type 0} (P : S → Type 0) (m : Run S A) (R : A → S → Type 0) : Type 0 where
  pub at : (s : S) → P s → (a : A) → (m s).0 ≡ ok a → R a (m s).1

module _ {S A : Type 0} {P : S → Type 0} {R : A → S → Type 0} where
  pub Ensures-raise : (e : Exn) → Ensures P (raise {A = A} e) R
  unfolding raise
  Ensures-raise e = record { at = λ s p a h. cc }

  pub Ensures-if :
      (b : Bool) (m n : Run S A)
      → (b ≡ true → Ensures P m R)
      → (b ≡ false → Ensures P n R)
      → Ensures P (if b then m else n) R
  Ensures-if true m n p q = p refl
  Ensures-if false m n p q = q refl

  pub Ensures-pure : (a : A) → ((s : S) → P s → R a s) → Ensures P (pure a) R
  unfolding pure
  Ensures-pure a h = record { at = λ s p b e. subst (λ x. R x s) (ok-injective a b e) (h s p) }

  pub Ensures-gets : (f : S → A) → ((s : S) → P s → R (f s) s) → Ensures P (gets f) R
  unfolding gets
  Ensures-gets f h = record { at = λ s p b e. subst (λ x. R x s) (ok-injective (f s) b e) (h s p) }

-- Nothing is asked of the step.
pub Ensures-nothing : {S A : Type 0} {P : S → Type 0} (m : Run S A) → Ensures P m (λ a s. Unit {0})
Ensures-nothing m = record { at = λ s p a h. tt }

-- What a step keeps holds behind it.
pub Ensures-keeps :
    {S A : Type 0} {P : S → Type 0} {m : Run S A} → Keeps P m → Ensures P m (λ a s. P s)
Ensures-keeps k = record { at = λ s p a h. k.at s p }

-- A weaker start, and a weaker end.
pub Ensures-weaken :
    {S A : Type 0} {P P' : S → Type 0} {m : Run S A} {R R' : A → S → Type 0}
    → Ensures P m R
    → ((s : S) → P' s → P s)
    → ((a : A) (s : S) → R a s → R' a s)
    → Ensures P' m R'
Ensures-weaken k f g = record { at = λ s p a h. g a _ (k.at s (f s p) a h) }

Ensures-continue :
    {S A B : Type 0} {M : A → S → Type 0} {R : B → S → Type 0} (r : Result A) (f : A → Run S B)
    (s : S)
    → ((a : A) → r ≡ ok a → M a s)
    → ((a : A) → Ensures (M a) (f a) R)
    → (b : B) → (continue r f s).0 ≡ ok b
    → R b (continue r f s).1
Ensures-continue (ok a) f s m k b h = (k a).at s (m a refl) b h
Ensures-continue (err e) f s m k b h = cc

module _ {S A B : Type 0} {P : S → Type 0} {M : A → S → Type 0} {R : B → S → Type 0} where
  -- What the first step ensures, the rest starts from.
  pub Ensures-bind :
      (m : Run S A) (f : A → Run S B)
      → Ensures P m M
      → ((a : A) → Ensures (M a) (f a) R)
      → Ensures P (m >>= f) R
  unfolding ◌>>=◌
  Ensures-bind m f k l = record {
    at = λ s p b h. Ensures-continue (m s).0 f (m s).1 (λ a e. k.at s p a e) l b h;
  }

-- What a guarded step ensures where it returns.
pub Ensures-attempt :
    {S A : Type 0} {P : S → Type 0} {R : A → S → Type 0} (m : Run S A)
    → Ensures P m R
    → Ensures P (attempt m) (λ r s. (a : A) → r ≡ ok a → R a s)
unfolding attempt
Ensures-attempt {R} m k = record { at = λ s p r h a e. k.at s p a (ok-injective (m s).0 r h ∙ e) }

pub Ensures-handle :
    {S A B : Type 0} {P : A → S → Type 0} {R : B → S → Type 0} (r : Result A)
    (failed : Exn → Run S B) (f : A → Run S B)
    → ((e : Exn) → Ensures (λ s. Unit {0}) (failed e) R)
    → ((a : A) → Ensures (P a) (f a) R)
    → Ensures (λ s. (a : A) → r ≡ ok a → P a s) (handle r failed f) R
unfolding handle
Ensures-handle (ok a) failed f k l = record { at = λ s p b h. (l a).at s (p a refl) b h }
Ensures-handle (err e) failed f k l = record { at = λ s p b h. (k e).at s tt b h }
