-- ===== src/Run/Fails.antt =====
-- Code that raises from every state.
use ansible_go.Base.{◌≡◌, sym, ap, subst}
use ansible_go.Run.{Exn, Result, ok, err, Run, continue, attempt, ◌>>=◌}
use ansible_go.Run.Returns.{Returns}

pub record Fails {S A : Type 0} (m : Run S A) : Type 0 where
  pub at : (s : S) → (e : Exn) × ((m s).0 ≡ err e)

module _ {S A B : Type 0} where
  -- What follows a guarded step that raises is the handler of the exception.
  pub Returns-attempt-Fails :
      {Q : B → Type 0} (m : Run S A) (f : Result A → Run S B)
      → Fails m
      → ((e : Exn) → Returns Q (f (err e)))
      → Returns Q (attempt m >>= f)
  unfolding ◌>>=◌ attempt
  Returns-attempt-Fails {Q} m f k h = record {
    at = λ s.
        let (r, s') = m s in
        subst (λ x. (b : B) × ((f x s').0 ≡ ok b) × Q b) (sym (k.at s).1) ((h (k.at s).0).at s');
  }

  pub Fails-bind : (m : Run S A) (f : A → Run S B) → Fails m → Fails (m >>= f)
  unfolding ◌>>=◌
  Fails-bind m f k = record {
    at = λ s. let (r, s') = m s in ((k.at s).0, ap (λ x. (continue x f s').0) (k.at s).1);
  }
