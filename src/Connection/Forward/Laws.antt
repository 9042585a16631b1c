-- ===== src/Connection/Forward/Laws.antt =====
-- The wait for the forwarding socket.
use ansible_go.Base.{
  ℕ, zero, suc, ◌<◌, ◌≡◌, refl, sym, String, Bool, true, false, false≢true, ◌∙◌, List, ◌∷◌, arith,
  if◌then◌else◌,
}
use ansible_go.Run.{Run, ok, pure, ◌>>=◌, ◌>>◌}
use ansible_go.Env.{Event, setup, exists, sleep, Env}
use ansible_go.World.{World}
use ansible_go.Connection.{Tools, step, act, path_there}
use ansible_go.Connection.Forward.{wait_for}

-- The events so far, after k looks that failed, each with its pause.
abbrev pub waited : String → ℕ → List Event → List Event
waited path zero log = log
waited path (suc k) log = waited path k (setup sleep ∷ setup (exists path) ∷ log)

module _ (env : Env) (tools : Tools) where
  -- One look and what follows.
  looked :
      (b : Bool) (rest : Run World (Unit {0})) (w : World)
      → (b ≡ false → (rest w).0 ≡ ok tt)
      → ((if b then pure tt else rest) w).0 ≡ ok tt
  unfolding pure
  looked true rest w k = refl
  looked false rest w k = k refl

  -- If the socket is there at the look behind k that failed, and n looks are more than k, then the
  -- wait of n looks ends without an error, whatever the looks before have seen.
  pub wait_for-Appears :
      (n k : ℕ) (path : String) (w : World)
      → k < n
      → env.path_exists (setup (exists path) ∷ waited path k w.log) ≡ true
      → (wait_for env tools n path w).0 ≡ ok tt
  unfolding wait_for path_there step act ◌>>=◌ pure
  wait_for-Appears zero k path w l h = absurd (omega arith)
  wait_for-Appears (suc n) zero path w l h =
      let b = env.path_exists (setup (exists path) ∷ w.log) in
      looked b (act sleep >> wait_for env tools n path)
        (record w { log = setup (exists path) ∷ w.log }) (λ e. absurd (false≢true (sym e ∙ h)))
  wait_for-Appears (suc n) (suc k) path w l h =
      let b = env.path_exists (setup (exists path) ∷ w.log) in
      looked b (act sleep >> wait_for env tools n path)
        (record w { log = setup (exists path) ∷ w.log })
        (λ e.
          wait_for-Appears n k path (record w { log = setup sleep ∷ setup (exists path) ∷ w.log })
            (omega arith) h)
