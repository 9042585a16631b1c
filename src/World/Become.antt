-- ===== src/World/Become.antt =====
-- Tasks whose commands run as one user, from the start of the task to its end.
use ansible_go.Base.{◌≡◌, ◌∙◌, subst, sym, String, Bool, ℕ, Option, none, some}
use ansible_go.Run.{Run, gets, ◌>>=◌}
use ansible_go.Run.Keeps.{Keeps, Keeps-both, Keeps-bind-gets}
use ansible_go.Env.{Step, Request, Event, rpc, run_module, setup, Env}
use ansible_go.Client.{Channel}
use ansible_go.World.{
  PlayContext, World, Link, use_client, on_client, get_become_user, execute_module,
}
use ansible_go.World.Laws.{Only, OnlyOn, IsLawful, Only-on_client}

-- Every event so far has the property, and the task runs as the user.
abbrev pub OnlyAs : (Event → Type 0) → PlayContext → Option String → World → Type 0
OnlyAs P play user w = Only P w × (get_become_user play w ≡ user)

module _ (play : PlayContext) (user : Option String) where
  User-use_client :
      {A : Type 0} (m : Run Channel A) (c : Option ℕ)
      → Keeps (λ w. get_become_user play w ≡ user) (use_client m c)
  unfolding use_client get_become_user
  User-use_client m none = record { at = λ w h. h }
  User-use_client m (some n) = record { at = λ w h. h }

  User-on_client :
      {A : Type 0} (m : Run Channel A) → Keeps (λ w. get_become_user play w ≡ user) (on_client m)
  unfolding on_client
  User-on_client m = record { at = λ w h. (User-use_client m w.client).at w h }

module _ (P : Event → Type 0) (play : PlayContext) (user : Option String) where
  -- What the rest does with the user that it reads.
  pub OnlyAs-bind :
      {B : Type 0} (k : Option String → Run World B)
      → Keeps (OnlyAs P play user) (k user)
      → Keeps (OnlyAs P play user) (gets (get_become_user play) >>= k)
  OnlyAs-bind k h =
      Keeps-bind-gets _ k (λ w p. subst (λ u. OnlyAs P play user (k u w).1) (sym p.1) (h.at w p))

  pub OnlyAs-on_client :
      {A : Type 0} (m : Run Channel A)
      → Keeps (OnlyOn P) m
      → Keeps (OnlyAs P play user) (on_client m)
  OnlyAs-on_client m k = Keeps-both (Only-on_client m k) (User-on_client play user m)

  pub OnlyAs-execute_module :
      (env : Env) (name : String) (wrap : Bool)
      → P (run_module name wrap)
      → Keeps (OnlyAs P play user) (execute_module env name wrap)
  unfolding execute_module get_become_user
  OnlyAs-execute_module env name wrap p = record { at = λ w h. ((p, h.0), h.1) }

  pub OnlyAs-connect :
      (link : Link)
      → IsLawful link
      → ((s : Step) → P (setup s))
      → ((r : Request) → r.method ≡ "Hello" → P (rpc r))
      → Keeps (OnlyAs P play user) link.connect
  OnlyAs-connect link L ps pr = record {
    at = λ w h. ((L.events P ps pr).at w h.0, L.become_user play w ∙ h.1);
  }
