-- ===== src/Modules/Apt/Laws.antt =====
-- Which apt tasks the module takes, and what it runs in check mode.
use ansible_go.Base.{
  ◌≡◌, refl, ap, String, Bool, true, false, List, [], ◌∷◌, ◌++◌, All, contains, ◌⊎◌, inl, inr,
}
use ansible_go.Value.{Value, Dict, get}
use ansible_go.Run.{ok, pure}
use ansible_go.Run.Keeps.{Keeps, keeps_rules}
use ansible_go.Modules.{Call, Session, Host, run_command}
use ansible_go.Modules.Laws.{Keeps-run_command, Keeps-checked, contains-last}
use ansible_go.Modules.Preflight.{literal, refuse, IsFilled, unsupported_value_differs}
use ansible_go.Modules.Preflight.Laws.{contains-differing}
use ansible_go.Modules.Apt.{
  argument_spec, unsupported_params, operate, manage, refresh, direct, perform, admit, main,
}

-- A task that does not give `upgrade` is refused: its default in the `argument_spec` is None, and
-- the table of the preflight has "no". No command is run, and `upgrade` is named.
pub main-refuses :
    (h : Host) (check : Bool) (params : Dict) (given : List String) (log : Session)
    → IsFilled argument_spec given params
    → contains given "upgrade" ≡ false
    → (names : List String) × (main h check params log ≡ (ok (refuse "apt" names), log))
      × (contains names "upgrade" ≡ true)
unfolding main admit unsupported_params pure unsupported_value_differs
main-refuses h check params given log f absent = named (unsupported_params params) found
  where
    differs : unsupported_value_differs (literal "no") (get params "upgrade") ≡ true
    differs = ap (unsupported_value_differs (literal "no")) (f.filled "upgrade" _ absent refl)

    found : contains (unsupported_params params) "upgrade" ≡ true
    found = contains-differing _ params _ "upgrade" (literal "no") refl differs

    named :
        (names : List String)
        → contains names "upgrade" ≡ true
        → (ns : List String) × (admit h check names params log ≡ (ok (refuse "apt" ns), log))
          × (contains ns "upgrade" ≡ true)
    named [] c = cc
    named (n ∷ ns) c = (n ∷ ns, refl, c)

-- The command is the update of the cache, or it carries the flag by which apt-get does nothing.
abbrev pub IsDry : Call → Type 0
IsDry call = (call.words ≡ "apt-get" ∷ "update" ∷ []) ⊎ (contains call.words "--dry-run" ≡ true)

module _ (h : Host) where
  Dry-operate : (words : List String) → Keeps (All IsDry) (operate h true words)
  unfolding operate
  Dry-operate words =
      let dry : (environ : List (String × String))
          → Keeps (All IsDry) (run_command h (words ++ "--dry-run" ∷ []) environ) =
        λ environ. Keeps-run_command h _ environ (inr (contains-last words "--dry-run")) in
      search (keeps_rules, dry) depth 8

  Dry-manage :
      (state : Value) (purge : Bool) (names : List String)
      → Keeps (All IsDry) (manage h true state purge names)
  unfolding manage
  Dry-manage state purge [] = search keeps_rules
  Dry-manage state purge (name ∷ more) = search (keeps_rules, Dry-operate) depth 8

  Dry-refresh :
      (state : Value) (purge : Bool) (names : List String)
      → Keeps (All IsDry) (refresh h true state purge names)
  unfolding refresh
  Dry-refresh state purge [] = Keeps-checked h _ _ _ (inl refl) (search keeps_rules)
  Dry-refresh state purge (name ∷ more) =
      Keeps-checked h _ _ _ (inl refl) (Dry-manage state purge (name ∷ more))

  Dry-direct :
      (state : Value) (purge : Bool) (names : List String)
      → Keeps (All IsDry) (direct h true state purge names)
  unfolding direct
  Dry-direct state purge [] = search keeps_rules
  Dry-direct state purge (name ∷ more) = Dry-manage state purge (name ∷ more)

  Dry-perform : (params : Dict) → Keeps (All IsDry) (perform h true params)
  unfolding perform
  Dry-perform params = search (keeps_rules, Dry-refresh, Dry-direct)

  Dry-admit : (names : List String) (params : Dict) → Keeps (All IsDry) (admit h true names params)
  unfolding admit
  Dry-admit [] params = Dry-perform params
  Dry-admit (name ∷ more) params = search keeps_rules

  -- In check mode the apt module runs no command but the update of the cache and commands with
  -- `--dry-run`.
  pub apt-IsDry : (params : Dict) → Keeps (All IsDry) (main h true params)
  unfolding main
  apt-IsDry params = Dry-admit (unsupported_params params) params
