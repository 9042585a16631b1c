-- ===== src/Modules/Dnf/Laws.antt =====
-- Which dnf tasks the module takes, and what it runs in check mode.
use ansible_go.Base.{◌≡◌, refl, String, Bool, true, false, List, [], ◌∷◌, ◌++◌, All, contains}
use ansible_go.Value.{Value, Dict}
use ansible_go.Run.Keeps.{Keeps, keeps_rules}
use ansible_go.Modules.{Call, Host, run_command, names_of}
use ansible_go.Modules.Laws.{Keeps-run_command, contains-last}
use ansible_go.Modules.Preflight.{any_token, IsFilled}
use ansible_go.Modules.Preflight.Laws.{Agrees, differing-filled}
use ansible_go.Modules.Apt.{normalized}
use ansible_go.Modules.Dnf.{
  unsupported_defaults, argument_spec, tokens, unsupported_params, state_of, operate, manage,
  perform, admit, main,
}

abbrev only : List String
only = "name" ∷ "state" ∷ []

-- The two tables agree: every row of the preflight has the default of the `argument_spec`.
tables_agree : All (Agrees argument_spec only) unsupported_defaults
tables_agree = search

-- A task that gives nothing but `name` and `state`, with plain names, passes the preflight: its
-- defaults are those of the `argument_spec`, and the module goes on with the state and the names.
pub main-accepts :
    (h : Host) (check : Bool) (params : Dict)
    → IsFilled argument_spec ("name" ∷ "state" ∷ []) params
    → any_token tokens (names_of params) ≡ false
    → main h check params ≡ perform h check (normalized (state_of params)) (names_of params)
unfolding main admit unsupported_params
main-accepts h check params f plain =
    rw plain
      (rw (differing-filled argument_spec only params [] f unsupported_defaults tables_agree) refl)

-- The command carries the flag by which dnf answers every question with no.
abbrev pub IsDry : Call → Type 0
IsDry call = contains call.words "--assumeno" ≡ true

module _ (h : Host) where
  Dry-operate :
      (manager : String) (words : List String) → Keeps (All IsDry) (operate h true manager words)
  unfolding operate
  Dry-operate manager words =
      let dry : (environ : List (String × String))
          → Keeps (All IsDry) (run_command h (words ++ "--assumeno" ∷ []) environ) =
        λ environ. Keeps-run_command h _ environ (contains-last words "--assumeno") in
      search (keeps_rules, dry) depth 8

  Dry-manage :
      (manager : String) (state : Value) (names : List String)
      → Keeps (All IsDry) (manage h true manager state names)
  unfolding manage
  Dry-manage manager state names = search (keeps_rules, Dry-operate) depth 8

  Dry-perform :
      (state : Value) (names : List String) → Keeps (All IsDry) (perform h true state names)
  unfolding perform
  Dry-perform state [] = search keeps_rules
  Dry-perform state (name ∷ more) = Dry-manage _ state (name ∷ more)

  Dry-admit : (names : List String) (params : Dict) → Keeps (All IsDry) (admit h true names params)
  unfolding admit
  Dry-admit [] params = Dry-perform (normalized (state_of params)) (names_of params)
  Dry-admit (name ∷ more) params = search keeps_rules

  -- In check mode every command of the dnf module carries `--assumeno`.
  pub dnf-IsDry : (params : Dict) → Keeps (All IsDry) (main h true params)
  unfolding main
  dnf-IsDry params = Dry-admit (unsupported_params params) params
