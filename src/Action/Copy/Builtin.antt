-- ===== src/Action/Copy/Builtin.antt =====
-- The builtin copy action that a copy falls back to (_load_builtin_copy_action_class and the class
-- that _run_builtin_copy keeps).
use ansible_go.Base.{
  String, ◌<>◌, Bool, Option, none, some, List, [], ◌∷◌, path_join, if◌then◌else◌,
}
use ansible_go.Run.{Result, ok, err, ansible_error, Run}
pub mod Laws

-- The package ansible.plugins.action as Python has it: its `__path__`, the files that are there, and
-- whether the module at a path can be executed. A class is named by the file that it comes from.
pub record Package : Type 0 where
  pub paths : List String
  pub is_file : String → Bool
  pub executes : String → Result (Unit {0})
  -- `list(__path__)`, rendered
  pub shown : String

-- The first file of that name under the paths.
unfoldable pub first_copy : (String → Bool) → List String → Option String
first_copy is_file [] = none
first_copy is_file (base ∷ more) =
    let rest = first_copy is_file more in
    let candidate = path_join base "copy.py" in if is_file candidate then some candidate else rest

module _ (pkg : Package) where
  class_of : Option String → Result String
  class_of none = err (
      ansible_error (
        "fastagent: could not locate ansible-core's builtin copy "
        <> ("action plugin under " <> pkg.shown)))
  class_of (some candidate) = elim (pkg.executes candidate) [ ok u ↦ ok candidate | err e ↦ err e ]

  -- `_load_builtin_copy_action_class`
  unfoldable pub load_class : Result String
  unfolding class_of
  load_class = class_of (first_copy pkg.is_file pkg.paths)

  -- The class is loaded once, and kept in `_BUILTIN_COPY_ACTION_CLASS`.
  unfoldable pub builtin_class : Run (Option String) String
  builtin_class (some kept) = (ok kept, some kept)
  builtin_class none = elim load_class [
    | ok loaded ↦ (ok loaded, some loaded)
    | err e ↦ (err e, none)
  ]
