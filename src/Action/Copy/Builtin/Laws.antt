-- ===== src/Action/Copy/Builtin/Laws.antt =====
-- Where the builtin copy action comes from.
use ansible_go.Base.{
  ◌≡◌, refl, String, Bool, true, false, Option, none, some, some-injective, List, [], ◌∷◌,
  path_join, contains, contains-here, contains-there, if◌then◌else◌, sym, subst,
}
use ansible_go.Run.{Result, ok, err}
use ansible_go.Run.Keeps.{Keeps}
use ansible_go.Action.Copy.Builtin.{Package, first_copy, class_of, load_class, builtin_class}

-- The file copy.py of one of the directories, and it is there.
abbrev pub IsCopyOf : (String → Bool) → List String → String → Type 0
IsCopyOf is_file paths file =
    (base : String) × (contains paths base ≡ true)
    × (file ≡ path_join base "copy.py")
    × (is_file file ≡ true)

further :
    (is_file : String → Bool) (base : String) (more : List String) (file : String)
    → IsCopyOf is_file more file
    → IsCopyOf is_file (base ∷ more) file
further is_file base more file c = (c.0, contains-there base c.0 more c.1, c.2, c.3)

-- What the test of the first directory and the others give.
chosen :
    (is_file : String → Bool) (base : String) (more : List String) (b : Bool) (rest : Option String)
    (file : String)
    → is_file (path_join base "copy.py") ≡ b
    → (if b then some (path_join base "copy.py") else rest) ≡ some file
    → (rest ≡ some file → IsCopyOf is_file more file)
    → IsCopyOf is_file (base ∷ more) file
chosen is_file base more true rest file e h f =
    let same : path_join base "copy.py" ≡ file = some-injective _ _ h in
    (base, contains-here base more, sym same, subst (λ x. is_file x ≡ true) same e)
chosen is_file base more false rest file e h f = further is_file base more file (f h)

first_copy-IsCopyOf :
    (is_file : String → Bool) (paths : List String) (file : String)
    → first_copy is_file paths ≡ some file
    → IsCopyOf is_file paths file
unfolding first_copy
first_copy-IsCopyOf is_file [] file h = cc
first_copy-IsCopyOf is_file (base ∷ more) file h =
    chosen is_file base more _ (first_copy is_file more) file refl h
      (first_copy-IsCopyOf is_file more file)

class_of-found :
    (pkg : Package) (found : Option String) (file : String)
    → class_of pkg found ≡ ok file
    → found ≡ some file
unfolding class_of
class_of-found pkg none file h = cc
class_of-found pkg (some candidate) file h = executed (pkg.executes candidate) h
  where
    executed :
        (r : Result (Unit {0}))
        → elim r [ ok u ↦ ok candidate | err e ↦ err e ] ≡ ok file
        → some candidate ≡ some file
    executed (ok u) h = cc
    executed (err e) h = cc

-- A class that is kept comes from the file copy.py of one of the directories of the package.
abbrev pub IsKept : Package → Option String → Type 0
IsKept pkg none = Unit
IsKept pkg (some file) = IsCopyOf pkg.is_file pkg.paths file

load_class-IsCopyOf :
    (pkg : Package) (file : String) → load_class pkg ≡ ok file → IsCopyOf pkg.is_file pkg.paths file
unfolding load_class
load_class-IsCopyOf pkg file h =
    first_copy-IsCopyOf pkg.is_file pkg.paths file (class_of-found pkg _ file h)

-- The class of the builtin copy action that is kept comes from a file copy.py of the package
-- ansible.plugins.action, in one of its directories: a fall-back that loads it, one that finds it
-- kept and one that fails to load it keep this.
pub builtin_class-IsKept : (pkg : Package) → Keeps (IsKept pkg) (builtin_class pkg)
unfolding builtin_class
builtin_class-IsKept pkg = record { at = kept }
  where
    loaded :
        (r : Result String)
        → load_class pkg ≡ r
        → IsKept pkg (
            let p : Result String × Option String = elim r [
              | ok l ↦ (ok l, some l)
              | err e ↦ (err e, none)
            ] in
            p.1)
    loaded (ok l) e = load_class-IsCopyOf pkg l e
    loaded (err x) e = tt

    kept : (s : Option String) → IsKept pkg s → IsKept pkg (builtin_class pkg s).1
    kept (some file) h = h
    kept none h = loaded (load_class pkg) refl
