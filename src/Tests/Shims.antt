-- ===== src/Tests/Shims.antt =====
-- The modules that stand in for the builtin ones, at a concrete host and concrete parameters.
use ansible_go.Base.{
  ◌≡◌, refl, ap, arith, some-injective, String, ◌<>◌, Bool, true, false, ◌==◌, Option, some, List,
  [], ◌∷◌, All, contains, if◌then◌else◌,
}
use ansible_go.Value.{Value, bool, str, list, texts, Dict, empty, entry, get, get_or, iterate}
use ansible_go.Run.{ok}
use ansible_go.Run.Keeps.{Keeps}
use ansible_go.Run.Ensures.{Ensures}
use ansible_go.Modules.{Host, names_of}
use ansible_go.Modules.Preflight.{Default, value_of, Argument, default_in, refuse, IsFilled}
use ansible_go.Modules.Apt
use ansible_go.Modules.Apt.Laws.{main-refuses, apt-IsDry}
use ansible_go.Modules.Apt.Changes.{says_changed_misses}
use ansible_go.Modules.Dnf
use ansible_go.Modules.Dnf.Laws.{main-accepts, dnf-IsDry}
use ansible_go.Modules.Systemd
use ansible_go.Modules.Systemd.Laws.{IsQuestion, main-Asks}
use ansible_go.Modules.Systemd.Says.{IsQuiet, Honest, Says}
use ansible_go.Modules.Systemd.Honest.{main-IsHonest}
use ansible_go.Modules.Systemd.Dry.{main-Says}
use ansible_go.Env.{Completed}

-- Every command ends with 0 and prints "active".
abbrev host : Host
host = record {
  command = λ log. ok (record { returncode = 0; stdout = "active"; stderr = "" });
  is_file = λ path. path == "/usr/bin/yum";
  strip = λ s. s;
  show = λ v. "?";
}

-- The parameters of a task that gives none.
defaults_of : List Argument → Dict
defaults_of [] = empty
defaults_of (a ∷ more) = entry a.name (value_of a.default) (defaults_of more)

either :
    {A : Type 0} (b : Bool) (x y w : A)
    → (b ≡ true → x ≡ w)
    → (b ≡ false → y ≡ w)
    → (if b then x else y) ≡ w
either true x y w f g = f refl
either false x y w f g = g refl

-- What the first row or the others give, by the test of the name.
row :
    (b : Bool) (e d : Default) (rest : Option Default) (v : Value)
    → (if b then some e else rest) ≡ some d
    → (rest ≡ some d → v ≡ value_of d)
    → (if b then value_of e else v) ≡ value_of d
row true e d rest v h f = ap value_of (some-injective _ _ h)
row false e d rest v h f = f h

get-defaults_of :
    (spec : List Argument) (name : String) (d : Default)
    → default_in spec name ≡ some d
    → get (defaults_of spec) name ≡ value_of d
unfolding defaults_of get_or
get-defaults_of [] name d h = cc
get-defaults_of (a ∷ more) name d h =
    row (a.name == name) a.default d (default_in more name) _ h (get-defaults_of more name d)

defaults_of-IsFilled : (spec : List Argument) → IsFilled spec [] (defaults_of spec)
defaults_of-IsFilled spec = record { filled = λ name d absent h. get-defaults_of spec name d h }

-- A parameter that is given stands in front of the others.
give-IsFilled :
    (spec : List Argument) (given : List String) (params : Dict) (k : String) (v : Value)
    → IsFilled spec given params
    → IsFilled spec (k ∷ given) (entry k v params)
unfolding get_or
give-IsFilled spec given params k v f = record {
  filled = λ name d absent h.
      either (k == name) v _ _ (λ e. ground arith) (λ e. f.filled name d (ground arith) h);
}

-- A task that updates the cache and installs a package, without `upgrade`.
abbrev apt_params : Dict
apt_params =
    entry "name" (list (texts ("vim" ∷ [])))
      (entry "update_cache" (bool true) (defaults_of Apt.argument_spec))

apt_params-IsFilled : IsFilled Apt.argument_spec ("name" ∷ "update_cache" ∷ []) apt_params
apt_params-IsFilled =
    give-IsFilled _ _ _ _ _ (give-IsFilled _ _ _ _ _ (defaults_of-IsFilled Apt.argument_spec))

main-refuses_example :
    (names : List String) × (Apt.main host false apt_params [] ≡ (ok (refuse "apt" names), []))
    × (contains names "upgrade" ≡ true)
main-refuses_example =
    main-refuses host false apt_params ("name" ∷ "update_cache" ∷ []) [] apt_params-IsFilled refl

apt-IsDry_example : Keeps (All Apt.Laws.IsDry) (Apt.main host true apt_params)
apt-IsDry_example = apt-IsDry host apt_params

says_changed_misses_example :
    Apt.says_changed false
      ("" <> ("0 upgraded" <> (", 1" <> ("0 newly installed" <> (", " <> ("0 to remove" <> "."))))))
    ≡ false
says_changed_misses_example = says_changed_misses "" ", 1" ", " "."

abbrev dnf_params : Dict
dnf_params =
    entry "name" (list (texts ("vim" ∷ [])))
      (entry "state" (str "latest") (defaults_of Dnf.argument_spec))

dnf_params-IsFilled : IsFilled Dnf.argument_spec ("name" ∷ "state" ∷ []) dnf_params
dnf_params-IsFilled =
    give-IsFilled _ _ _ _ _ (give-IsFilled _ _ _ _ _ (defaults_of-IsFilled Dnf.argument_spec))

main-accepts_example :
    Dnf.main host false dnf_params
    ≡ Dnf.perform host false (Apt.normalized (Dnf.state_of dnf_params)) (names_of dnf_params)
unfolding iterate get_or
main-accepts_example = main-accepts host false dnf_params dnf_params-IsFilled refl

dnf-IsDry_example : Keeps (All Dnf.Laws.IsDry) (Dnf.main host true dnf_params)
dnf-IsDry_example = dnf-IsDry host dnf_params

-- A unit that is to be started, and nothing else.
abbrev unit_params : Dict
unit_params = entry "name" (str "nginx") (entry "state" (str "started") empty)

main-Asks_example : Keeps (All (IsQuestion unit_params)) (Systemd.main host true unit_params)
main-Asks_example = main-Asks host unit_params

main-IsHonest_example :
    Ensures (All (IsQuiet unit_params)) (Systemd.main host false unit_params) (Honest unit_params)
main-IsHonest_example = main-IsHonest host unit_params false

main-Says_example : Ensures (λ s. Unit {0}) (Systemd.main host true unit_params) (Says false)
unfolding get_or
main-Says_example = main-Says host unit_params refl refl

-- A host where the unit is stopped and disabled, so that the questions fail.
abbrev answer : List String → Completed
answer words =
    if contains words "is-active"
    then record { returncode = 3; stdout = "inactive"; stderr = "" }
    else if contains words "is-enabled"
    then record { returncode = 1; stdout = "disabled"; stderr = "" }
    else record { returncode = 0; stdout = ""; stderr = "" }

abbrev stopped_host : Host
stopped_host = record host {
  command = λ log. elim log [ [] ↦ ok (answer []) | call ∷ more ↦ ok (answer call.words) ];
}
