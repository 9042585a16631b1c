-- ===== src/Action/Apt/Plain.antt =====
-- What an apt task asks for, where the fast path can do it (plugins/action/apt.py, the tables and
-- the tests of _should_fallback), spelled apart from the code.
use ansible_go.Base.{◌≡◌, String, Bool, true, false, contains, some, List, [], ◌∷◌, ◌<>◌, ◌++◌}
use ansible_go.Value.{
  Value, str, Values, nil, cons, Dict, empty, entry, get_or, iterate, bool, null, nat, is_none,
  eq_text, eq_nat,
}
use ansible_go.Env.{Env}
use ansible_go.Action.Apt.Args.{names_of, as_list}

-- Each argument of a task is one that the plugin knows.
abbrev pub AllKnown : List String → Dict → Type 0
AllKnown known empty = Unit
AllKnown known (entry name value more) = (contains known name ≡ true) × AllKnown known more

-- The value stands for the Boolean, by the rule of Ansible where it is no Boolean itself.
abbrev pub Reads : Env → Bool → Value → Type 0
Reads env b (bool c) = c ≡ b
Reads env b v = env.boolean v ≡ b

-- The arguments with an implementation, and those that the fast path takes only where they are
-- off, and where they are None.
abbrev pub taken : List String
taken =
    "name" ∷ "package" ∷ "pkg" ∷ "state" ∷ "update_cache" ∷ "update-cache" ∷ "cache_valid_time" ∷ []

abbrev pub off_names : List String
off_names =
    "allow_change_held_packages" ∷ "allow_downgrade" ∷ "allow-downgrade" ∷ "allow_downgrades"
    ∷ "allow-downgrades" ∷ "allow_unauthenticated" ∷ "allow-unauthenticated" ∷ "autoclean"
    ∷ "autoremove" ∷ "clean" ∷ "fail_on_autoremove" ∷ "force" ∷ "force_apt_get" ∷ "only_upgrade"
    ∷ "purge" ∷ []

abbrev pub none_names : List String
none_names =
    "deb" ∷ "default_release" ∷ "default-release" ∷ "install_recommends" ∷ "install-recommends"
    ∷ "policy_rc_d" ∷ []

abbrev pub other_names : List String
other_names =
    "auto_install_module_deps" ∷ "dpkg_options" ∷ "upgrade" ∷ "lock_timeout"
    ∷ "update_cache_retries" ∷ "update_cache_retry_max_delay" ∷ []

abbrev pub all_names : List String
all_names = taken ++ off_names ++ none_names ++ other_names

-- A value that is no text with a version, a pattern, an architecture or a path in it.
abbrev pub marks : List String
marks = "=" ∷ "<" ∷ ">" ∷ "*" ∷ "?" ∷ ":" ∷ "/" ∷ []

abbrev pub IsPlainName : Value → Type 0
IsPlainName v =
    (mark : String) → contains marks mark ≡ true → (a b : String) → v ≡ str (a <> mark <> b) → ⊥

abbrev pub AllPlainNames : Values → Type 0
AllPlainNames nil = Unit
AllPlainNames (cons v vs) = IsPlainName v × AllPlainNames vs

-- What the fast path takes on: arguments that it knows, and each that it does not implement has
-- no effect; a state that it implements; and names without a mark.
pub record IsPlain (env : Env) (args : Dict) : Type 0 where
  pub known : AllKnown all_names args
  pub off :
      (name : String)
      → contains off_names name ≡ true
      → Reads env false (get_or args name (bool false))
  pub absent :
      (name : String) → contains none_names name ≡ true → is_none (get_or args name null) ≡ true
  pub deps : Reads env true (get_or args "auto_install_module_deps" (bool true))
  pub options :
      eq_text
        (get_or args "dpkg_options" (str "force-confdef,force-confold"))
        "force-confdef,force-confold"
      ≡ true
  pub upgrade : eq_text (get_or args "upgrade" (str "no")) "no" ≡ true
  pub timeout : eq_nat (get_or args "lock_timeout" (nat 60)) 60 ≡ true
  pub retries : eq_nat (get_or args "update_cache_retries" (nat 5)) 5 ≡ true
  pub delay : eq_nat (get_or args "update_cache_retry_max_delay" (nat 12)) 12 ≡ true
  pub no_build : get_or args "state" (str "present") ≡ str "build-dep" → ⊥
  pub no_fix : get_or args "state" (str "present") ≡ str "fixed" → ⊥
  pub names : (vs : Values) × (iterate (as_list (names_of args)) ≡ some vs) × AllPlainNames vs
