-- ===== src/Action/Apt/Args.antt =====
-- Which apt tasks the fast path takes (plugins/action/apt.py, _should_fallback).
use ansible_go.Base.{
  ℕ, String, Bool, true, false, not, any, contains, lookup, has_text, Option, none, some, List, [],
  ◌∷◌, if◌then◌else◌,
}
use ansible_go.Value.{
  Value, bool, str, list, dict, Values, nil, cons, Dict, empty, entry, get_or, get, has, or_value,
  is_none, eq_text, eq_nat, is_one_of, iterate, member,
}
use ansible_go.Run.{bad_value, Result, ok, err}
use ansible_go.Env.{Env}

-- The default of an argument that the fast path does not implement.
pub data Default : Type 0 where
  nothing : Default
  flag : Bool → Default
  number : ℕ → Default
  text : String → Default

unfoldable pub supported : List String
supported =
    "name" ∷ "package" ∷ "pkg" ∷ "state" ∷ "update_cache" ∷ "update-cache" ∷ "cache_valid_time" ∷ []

unfoldable pub unsupported : List String
unsupported =
    "allow_change_held_packages" ∷ "allow_downgrade" ∷ "allow-downgrade" ∷ "allow_downgrades"
    ∷ "allow-downgrades" ∷ "allow_unauthenticated" ∷ "allow-unauthenticated"
    ∷ "auto_install_module_deps" ∷ "autoclean" ∷ "autoremove" ∷ "clean" ∷ "deb" ∷ "default_release"
    ∷ "default-release" ∷ "dpkg_options" ∷ "fail_on_autoremove" ∷ "force" ∷ "force_apt_get"
    ∷ "install_recommends" ∷ "install-recommends" ∷ "lock_timeout" ∷ "only_upgrade" ∷ "policy_rc_d"
    ∷ "purge" ∷ "update_cache_retries" ∷ "update_cache_retry_max_delay" ∷ "upgrade" ∷ []

unfoldable pub defaults : List (String × Default)
defaults =
    ("allow_change_held_packages", flag false)
    ∷ ("allow_downgrade", flag false)
    ∷ ("allow-downgrade", flag false)
    ∷ ("allow_downgrades", flag false)
    ∷ ("allow-downgrades", flag false)
    ∷ ("allow_unauthenticated", flag false)
    ∷ ("allow-unauthenticated", flag false)
    ∷ ("auto_install_module_deps", flag true)
    ∷ ("autoclean", flag false)
    ∷ ("autoremove", flag false)
    ∷ ("clean", flag false)
    ∷ ("deb", nothing)
    ∷ ("default_release", nothing)
    ∷ ("default-release", nothing)
    ∷ ("dpkg_options", text "force-confdef,force-confold")
    ∷ ("fail_on_autoremove", flag false)
    ∷ ("force", flag false)
    ∷ ("force_apt_get", flag false)
    ∷ ("install_recommends", nothing)
    ∷ ("install-recommends", nothing)
    ∷ ("lock_timeout", number 60)
    ∷ ("only_upgrade", flag false)
    ∷ ("policy_rc_d", nothing)
    ∷ ("purge", flag false)
    ∷ ("update_cache_retries", number 5)
    ∷ ("update_cache_retry_max_delay", number 12)
    ∷ ("upgrade", text "no")
    ∷ []

unfoldable pub tokens : List String
tokens = "=" ∷ "<" ∷ ">" ∷ "*" ∷ "?" ∷ ":" ∷ "/" ∷ []

-- `any(token in name for token in (…))`; a name that has no `in` raises.
unfoldable pub has_token : Value → Result Bool
has_token (str s) = ok (any (λ t. has_text t s) tokens)
has_token (list vs) = ok (any (λ t. member t vs) tokens)
has_token (dict d) = ok (any (λ t. has d t) tokens)
has_token v = err (bad_value "argument is not iterable")

-- `if test: return True`, and the rest of the function; the test may raise.
abbrev pub or_then : Result Bool → Result Bool → Result Bool
or_then (ok true) rest = ok true
or_then (ok false) rest = rest
or_then (err e) rest = err e

-- `for name in names: if any(…): return True`
unfoldable pub names_have_token : Values → Result Bool
names_have_token nil = ok false
names_have_token (cons v vs) = or_then (has_token v) (names_have_token vs)

-- `args.get("name") or args.get("package") or args.get("pkg") or []`
abbrev pub names_of : Dict → Value
names_of args =
    or_value (or_value (or_value (get args "name") (get args "package")) (get args "pkg"))
      (list nil)

-- `if isinstance(names, str): names = [names]`
abbrev pub as_list : Value → Value
as_list (str s) = list (cons (str s) nil)
as_list v = v

unfoldable pub check_names : Option Values → Result Bool
check_names none = err (bad_value "object is not iterable")
check_names (some vs) = names_have_token vs

module _ (env : Env) where
  unfoldable pub truthy_arg : Value → Bool
  truthy_arg (bool b) = b
  truthy_arg v = env.boolean v

  unfoldable pub differs : Default → Value → Bool
  unfolding truthy_arg
  differs nothing v = not (is_none v)
  differs (flag true) v = not (truthy_arg v)
  differs (flag false) v = truthy_arg v
  differs (number n) v = not (eq_nat v n)
  differs (text s) v = not (eq_text v s)

  unfoldable pub differs_from : Option Default → Value → Result Bool
  unfolding differs
  differs_from none value = err (bad_value "KeyError")
  differs_from (some default) value = ok (differs default value)

  -- The lookup of the default raises KeyError where the table lacks the name.
  unfoldable pub arg_differs_from_default : String → Value → Result Bool
  unfolding differs_from
  arg_differs_from_default name value = differs_from (lookup name defaults) value

  -- The first loop of `_should_fallback`.
  unfoldable pub args_differ : Dict → Result Bool
  args_differ empty = ok false
  args_differ (entry name value more) =
      let rest = args_differ more in
      let known = or_then (arg_differs_from_default name value) rest in
      if contains supported name then rest else if contains unsupported name then known else ok true

  unfoldable pub should_fallback : Dict → Result Bool
  unfolding check_names
  should_fallback args =
      let state = get_or args "state" (str "present") in
      let checked =
        if is_one_of state ("build-dep" ∷ "fixed" ∷ [])
        then ok true
        else check_names (iterate (as_list (names_of args))) in
      or_then (args_differ args) checked
