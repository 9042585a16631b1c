-- ===== src/Action/Apt/Names.antt =====
-- Which apt tasks the fast path can take: none that asks for what it does not implement
-- (plugins/action/apt.py, _should_fallback).
use ansible_go.Base.{
  ◌≡◌, refl, sym, subst, ◌∙◌, false≢true, inl, inr, String, Bool, true, false, arith, eq_iff,
  contains, lookup, is_some, any, has_text, has_text-behind, has_text-append, Option, none, some,
  List, [], ◌∷◌, if◌then◌else◌, Option-cases, ap, ◌<>◌,
}
use ansible_go.Value.{Value, str, Values, nil, cons, Dict, is_one_of, bool, null, nat}
use ansible_go.Run.{Result, ok}
use ansible_go.Run.Ensures.{ok-injective}
use ansible_go.Env.{Env}
use ansible_go.Action.Apt.Args.{
  supported, unsupported, defaults, has_token, names_have_token, check_names, differs, differs_from,
  arg_differs_from_default, args_differ, should_fallback, flag, nothing, number, text, truthy_arg,
  tokens,
}
use ansible_go.Action.Apt.Plain.{marks, IsPlainName, AllPlainNames, IsPlain}
use ansible_go.Action.Apt.Defaults.{
  all-contains, or_then-ok_false, AllKnown-args, default_kept, off_row, none_row, Reads-flag,
  true_of_not,
}

is_some-ne-none {ℓ} : {A : Type ℓ} {o : Option A} → is_some o ≡ true → o ≡ none → ⊥
is_some-ne-none {o} h e = false≢true (sym (ap is_some e) ∙ h)

-- Every argument that the fast path knows and does not implement has a default, so the test of an
-- argument never raises.
pub arg_differs_total :
    (env : Env) (name : String) (value : Value)
    → contains unsupported name ≡ true
    → (b : Bool) × (arg_differs_from_default env name value ≡ ok b)
unfolding arg_differs_from_default differs_from unsupported defaults
arg_differs_total env name value h = elim (Option-cases (lookup name defaults)) [
  | inl e ↦ absurd (is_some-ne-none known e)
  | inr f ↦ (differs env f.0 value, ap (λ o. differs_from env o value) f.1)
]
  where
    known : is_some (lookup name defaults) ≡ true
    known = all-contains (λ k. is_some (lookup k defaults)) unsupported name refl h

any-contains :
    (p : String → Bool) (xs : List String) (k : String)
    → contains xs k ≡ true
    → p k ≡ true
    → any p xs ≡ true
any-contains p [] k c h = cc
any-contains p (x ∷ xs) k c h = ground (arith, eq_iff x k, any-contains p xs k)

no_mark :
    (v : Value) (mark : String)
    → has_token v ≡ ok false
    → contains tokens mark ≡ true
    → (a b : String) → v ≡ str (a <> mark <> b)
    → ⊥
unfolding has_token
no_mark v mark h c a b e =
    let s = a <> mark <> b in
    let tested = ok-injective _ _ (subst (λ x. has_token x ≡ ok false) e h) in
    let held = has_text-behind mark a (mark <> b) (has_text-append mark b) in
    false≢true (sym tested ∙ any-contains (λ t. has_text t s) tokens mark c held)

IsPlainName-tested : (v : Value) → has_token v ≡ ok false → IsPlainName v
unfolding tokens
IsPlainName-tested v h mark c = no_mark v mark h (all-contains (contains tokens) marks mark refl c)

AllPlainNames-tested : (vs : Values) → names_have_token vs ≡ ok false → AllPlainNames vs
unfolding names_have_token
AllPlainNames-tested nil h = tt
AllPlainNames-tested (cons v vs) h =
    let both = or_then-ok_false (has_token v) (names_have_token vs) h in
    (IsPlainName-tested v both.0, AllPlainNames-tested vs both.1)

listed_names :
    (o : Option Values)
    → check_names o ≡ ok false
    → (vs : Values) × (o ≡ some vs) × AllPlainNames vs
unfolding check_names
listed_names none h = cc
listed_names (some vs) h = (vs, refl, AllPlainNames-tested vs h)

past_true :
    (b : Bool) (rest : Result Bool)
    → (if b then ok true else rest) ≡ ok false
    → (b ≡ false) × (rest ≡ ok false)
past_true true rest h = cc
past_true false rest h = (refl, h)

not_one_of :
    (state : Value) (s : String)
    → is_one_of state ("build-dep" ∷ "fixed" ∷ []) ≡ false
    → is_one_of (str s) ("build-dep" ∷ "fixed" ∷ []) ≡ true
    → state ≡ str s
    → ⊥
not_one_of state s h k e =
    false≢true (sym h ∙ ap (λ v. is_one_of v ("build-dep" ∷ "fixed" ∷ [])) e ∙ k)

-- A task that the tests of `_should_fallback` let pass asks for nothing that the fast path does not
-- implement: it knows every argument, those without an implementation have no effect, the state is
-- neither `build-dep` nor `fixed`, and no name is a text with a version, a pattern, an
-- architecture or a path in it.
pub should_fallback-IsPlain :
    (env : Env) (args : Dict) → should_fallback env args ≡ ok false → IsPlain env args
unfolding should_fallback supported unsupported defaults differs truthy_arg
should_fallback-IsPlain env args h =
    let both = or_then-ok_false (args_differ env args) _ h in
    let late = past_true _ _ both.1 in
    record {
      known = AllKnown-args env args both.0;
      off = λ name c.
          Reads-flag env false _
            (default_kept env args name (flag false) (bool false) (off_row name c) both.0 refl);
      absent = λ name c.
          true_of_not _ (default_kept env args name nothing null (none_row name c) both.0 refl);
      deps = Reads-flag env true _ (
          default_kept env args "auto_install_module_deps" (flag true) (bool true)
            (record { apart = refl; listed = refl; found = refl }) both.0 refl);
      options = true_of_not _ (
          default_kept env args "dpkg_options" (text "force-confdef,force-confold")
            (str "force-confdef,force-confold")
            (record { apart = refl; listed = refl; found = refl }) both.0 refl);
      upgrade = true_of_not _ (
          default_kept env args "upgrade" (text "no") (str "no")
            (record { apart = refl; listed = refl; found = refl }) both.0 refl);
      timeout = true_of_not _ (
          default_kept env args "lock_timeout" (number 60) (nat 60)
            (record { apart = refl; listed = refl; found = refl }) both.0 refl);
      retries = true_of_not _ (
          default_kept env args "update_cache_retries" (number 5) (nat 5)
            (record { apart = refl; listed = refl; found = refl }) both.0 refl);
      delay = true_of_not _ (
          default_kept env args "update_cache_retry_max_delay" (number 12) (nat 12)
            (record { apart = refl; listed = refl; found = refl }) both.0 refl);
      no_build = not_one_of _ "build-dep" late.0 refl;
      no_fix = not_one_of _ "fixed" late.0 refl;
      names = listed_names _ late.1;
    }
