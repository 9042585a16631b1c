-- ===== src/Action/Apt/Defaults.antt =====
-- The loop over the arguments of an apt task, against the table of the defaults
-- (plugins/action/apt.py, _should_fallback).
use ansible_go.Base.{
  ◌≡◌, ◌==◌, refl, sym, subst, ◌∙◌, ◌⊎◌, inl, inr, String, Bool, true, false, arith, eq_iff, all,
  contains, lookup, Option, none, some, List, [], ◌∷◌, if◌then◌else◌, ap, Bool-cases, not,
}
use ansible_go.Value.{Value, str, Dict, empty, entry, get_or, bool, null, list, dict, int, float}
use ansible_go.Run.{Result, ok, err}
use ansible_go.Run.Ensures.{ok-injective}
use ansible_go.Env.{Env}
use ansible_go.Action.Apt.Args.{
  supported, unsupported, defaults, or_then, differs, differs_from, arg_differs_from_default,
  args_differ, Default, flag, nothing, number, text, truthy_arg,
}
use ansible_go.Action.Apt.Plain.{AllKnown, Reads, off_names, none_names, all_names}

pub all-contains :
    (p : String → Bool) (xs : List String) (k : String)
    → all p xs ≡ true
    → contains xs k ≡ true
    → p k ≡ true
all-contains p [] k h c = cc
all-contains p (x ∷ xs) k h c = ground (arith, eq_iff x k, all-contains p xs k)

pub or_then-ok_false :
    (r rest : Result Bool) → or_then r rest ≡ ok false → (r ≡ ok false) × (rest ≡ ok false)
or_then-ok_false (ok true) rest h = cc
or_then-ok_false (ok false) rest h = (refl, h)
or_then-ok_false (err e) rest h = cc

-- The test of one argument, in front of the rest of the loop.
pub known_first :
    (s u : Bool) (r rest : Result Bool)
    → (if s then rest else if u then or_then r rest else ok true) ≡ ok false
    → ((s ≡ true) ⊎ (u ≡ true)) × (rest ≡ ok false)
known_first true u r rest h = (inl refl, h)
known_first false true r rest h = (inr refl, (or_then-ok_false r rest h).1)
known_first false false r rest h = cc

pub AllKnown-args :
    (env : Env) (args : Dict) → args_differ env args ≡ ok false → AllKnown all_names args
unfolding args_differ supported unsupported
AllKnown-args env empty h = tt
AllKnown-args env (entry name value more) h =
    let first =
      known_first (contains supported name) (contains unsupported name)
        (arg_differs_from_default env name value) (args_differ env more) h in
    (
      elim first.0 [
        | inl s ↦ all-contains (λ k. contains all_names k) supported name refl s
        | inr u ↦ all-contains (λ k. contains all_names k) unsupported name refl u
      ],
      AllKnown-args env more first.1,
    )

-- An argument that is not implemented and has a default does not differ from it.
pub record HasDefault (name : String) (default : Default) : Type 0 where
  pub apart : contains supported name ≡ false
  pub listed : contains unsupported name ≡ true
  pub found : lookup name defaults ≡ some default

default_tested :
    (s u : Bool) (r rest : Result Bool)
    → (if s then rest else if u then or_then r rest else ok true) ≡ ok false
    → s ≡ false
    → u ≡ true
    → r ≡ ok false
default_tested true u r rest h e f = cc
default_tested false true r rest h e f = (or_then-ok_false r rest h).0
default_tested false false r rest h e f = cc

differs_from-ok_false :
    (env : Env) (name : String) (default : Default) (value : Value)
    → lookup name defaults ≡ some default
    → arg_differs_from_default env name value ≡ ok false
    → differs env default value ≡ false
unfolding arg_differs_from_default differs_from
differs_from-ok_false env name default value found h =
    ok-injective _ _ (sym (ap (λ o. differs_from env o value) found) ∙ h)

pub default_kept :
    (env : Env) (args : Dict) (name : String) (default : Default) (value : Value)
    → HasDefault name default
    → args_differ env args ≡ ok false
    → differs env default value ≡ false
    → differs env default (get_or args name value) ≡ false
unfolding args_differ get_or
default_kept env empty name default value row h same = same
default_kept env (entry j w more) name default value row h same = elim (Bool-cases (j == name)) [
  | inl e ↦
      let here = subst (λ k. HasDefault k default) (sym ((eq_iff j name).0 e)) row in
      rw e (
        differs_from-ok_false env j default w here.found
          (default_tested _ _ _ _ h here.apart here.listed))
  | inr e ↦ rw e (
      default_kept env more name default value row
        (known_first (contains supported j) _ (arg_differs_from_default env j w) _ h).1 same)
]

-- The defaults, as the tables have them.
is_off : Option Default → Bool
is_off (some (flag false)) = true
is_off o = false

off_default : (o : Option Default) → is_off o ≡ true → o ≡ some (flag false)
unfolding is_off
off_default none h = cc
off_default (some nothing) h = cc
off_default (some (flag true)) h = cc
off_default (some (flag false)) h = refl
off_default (some (number n)) h = cc
off_default (some (text s)) h = cc

is_nothing : Option Default → Bool
is_nothing (some nothing) = true
is_nothing o = false

nothing_default : (o : Option Default) → is_nothing o ≡ true → o ≡ some nothing
unfolding is_nothing
nothing_default none h = cc
nothing_default (some nothing) h = refl
nothing_default (some (flag b)) h = cc
nothing_default (some (number n)) h = cc
nothing_default (some (text s)) h = cc

false_of_not : (b : Bool) → not b ≡ true → b ≡ false
false_of_not true h = cc
false_of_not false h = refl

pub true_of_not : (b : Bool) → not b ≡ false → b ≡ true
true_of_not true h = refl
true_of_not false h = cc

pub off_row : (name : String) → contains off_names name ≡ true → HasDefault name (flag false)
unfolding supported unsupported defaults is_off
off_row name c = record {
  apart = false_of_not _ (all-contains (λ k. not (contains supported k)) off_names name refl c);
  listed = all-contains (contains unsupported) off_names name refl c;
  found = off_default _ (all-contains (λ k. is_off (lookup k defaults)) off_names name refl c);
}

pub none_row : (name : String) → contains none_names name ≡ true → HasDefault name nothing
unfolding supported unsupported defaults is_nothing
none_row name c = record {
  apart = false_of_not _ (all-contains (λ k. not (contains supported k)) none_names name refl c);
  listed = all-contains (contains unsupported) none_names name refl c;
  found =
      nothing_default _ (all-contains (λ k. is_nothing (lookup k defaults)) none_names name refl c);
}

pub Reads-flag : (env : Env) (b : Bool) (v : Value) → differs env (flag b) v ≡ false → Reads env b v
unfolding differs truthy_arg
Reads-flag env true (bool c) h = true_of_not c h
Reads-flag env true v h = true_of_not _ h
Reads-flag env false (bool c) h = h
Reads-flag env false null h = h
Reads-flag env false (int n) h = h
Reads-flag env false (float n e) h = h
Reads-flag env false (str s) h = h
Reads-flag env false (list vs) h = h
Reads-flag env false (dict d) h = h
