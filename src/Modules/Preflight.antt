-- ===== src/Modules/Preflight.antt =====
-- The test for parameters that a module does not implement (`_unsupported_params`), and the rows of
-- an `argument_spec`.
use ansible_go.Base.{
  ℕ, String, Bool, true, false, not, ◌==◌, Option, none, some, List, [], ◌∷◌, any, contains, ◌≡◌,
  has_text, join, if◌then◌else◌,
}
use Prim.Native.String.{compare}
use text.Mathlib.Text.{is_lt}
use ansible_go.Value.{
  Value, null, bool, nat, str, list, texts, nil, Dict, empty, entry, get, truthy, is_none, eq_nat,
  eq_text,
}
use ansible_go.Modules.{Answer, failed}
pub mod Laws

-- A default value.
pub data Default : Type 0 where
  nothing : Default
  flag : Bool → Default
  number : ℕ → Default
  literal : String → Default
  no_items : Default

-- The value of a default.
abbrev pub value_of : Default → Value
value_of nothing = null
value_of (flag b) = bool b
value_of (number n) = nat n
value_of (literal s) = str s
value_of no_items = list nil

-- `value == []`
abbrev is_empty_list : Value → Bool
is_empty_list (list nil) = true
is_empty_list v = false

-- `_unsupported_value_differs`
unfoldable pub unsupported_value_differs : Default → Value → Bool
unsupported_value_differs nothing v = not (is_none v)
unsupported_value_differs (flag true) v = not (truthy v)
unsupported_value_differs (flag false) v = truthy v
unsupported_value_differs (number n) v = not (eq_nat v n)
unsupported_value_differs (literal s) v = not (eq_text v s)
unsupported_value_differs no_items v = not (is_empty_list v)

-- The first loop of `_unsupported_params`, in front of what the rest finds.
unfoldable pub differing : List (String × Default) → Dict → List String → List String
differing [] params rest = rest
differing ((name, default) ∷ more) params rest =
    let found = differing more params rest in
    if unsupported_value_differs default (get params name) then name ∷ found else found

-- `any(token in name for token in tokens)`, for some name
abbrev pub any_token : List String → List String → Bool
any_token tokens names = any (λ name. any (λ token. has_text token name) tokens) names

-- `sorted(set(xs))`
insert_name : String → List String → List String
insert_name x [] = x ∷ []
insert_name x (y ∷ ys) =
    let rest = insert_name x ys in
    if x == y then y ∷ ys else if is_lt (compare x y) then x ∷ y ∷ ys else y ∷ rest

unfoldable pub sorted_set : List String → List String
unfolding insert_name
sorted_set [] = []
sorted_set (x ∷ xs) = insert_name x (sorted_set xs)

-- The failure that names the parameters.
unfoldable pub refuse : String → List String → Answer
refuse module_name names =
    let message = join "" (
      "fastagent "
      ∷ module_name
      ∷ " shim does not implement these ansible.builtin."
      ∷ module_name
      ∷ " parameters: "
      ∷ join ", " (sorted_set names)
      ∷ []) in
    failed (
      entry "msg" (str message)
        (entry "unsupported_parameters" (list (texts (sorted_set names))) empty))

-- One row of an `argument_spec`; a row with no default has None.
pub record Argument : Type 0 where
  pub name : String
  pub kind : String
  pub default : Default
  pub aliases : List String
  pub choices : List String

abbrev pub plain : String → String → Default → Argument
plain name kind default = record {
  name = name;
  kind = kind;
  default = default;
  aliases = [];
  choices = [];
}

-- The default of an argument, by its name.
abbrev pub default_in : List Argument → String → Option Default
default_in [] k = none
default_in (a ∷ more) k = if a.name == k then some a.default else default_in more k

-- What AnsibleModule promises of the parameters that it hands over: an argument that is not given
-- has the default of its row.
pub record IsFilled (spec : List Argument) (given : List String) (params : Dict) : Type 0 where
  pub filled :
      (name : String) (default : Default)
      → contains given name ≡ false
      → default_in spec name ≡ some default
      → get params name ≡ value_of default
