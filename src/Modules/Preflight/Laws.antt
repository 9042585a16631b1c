-- ===== src/Modules/Preflight/Laws.antt =====
-- Which parameters the preflight names.
use ansible_go.Base.{
  ◌≡◌, refl, ap, ◌∙◌, String, true, false, ◌||◌, ◌==◌, arith, eq_iff, some, List, [], ◌∷◌, All,
  contains, lookup,
}
use ansible_go.Value.{Dict, get}
use ansible_go.Modules.Preflight.{
  Default, nothing, flag, number, literal, no_items, value_of, unsupported_value_differs, differing,
  insert_name, sorted_set, Argument, default_in, IsFilled,
}

-- A value that is the default does not differ from it.
differs-value_of : (d : Default) → unsupported_value_differs d (value_of d) ≡ false
unfolding unsupported_value_differs
differs-value_of nothing = refl
differs-value_of (flag true) = refl
differs-value_of (flag false) = refl
differs-value_of (number n) = ground arith
differs-value_of (literal s) = ground (arith, eq_iff s s)
differs-value_of no_items = refl

contains-insert_name :
    (x k : String) (ys : List String) → contains (insert_name x ys) k ≡ (x == k || contains ys k)
unfolding insert_name
contains-insert_name x k [] = refl
contains-insert_name x k (y ∷ ys) =
    ground (arith, eq_iff x y, eq_iff x k, eq_iff y k, contains-insert_name x k ys)

-- Sorting leaves out no name and brings in none.
pub contains-sorted_set :
    (xs : List String) (k : String) → contains (sorted_set xs) k ≡ contains xs k
unfolding sorted_set
contains-sorted_set [] k = refl
contains-sorted_set (x ∷ xs) k =
    contains-insert_name x k (sorted_set xs) ∙ ap (λ b. x == k || b) (contains-sorted_set xs k)

-- A row whose parameter differs is named.
pub contains-differing :
    (table : List (String × Default)) (params : Dict) (rest : List String) (k : String)
    (d : Default)
    → lookup k table ≡ some d
    → unsupported_value_differs d (get params k) ≡ true
    → contains (differing table params rest) k ≡ true
unfolding differing
contains-differing [] params rest k d l h = cc
contains-differing ((name, e) ∷ more) params rest k d l h =
    ground (arith, eq_iff name k, contains-differing more params rest k d)

-- The row has the default of the argument, and the argument is not given.
abbrev pub Agrees : List Argument → List String → String × Default → Type 0
Agrees spec given row = (contains given row.0 ≡ false) × (default_in spec row.0 ≡ some row.1)

-- Where no row's argument is given, the table finds nothing.
pub differing-filled :
    (spec : List Argument) (given : List String) (params : Dict) (rest : List String)
    → IsFilled spec given params
    → (table : List (String × Default)) → All (Agrees spec given) table
    → differing table params rest ≡ rest
unfolding differing
differing-filled spec given params rest f [] h = refl
differing-filled spec given params rest f ((name, d) ∷ more) h =
    let same = f.filled name d h.0.0 h.0.1 in
    let quiet : unsupported_value_differs d (get params name) ≡ false =
      ap (unsupported_value_differs d) same ∙ differs-value_of d in
    rw quiet (differing-filled spec given params rest f more h.1)
