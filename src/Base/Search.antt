-- ===== src/Base/Search.antt =====
-- A token that stands in a text is found there.
use Prim.Native.String.append
use Prim.Native.String.{String, ◌++◌ as ◌<>◌}
use mathlib.Core.Path.{◌≡◌, refl}
use mathlib.Core.Bool.{true}
use mathlib.Core.List.{List, ◌∷◌}
use text.Mathlib.TextEquality.{eq_iff}
use ansible_go.Base.Lists.{contains}
use native.Mathlib.Omega.{arith}
use text.Mathlib.Text.{starts_with}
use text.Mathlib.TextEquality.{starts_with_iff}
use ansible_go.Base.Text.{has_text}

has_text-front : (t s : String) → starts_with s t ≡ true → has_text t s ≡ true
has_text-front t String.[] h = h
has_text-front t (String.◌∷◌ c s) h = rw h refl

-- It is found whatever stands in front of it.
pub has_text-behind : (t a s : String) → has_text t s ≡ true → has_text t (a <> s) ≡ true
has_text-behind t String.[] s h = rw (append.nil s) h
has_text-behind t (String.◌∷◌ c a) s h =
    rw (append.cons c a s) (ground (arith, has_text-behind t a s h))

pub has_text-append : (t s : String) → has_text t (t <> s) ≡ true
has_text-append t s = has_text-front t (t <> s) ((starts_with_iff (t <> s) t).1 (s, refl))

-- A list of texts holds its first one, and what the rest of it holds.
pub contains-here : (x : String) (xs : List String) → contains (x ∷ xs) x ≡ true
contains-here x xs = ground (arith, eq_iff x x)

pub contains-there :
    (x y : String) (xs : List String) → contains xs y ≡ true → contains (x ∷ xs) y ≡ true
contains-there x y xs h = ground (arith, eq_iff x y)
