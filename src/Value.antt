-- ===== src/Value.antt =====
-- Python's dynamic values, as they come from YAML and JSON, and dicts with text keys.
use Prim.Native.String
use ansible_go.Base.{Option, none, some}
use ansible_go.Base.{ℕ, zero, suc, ◌*◌, ◌^◌, String, Bool, true, false, not, ◌&&◌, ◌||◌, ◌==◌}
use ansible_go.Base.{eqb, ltb, if◌then◌else◌, List, [], ◌∷◌}
pub mod Laws

-- `negsuc n` is -(n + 1).
pub data ℤ : Type 0 where
  pos : ℕ → ℤ
  negsuc : ℕ → ℤ

-- `float m e` is the number m / 2 ^ e: every finite double is of this form.
mutual
  pub data Value : Type 0 where
    null : Value
    bool : Bool → Value
    int : ℤ → Value
    float : ℤ → ℕ → Value
    str : String → Value
    list : Values → Value
    dict : Dict → Value

  pub data Values : Type 0 where
    nil : Values
    cons : Value → Values → Values

  -- The entries in the order of insertion.
  pub data Dict : Type 0 where
    empty : Dict
    entry : String → Value → Dict → Dict

abbrev pub nat : ℕ → Value
nat n = int (pos n)

-- `d.get(k, default)`
unfoldable pub get_or : Dict → String → Value → Value
get_or empty k v = v
get_or (entry j w d) k v = if j == k then w else get_or d k v

-- `d.get(k)`
abbrev pub get : Dict → String → Value
get d k = get_or d k null

-- `k in d`
unfoldable pub has : Dict → String → Bool
has empty k = false
has (entry j w d) k = j == k || has d k

-- `d[k] = v`: the value of a key that is there changes in place, a new key comes last.
unfoldable pub set : Dict → String → Value → Dict
set empty k v = entry k v empty
set (entry j w d) k v = if j == k then entry j v d else entry j w (set d k v)

-- `d.update(e)`
unfoldable pub update : Dict → Dict → Dict
update d empty = d
update d (entry k v e) = update (set d k v) e

-- `bool(v)`, as `if`, `and` and `or` take a value.
abbrev pub truthy : Value → Bool
truthy null = false
truthy (bool b) = b
truthy (int (pos n)) = ltb 0 n
truthy (int (negsuc n)) = true
truthy (float (pos n) e) = ltb 0 n
truthy (float (negsuc n) e) = true
truthy (str s) = not (s == "")
truthy (list nil) = false
truthy (list (cons x xs)) = true
truthy (dict empty) = false
truthy (dict (entry k v d)) = true

-- `v or w`
abbrev pub or_value : Value → Value → Value
or_value v w = if truthy v then v else w

-- `v is None`
abbrev pub is_none : Value → Bool
is_none null = true
is_none _ = false

-- `v == s` for a text s
abbrev pub eq_text : Value → String → Bool
eq_text (str t) s = t == s
eq_text _ s = false

-- `v == n` for a natural number n: `True` is 1, `False` is 0, and a float is compared exactly.
abbrev pub eq_nat : Value → ℕ → Bool
eq_nat (bool true) n = eqb n 1
eq_nat (bool false) n = eqb n 0
eq_nat (int (pos m)) n = eqb m n
eq_nat (float (pos m) e) n = eqb m (n * 2 ^ e)
eq_nat _ n = false

-- `v in ("a", "b", …)`
abbrev pub is_one_of : Value → List String → Bool
is_one_of v [] = false
is_one_of v (s ∷ more) = eq_text v s || is_one_of v more

-- A list of texts as a value.
abbrev pub texts : List String → Values
texts [] = nil
texts (s ∷ more) = cons (str s) (texts more)

-- `for x in v`: a text gives its characters, a dict its keys; None stands for a TypeError.
chars : String → Values
chars String.[] = nil
chars (String.◌∷◌ c s) = cons (str (String.◌∷◌ c "")) (chars s)

keys : Dict → Values
keys empty = nil
keys (entry k v d) = cons (str k) (keys d)

unfoldable pub iterate : Value → Option Values
unfolding chars keys
iterate (str s) = some (chars s)
iterate (list vs) = some vs
iterate (dict d) = some (keys d)
iterate v = none

-- `s in vs`
abbrev pub member : String → Values → Bool
member s nil = false
member s (cons v vs) = eq_text v s || member s vs
