-- ===== src/Value/Laws.antt =====
-- The laws of dicts.
use ansible_go.Base.{◌≡◌, refl, String, false, ◌||◌, arith, ◌==◌, eq_iff, if◌then◌else◌}
use ansible_go.Value.{Value, null, Dict, empty, entry, get_or, has, set, is_none}

pub get_or-empty : (k : String) (w : Value) → get_or empty k w ≡ w
unfolding get_or
get_or-empty k w = refl

pub get_or-entry :
    (d : Dict) (k j : String) (v w : Value)
    → get_or (entry k v d) j w ≡ (if k == j then v else get_or d j w)
unfolding get_or
get_or-entry d k j v w = refl

pub get_or-set :
    (d : Dict) (k j : String) (v w : Value)
    → get_or (set d k v) j w ≡ (if k == j then v else get_or d j w)
unfolding get_or set
get_or-set empty k j v w = refl
get_or-set (entry i u d) k j v w =
    ground (arith, eq_iff i k, eq_iff i j, eq_iff k j, get_or-set d k j v w)

pub has-empty : (k : String) → has empty k ≡ false
unfolding has
has-empty k = refl

pub has-set : (d : Dict) (k j : String) (v : Value) → has (set d k v) j ≡ (k == j || has d j)
unfolding has set
has-set empty k j v = refl
has-set (entry i u d) k j v = ground (arith, eq_iff i k, eq_iff i j, eq_iff k j, has-set d k j v)

pub null_or : (v : Value) → (if is_none v then null else v) ≡ v
null_or null = refl
null_or _ = refl

pub ruleset dict_laws = (get_or-empty, get_or-entry, get_or-set, has-empty, has-set)
