-- ===== src/Base/Text.antt =====
-- Texts: Python's `in`, `join` and prefix removal, and the code points of a text.
use Prim.Native.Nat.{ℕ, zero, suc}
use Prim.Native.Char.{code}
use Prim.Native.String.{String, ◌++◌ as ◌<>◌}
use mathlib.Core.Bool.{Bool, ◌||◌}
use mathlib.Core.List.{List, [], ◌∷◌}
use text.Mathlib.Text.{starts_with}

-- The code points of a text.
abbrev pub codes : String → List ℕ
codes String.[] = []
codes (String.◌∷◌ c s) = code c ∷ codes s

-- `token in s`: the token stands at some place of the text.
abbrev pub has_text : String → String → Bool
has_text token String.[] = starts_with "" token
has_text token (String.◌∷◌ c s) = starts_with (String.◌∷◌ c s) token || has_text token s

-- `s[n:]` over code points.
abbrev pub drop_text : ℕ → String → String
drop_text zero s = s
drop_text (suc n) String.[] = ""
drop_text (suc n) (String.◌∷◌ c s) = drop_text n s

-- `sep.join(parts)`
abbrev pub join : String → List String → String
join sep [] = ""
join sep (x ∷ []) = x
join sep (x ∷ y ∷ rest) = x <> sep <> join sep (y ∷ rest)
