-- ===== src/Base/Paths.antt =====
-- os.path.join and os.path.basename, of POSIX paths.
use Prim.Native.Char.{code}
use Prim.Native.String.{String, ◌++◌ as ◌<>◌}
use mathlib.Core.Bool.{Bool, false, ◌||◌}
use text.Mathlib.Text.{◌==◌, starts_with}
use ansible_go.Base.Tests.{eqb, if◌then◌else◌}

-- `s.endswith("/")`
abbrev pub ends_with_slash : String → Bool
ends_with_slash String.[] = false
ends_with_slash (String.◌∷◌ c String.[]) = eqb (code c) b'/'
ends_with_slash (String.◌∷◌ c s) = ends_with_slash s

-- `os.path.join(a, b)`
abbrev pub path_join : String → String → String
path_join a b =
    if starts_with b "/" then b else if a == "" || ends_with_slash a then a <> b else a <> "/" <> b

has_slash : String → Bool
has_slash String.[] = false
has_slash (String.◌∷◌ c s) = eqb (code c) b'/' || has_slash s

-- `os.path.basename(s)`: what stands behind the last slash
unfoldable pub basename : String → String
unfolding has_slash
basename String.[] = ""
basename (String.◌∷◌ c s) =
    let rest = basename s in
    if has_slash s then rest else if eqb (code c) b'/' then s else String.◌∷◌ c s
