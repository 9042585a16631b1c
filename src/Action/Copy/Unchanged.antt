-- ===== src/Action/Copy/Unchanged.antt =====
-- A copy of what is there already.
use ansible_go.Base.{
  sym, ap, ◌∙◌, Bool, false≢true, ◌&&◌, ◌==◌, if◌then◌else◌, ℕ, ◌+◌, List, ◌∷◌, some, refl, arith,
  ◌≡◌, true, false, ◌||◌,
}
use ansible_go.Value.{empty, entry, null, Value, bool, str, Dict, get, get_or, set, truthy, eq_text}
use ansible_go.Run.{Run, ok, pure, attempt, handle, ◌>>=◌}
use ansible_go.Params.{stat_params}
use ansible_go.Client
use ansible_go.Client.Laws.{Answers, read_response_iff}
use ansible_go.Env.{Event, rpc, Env}
use ansible_go.World.{World, on_client}
use ansible_go.World.Calls.{on_client-returns}
use ansible_go.Action.Copy.Data.{Copy, keep_content, settle, transfer}

-- The file is there with the checksum of the bytes.
pub record IsSame (c : Copy) (remote : Dict) : Type 0 where
  pub exists : truthy (get remote "exists") ≡ true
  pub file : truthy (get_or remote "isdir" (bool false)) ≡ false
  pub checksum : eq_text (get_or remote "checksum" (str "")) c.checksum ≡ true

-- The look at the destination.
abbrev pub asked : Value → ℕ → List Event → List Event
asked dest n log =
    rpc (record { id = n; method = "Stat"; params = stat_params dest true true null }) ∷ log

-- The world behind the look.
abbrev pub looked : Value → ℕ → World → World
looked dest n w = record w { client = some (n + 1); log = asked dest n w.log }

look-Answers :
    (env : Env) (dest : Value) (n : ℕ) (w : World) (remote : Dict)
    → w.client ≡ some n
    → Answers n (env.agent (asked dest n w.log)) remote
    → on_client (Client.stat env dest true true null) w ≡ (ok remote, looked dest n w)
unfolding Client.stat Client.call
look-Answers env dest n w remote up answers =
    on_client-returns _ w n remote (record { next_id = n + 1; log = asked dest n w.log }) up
      (ap (λ r. (r, record { next_id = n + 1; log = asked dest n w.log }))
        ((read_response_iff env n _ remote).1 answers))

-- The decision for such a file.
settle_same :
    (env : Env) (c : Copy) (result : Dict) (dest : Value) (remote : Dict) (w : World)
    → IsSame c remote
    → c.force ≡ true
    → (truthy (get c.args "owner") || truthy (get c.args "group") || truthy (get c.args "mode"))
      ≡ false
    → settle env c result dest remote w ≡ (
      ok (set (set (set result "changed" (bool false)) "dest" dest) "checksum" (str c.checksum)),
      w,
    )
unfolding settle keep_content pure
settle_same env c result dest remote w same force plain = ground arith

skip :
    {A : Type 0} (b : Bool) (m n : Run World A) (w : World)
    → b ≡ false
    → (if b then m else n) w ≡ n w
skip true m n w h = absurd (false≢true (sym h))
skip false m n w h = refl

and_false : (b : Bool) → (b && false) ≡ false
and_false true = refl
and_false false = refl

-- The two ways to read `isdir` agree, since a member that is not there is false either way.
isdir_null :
    (remote : Dict) → truthy (get remote "isdir") ≡ truthy (get_or remote "isdir" (bool false))
unfolding get_or
isdir_null empty = refl
isdir_null (entry k v d) = agree (k == "isdir") v _ _ (isdir_null d)
  where
    agree :
        (b : Bool) (v x y : Value)
        → truthy x ≡ truthy y
        → truthy (if b then v else x) ≡ truthy (if b then v else y)
    agree true v x y e = refl
    agree false v x y e = e

no_directory :
    (c : Copy) (remote : Dict)
    → IsSame c remote
    → (truthy (get remote "exists") && truthy (get remote "isdir")) ≡ false
no_directory c remote same =
    let e = isdir_null remote ∙ same.file in rw e (and_false (truthy (get remote "exists")))

-- A forced copy over a client that is up, to a path that is no directory, whose bytes are there
-- already by the checksum that the agent answers, and that asks for no owner, group or mode: the
-- look at the destination is its one request, and the result is not changed, with the path and the
-- checksum.
pub transfer_same :
    (env : Env) (c : Copy) (result : Dict) (dest : Value) (n : ℕ) (w : World) (remote : Dict)
    → w.client ≡ some n
    → Answers n (env.agent (asked dest n w.log)) remote
    → IsSame c remote
    → c.force ≡ true
    → (truthy (get c.args "owner") || truthy (get c.args "group") || truthy (get c.args "mode"))
      ≡ false
    → transfer env c result dest w ≡ (
      ok (set (set (set result "changed" (bool false)) "dest" dest) "checksum" (str c.checksum)),
      looked dest n w,
    )
unfolding transfer attempt handle ◌>>=◌
transfer_same env c result dest n w remote up answers same force plain =
    let seen = look-Answers env dest n w remote up answers in
    let kept = settle_same env c result dest remote (looked dest n w) same force plain in
    rw seen (skip _ _ _ _ (no_directory c remote same) ∙ kept)
