-- ===== src/Action/Stat/Fields.antt =====
-- The members of the stat dict.
use ansible_go.Base.{
  ◌≡◌, refl, sym, ◌∙◌, String, Bool, true, false, false≢true, not, ◌&&◌, ◌||◌, ◌==◌, arith, eq_iff,
  List, [], ◌∷◌, ◌++◌, All, all, contains, if◌then◌else◌,
}
use ansible_go.Value.{Value, null, bool, str, dict, Dict, get, get_or, set, truthy}
use ansible_go.Value.Laws.{get_or-set, dict_laws}
use ansible_go.Run.Ensures.{Ensures, Ensures-bind, Ensures-pure, Ensures-nothing, Ensures-if}
use ansible_go.Env.{Env}
use ansible_go.Action.Stat.{
  type_flags, mode_flags, copy_flags, ids, owners, links, build_stat, finish, report,
}

-- The flag as the agent sends it, where a member that is not there is false.
abbrev pub flag_of : Dict → String → Value
flag_of reply k = bool (truthy (get_or reply k (bool false)))

-- A copied flag is read back, and every other member is as before.
get-copy_flags :
    (names : List String) (reply stat : Dict) (k : String)
    → get (copy_flags names reply stat) k
      ≡ (if contains names k then flag_of reply k else get stat k)
unfolding copy_flags
get-copy_flags [] reply stat k = refl
get-copy_flags (n ∷ names) reply stat k =
    get-copy_flags names reply (set stat n (flag_of reply n)) k
    ∙ ground (arith, eq_iff n k, get_or-set stat n k (flag_of reply n) null)

-- A member that is set stands apart from the others.
get-set_ne : (d : Dict) (j k : String) (v : Value) → (j == k) ≡ false → get (set d j v) k ≡ get d k
get-set_ne d j k v h = get_or-set d j k v null ∙ ground arith

-- One of two dicts that agree at a member.
get-either :
    (b : Bool) (d e f : Dict) (k : String)
    → get d k ≡ get f k
    → get e k ≡ get f k
    → get (if b then d else e) k ≡ get f k
get-either true d e f k p q = p
get-either false d e f k p q = q

module _ (env : Env) (k : String) where
  -- The other members of the dict.
  get-owners :
      (reply stat : Dict)
      → contains ("owner" ∷ "group" ∷ "pw_name" ∷ "gr_name" ∷ []) k ≡ false
      → get (owners env reply stat) k ≡ get stat k
  unfolding owners
  get-owners reply stat h =
      let owner : ("owner" == k) ≡ false = ground arith in
      let group : ("group" == k) ≡ false = ground arith in
      let pw : ("pw_name" == k) ≡ false = ground arith in
      let gr : ("gr_name" == k) ≡ false = ground arith in
      let two = get-set_ne _ "group" k _ group ∙ get-set_ne stat "owner" k _ owner in
      let three =
        get-either (truthy (get_or reply "owner" (str ""))) _ _ stat k
          (get-set_ne _ "pw_name" k _ pw ∙ two) two in
      get-either (truthy (get_or reply "group" (str ""))) _ _ stat k
        (get-set_ne _ "gr_name" k _ gr ∙ three) three

  get-links :
      (g : Bool) (reply stat : Dict)
      → contains ("lnk_source" ∷ "lnk_target" ∷ "checksum" ∷ []) k ≡ false
      → get (links env g reply stat) k ≡ get (copy_flags mode_flags reply stat) k
  unfolding links
  get-links g reply stat h =
      let base = copy_flags mode_flags reply stat in
      let linked =
        get-either (truthy (get base "islnk")) _ _ base k
          (get-set_ne _ "lnk_target" k _ (ground arith)
            ∙ get-set_ne _ "lnk_source" k _ (ground arith))
          refl in
      get-either _ _ _ base k (get-set_ne _ "checksum" k _ (ground arith) ∙ linked) linked

  get-ids :
      (path : Value) (reply : Dict)
      → contains ("size" ∷ "mode" ∷ "gid" ∷ "uid" ∷ "inode" ∷ "dev" ∷ "nlink" ∷ []) k ≡ false
      → contains type_flags k ≡ true
      → get (ids env path reply) k ≡ flag_of reply k
  unfolding ids
  get-ids path reply h t =
      get-set_ne _ "nlink" k _ (ground arith)
      ∙ get-set_ne _ "inode" k _ (ground arith)
      ∙ get-set_ne _ "dev" k _ (ground arith)
      ∙ get-set_ne _ "gid" k _ (ground arith)
      ∙ get-set_ne _ "uid" k _ (ground arith)
      ∙ get-set_ne _ "size" k _ (ground arith)
      ∙ get-set_ne _ "mode" k _ (ground arith)
      ∙ get-copy_flags type_flags reply _ k
      ∙ rw t refl

-- The name is that of a flag, and of no other member.
abbrev only_flag : String → Bool
only_flag k =
    not (contains ("owner" ∷ "group" ∷ "pw_name" ∷ "gr_name" ∷ []) k)
    && (not (contains ("lnk_source" ∷ "lnk_target" ∷ "checksum" ∷ []) k)
        && (not (contains ("size" ∷ "mode" ∷ "gid" ∷ "uid" ∷ "inode" ∷ "dev" ∷ "nlink" ∷ []) k)
            && (not (contains ("mtime" ∷ "atime" ∷ "ctime" ∷ []) k)
                && (contains type_flags k || contains mode_flags k))))

-- Every flag of the list is a Boolean in the dict, as the agent sends it.
abbrev pub HasFlags : Dict → List String → Dict → Type 0
HasFlags reply names stat = All (λ k. get stat k ≡ flag_of reply k) names

both_left : (a b : Bool) → (a && b) ≡ true → a ≡ true
both_left a b h = ground arith

both_right : (a b : Bool) → (a && b) ≡ true → b ≡ true
both_right a b h = ground arith

none_left : (a b : Bool) → (not a && b) ≡ true → a ≡ false
none_left a b h = ground arith

either_left : (a b : Bool) → (a || b) ≡ true → b ≡ false → a ≡ true
either_left a b h f = ground arith

get-times :
    (k : String) (d : Dict) (m a c : Value)
    → contains ("mtime" ∷ "atime" ∷ "ctime" ∷ []) k ≡ false
    → get (set (set (set d "mtime" m) "atime" a) "ctime" c) k ≡ get d k
get-times k d m a c h =
    get-set_ne _ "ctime" k _ (ground arith)
    ∙ get-set_ne _ "atime" k _ (ground arith)
    ∙ get-set_ne _ "mtime" k _ (ground arith)

module _ (env : Env) (g : Bool) (path : Value) (reply : Dict) (m a c : Value) where
  abbrev timed : Dict
  timed = set (set (set (owners env reply (ids env path reply)) "mtime" m) "atime" a) "ctime" c

  get-timed :
      (k : String)
      → only_flag k ≡ true
      → contains mode_flags k ≡ false
      → get timed k ≡ flag_of reply k
  get-timed k h f =
      let unnamed = both_right _ _ h in
      let unlinked = both_right _ _ unnamed in
      let untimed = both_right _ _ unlinked in
      get-times k _ m a c (none_left _ _ untimed)
      ∙ get-owners env k reply _ (none_left _ _ h)
      ∙ get-ids env k path reply (none_left _ _ unlinked)
          (either_left _ _ (both_right _ _ untimed) f)

  chosen :
      (b : Bool) (v w u : Value)
      → (b ≡ true → v ≡ u)
      → (b ≡ false → w ≡ u)
      → (if b then v else w) ≡ u
  chosen true v w u p q = p refl
  chosen false v w u p q = q refl

  get-stat : (k : String) → only_flag k ≡ true → get (links env g reply timed) k ≡ flag_of reply k
  get-stat k h =
      get-links env k g reply timed (none_left _ _ (both_right _ _ h))
      ∙ get-copy_flags mode_flags reply timed k
      ∙ chosen (contains mode_flags k) _ _ _ (λ e. refl) (get-timed k h)

  HasFlags-links :
      (names : List String)
      → all only_flag names ≡ true
      → HasFlags reply names (links env g reply timed)
  HasFlags-links [] h = tt
  HasFlags-links (k ∷ names) h =
      (get-stat k (both_left _ _ h), HasFlags-links names (both_right _ _ h))

-- The 21 flags.
abbrev pub flags : List String
flags = type_flags ++ mode_flags

module _ (env : Env) (path : Value) (g : Bool) (reply : Dict) where
  HasFlags-build_stat :
      Ensures (λ w. Unit {0}) (build_stat env path g reply) (λ stat w. HasFlags reply flags stat)
  unfolding build_stat
  HasFlags-build_stat = Ensures-bind _ _ (Ensures-nothing _) (λ m.
      Ensures-bind _ _ (Ensures-nothing _) (λ a.
        Ensures-bind _ _ (Ensures-nothing _)
          (λ c. Ensures-pure _ (λ s p. HasFlags-links env g path reply m a c flags refl))))

  -- If the agent says that the path exists, then the result of a stat task holds a dict `stat`
  -- where each of the 21 flags is a Boolean, whatever the agent sends for it: true exactly if the
  -- member is there and is truthy.
  pub report-HasFlags :
      (result : Dict)
      → truthy (get_or reply "exists" (bool false)) ≡ true
      → Ensures
          (λ w. Unit {0})
          (report env result path g reply)
          (λ d w. (stat : Dict) × (get d "stat" ≡ dict stat) × HasFlags reply flags stat)
  unfolding report finish
  report-HasFlags result there =
      Ensures-if (truthy (get_or reply "exists" (bool false))) _ _
        (λ e.
          Ensures-bind _ _ HasFlags-build_stat
            (λ stat. Ensures-pure _ (λ s h. (stat, simp dict_laws, h))))
        (λ e. absurd (false≢true (sym e ∙ there)))
