-- ===== src/Action/Copy/Failures.antt =====
-- A copy whose requests fail.
use ansible_go.Base.{
  false, ap, basename, ◌≡◌, refl, String, Bool, true, not, ◌||◌, ◌&&◌, path_join, if◌then◌else◌,
}
use ansible_go.Value.{Value, str, null, bool, Dict, get, get_or, truthy, is_none, eq_text}
use ansible_go.Run.{Run, ok, lift, ◌>>=◌}
use ansible_go.Run.Keeps.{Keeps-lift}
use ansible_go.Run.Ensures.{Ensures, Ensures-if, Ensures-bind, Ensures-keeps}
use ansible_go.Run.Returns.{
  Returns, Returns-lift, Returns-if, Returns-pure, Returns-attempt, Returns-handle, returns_rules,
}
use ansible_go.Env.{Env}
use ansible_go.Client
use ansible_go.Failure.{IsFailed-failed}
use ansible_go.World.{World, on_client}
use ansible_go.World.Answered.{
  IsAnswered, Accounts, Answered, Answered-on_client, Accounts-try, Accounts-pure, Accounts-failed,
  Accounts-total, Pays-stat, Pays-file, Pays-read_file, Pays-write_file,
}
use ansible_go.Action.Copy.Data.{
  Copy, source_name, joined, decoded, keep_content, write, replace, settle, into_directory,
  transfer,
}

module _ (env : Env) (c : Copy) where
  abbrev Good : Run World Dict → Type 0
  Good m = Ensures (Answered env) m (Accounts env)

  Accounts-keep_content : (result : Dict) (dest : Value) → Good (keep_content env c result dest)
  unfolding keep_content
  Accounts-keep_content result dest =
      Ensures-if
        (not c.check_mode
          && (truthy (get c.args "owner")
              || truthy (get c.args "group")
              || truthy (get c.args "mode")))
        _ _
        (λ e.
          Accounts-try env _ _ _ (Answered-on_client env _ (Pays-file env _))
            (λ x. IsFailed-failed _ _) (λ r. Accounts-pure env _))
        (λ e. Accounts-pure env _)

  Accounts-write : (result : Dict) (dest : Value) → Good (write env c result dest)
  unfolding write
  Accounts-write result dest =
      Ensures-if c.check_mode _ _ (λ e. Accounts-pure env _)
        (λ e.
          Accounts-try env _ _ _ (Answered-on_client env _ (Pays-write_file env _))
            (λ x. IsFailed-failed result _) (λ r. Accounts-pure env _))

  -- The old bytes, for the diff.
  Answered-old :
      (dest : Value)
      → Ensures
          (Answered env)
          (do reply ← on_client (Client.read_file env dest); lift (decoded env reply))
          (λ bytes w. Answered env w)
  Answered-old dest =
      Ensures-bind _ _ (Answered-on_client env _ (Pays-read_file env dest))
        (λ reply. Ensures-keeps (Keeps-lift _))

  Accounts-replace :
      (result : Dict) (dest : Value) (remote : Dict) → Good (replace env c result dest remote)
  unfolding replace
  Accounts-replace result dest remote =
      Ensures-if (not c.diff) _ _ (λ e. Accounts-write result dest)
        (λ e.
          Ensures-if
            (truthy (get remote "exists") && not (truthy (get_or remote "isdir" (bool false)))) _ _
            (λ f.
              Accounts-try env _ _ _ (Answered-old dest) (λ x. IsFailed-failed _ _)
                (λ bytes. Accounts-write _ dest))
            (λ f. Accounts-write _ dest))

  Accounts-settle :
      (result : Dict) (dest : Value) (remote : Dict) → Good (settle env c result dest remote)
  unfolding settle
  Accounts-settle result dest remote =
      Ensures-if (is_there && not c.force) _ _ (λ e. Accounts-pure env _)
        (λ e.
          Ensures-if
            (is_there
              && not (truthy (get_or remote "isdir" (bool false)))
              && eq_text (get_or remote "checksum" (str "")) c.checksum
              && c.force)
            _ _ (λ f. Accounts-keep_content result dest) (λ f. Accounts-replace result dest remote))
    where
      is_there : Bool
      is_there = truthy (get remote "exists")

  Accounts-into_directory : (result : Dict) (dest : Value) → Good (into_directory env c result dest)
  unfolding into_directory
  Accounts-into_directory result dest =
      Ensures-if (not (is_none (get c.args "content"))) _ _ (λ e. Accounts-failed env result _)
        (λ e. Ensures-bind _ _ (Ensures-keeps (Keeps-lift _)) (λ name.
          Ensures-bind _ _ (Ensures-keeps (Keeps-lift _)) (λ path.
            Accounts-try env _ _ _ (Answered-on_client env _ (Pays-stat env path true true null))
              (λ x. IsFailed-failed result _) (λ remote. Accounts-settle result path remote))))

  Accounts-transfer : (result : Dict) (dest : Value) → Good (transfer env c result dest)
  unfolding transfer
  Accounts-transfer result dest =
      Accounts-try env _ _ _ (Answered-on_client env _ (Pays-stat env dest true true null))
        (λ x. IsFailed-failed result _)
        (λ remote.
          Ensures-if (truthy (get remote "exists") && truthy (get remote "isdir")) _ _
            (λ e. Accounts-into_directory result dest) (λ e. Accounts-settle result dest remote))

  abbrev Whole : Dict → Type 0
  Whole d = Unit {0}

  Returns-settle :
      (result : Dict) (dest : Value) (remote : Dict)
      → Returns Whole (settle env c result dest remote)
  unfolding settle keep_content replace write
  Returns-settle result dest remote = search (returns_rules, tt) depth 16

  -- A source that is a text has a name to be joined.
  module _ (src : String) (given : get_or c.args "src" (str "") ≡ str src) where
    abbrev name : String
    name = if truthy (str src) then basename src else "content"

    named : source_name (get_or c.args "src" (str "")) ≡ ok name
    unfolding source_name
    named = ap source_name given

    placed : (dest : String) → joined (str dest) name ≡ ok (str (path_join dest name))
    unfolding joined
    placed dest = refl

    Returns-into_directory :
        (result : Dict) (dest : String) → Returns Whole (into_directory env c result (str dest))
    unfolding into_directory
    Returns-into_directory result dest =
        Returns-if (not (is_none (get c.args "content"))) _ _ (Returns-pure _ tt) (
          Returns-lift _ name _ named (
            Returns-lift _ _ _ (placed dest) (
              Returns-attempt _ _ (λ seen.
                Returns-handle seen _ _ (λ e. Returns-pure _ tt)
                  (Returns-settle result (str (path_join dest name)))))))

    Returns-transfer :
        (result : Dict) (dest : String) → Returns Whole (transfer env c result (str dest))
    unfolding transfer
    Returns-transfer result dest = Returns-attempt _ _ (λ seen.
        Returns-handle seen _ _ (λ e. Returns-pure _ tt)
          (λ remote.
            Returns-if (truthy (get remote "exists") && truthy (get remote "isdir")) _ _
              (Returns-into_directory result dest) (Returns-settle result (str dest) remote)))

    -- The work of a copy behind the connect, with a source and a destination that are texts,
    -- returns a result, whatever the agent answers. The result is marked as failed, or each of its
    -- requests had an answer without an error, where each request before had one: the looks at the
    -- destination, the reading of the old bytes, the write and the change of the attributes.
    pub transfer-Accounts :
        (result : Dict) (dest : String) (before : World)
        → IsAnswered env before.log
        → (d : Dict) × ((transfer env c result (str dest) before).0 ≡ ok d)
          × Accounts env d (transfer env c result (str dest) before).1
    transfer-Accounts result dest before p =
        let t =
          Accounts-total env _ _ (Returns-transfer result dest)
            (Accounts-transfer result (str dest)) before p in
        (t.0, t.1, t.3)
