-- ===== src/Modules/Systemd/Says.antt =====
-- What the systemd module reports as changed.
use ansible_go.Base.{
  ◌≡◌, refl, ◌∙◌, String, Bool, true, false, [], ◌∷◌, ◌++◌, All, ◌⊎◌, inl, inr, if◌then◌else◌,
}
use ansible_go.Value.{Value, Dict, get, set, bool, is_none, truthy}
use ansible_go.Value.Laws.{dict_laws}
use ansible_go.Modules.{Call, Session, Host, Answer, exited, failed}
use ansible_go.Modules.Systemd.{systemctl, report}
use ansible_go.Modules.Systemd.Laws.{IsQuestion}

-- The module says that it changed nothing, or that it changed something.
abbrev pub Says : Bool → Answer → Session → Type 0
Says b (exited d) log = get d "changed" ≡ bool b
Says b (failed d) log = Unit

-- The command is a question, or it makes systemd read its units again.
abbrev pub IsQuiet : Dict → Call → Type 0
IsQuiet params call =
    IsQuestion params call
    ⊎ ((call.words ≡ systemctl params ++ ("daemon-reload" ∷ []))
        ⊎ (call.words ≡ systemctl params ++ ("daemon-reexec" ∷ [])))

-- Where the module says that it changed nothing, it ran no other command.
abbrev pub Honest : Dict → Answer → Session → Type 0
Honest params (exited d) log = (get d "changed" ≡ bool true) ⊎ All (IsQuiet params) log
Honest params (failed d) log = Unit

module _ (params : Dict) where
  pub Honest-Says : (a : Answer) (log : Session) → Says true a log → Honest params a log
  Honest-Says (exited d) log h = inl h
  Honest-Says (failed d) log h = tt

  pub Honest-quiet : (a : Answer) (log : Session) → All (IsQuiet params) log → Honest params a log
  Honest-quiet (exited d) log q = inr q
  Honest-quiet (failed d) log q = tt

  -- `changed` is read back behind the two members that may follow it.
  get-changed :
      (s e : Bool) (d : Dict) (v w : Value)
      → get
          (if e
            then (if s then set d "state" v else d)
            else set (if s then set d "state" v else d) "enabled" w)
          "changed"
        ≡ get d "changed"
  get-changed true true d v w = simp dict_laws
  get-changed true false d v w = simp dict_laws
  get-changed false true d v w = refl
  get-changed false false d v w = simp dict_laws

  pub Says-report :
      (h : Host) (check : Bool) (active file_state : String) (b : Bool) (log : Session)
      → Says b (report h check params active file_state b) log
  unfolding report
  Says-report h check active file_state b log =
      get-changed (truthy (get params "state")) (is_none (get params "enabled")) _ _ _
      ∙ simp dict_laws
