-- ===== src/Modules/Systemd/Plan.antt =====
-- The commands of the systemd module, as a plan that is made from the answers to its questions.
use ansible_go.Base.{
  All, false≢true, Bool-cases, inl, inr, subst, eq_iff, arith, contains, ◌≡◌, refl, String, Bool,
  true, false, not, ◌&&◌, ◌||◌, ◌==◌, Option, some, none, List, [], ◌∷◌, ◌++◌, if◌then◌else◌,
}
use ansible_go.Value.{Value, Dict, get, truthy, is_none, eq_text}
use ansible_go.Run.{ok}
use ansible_go.Env.{Completed}
use ansible_go.Modules.{Call, Session, Host}
use ansible_go.Modules.Systemd.{systemctl, action_for, bool_differs}
pub mod Runs

-- The verbs that each part wants, from what it knows.
abbrev pub mask_plan : Value → String → List String
mask_plan masked shown =
    if is_none masked
    then []
    else if truthy masked && not (shown == "masked")
    then "mask" ∷ []
    else if not (truthy masked) && shown == "masked"
    then "unmask" ∷ []
    else []

abbrev pub listed : Option String → List String
listed none = []
listed (some action) = action ∷ []

abbrev pub state_plan : Value → String → List String
state_plan state active = listed (if is_none state then none else action_for state active)

abbrev pub enabled_plan : Value → Bool → List String
enabled_plan enabled current =
    if not (is_none enabled) && bool_differs enabled current
    then (if truthy enabled then "enable" else "disable") ∷ []
    else []

-- The plan for a unit: what systemctl answers to `is-active` and to `is-enabled` decides it.
abbrev pub planned : Dict → String → String → List String
planned params active file_state =
    mask_plan (get params "masked") file_state
    ++ (state_plan (get params "state") active
        ++ enabled_plan (get params "enabled") (file_state == "enabled"))

abbrev pub is_empty : List String → Bool
is_empty [] = true
is_empty (v ∷ vs) = false

-- The calls behind a session, one for each verb.
abbrev pub call_of : Dict → String → String → Call
call_of params name verb = record { words = systemctl params ++ (verb ∷ name ∷ []); environ = [] }

abbrev pub issued : Dict → String → List String → Session → Session
issued params name [] log = log
issued params name (verb ∷ verbs) log = issued params name verbs (call_of params name verb ∷ log)

pub or_false : (b : Bool) → (b || false) ≡ b
or_false true = refl
or_false false = refl

pub or_true : (b : Bool) → (b || true) ≡ true
or_true true = refl
or_true false = refl

pub or_assoc : (a b c : Bool) → ((a || b) || c) ≡ (a || (b || c))
or_assoc true b c = refl
or_assoc false b c = refl

pub any_of :
    (us vs : List String) → not (is_empty (us ++ vs)) ≡ (not (is_empty us) || not (is_empty vs))
any_of [] vs = refl
any_of (u ∷ us) vs = refl

pub issued-append :
    (params : Dict) (name : String) (us vs : List String) (log : Session)
    → issued params name (us ++ vs) log ≡ issued params name vs (issued params name us log)
issued-append params name [] vs log = refl
issued-append params name (u ∷ us) vs log =
    issued-append params name us vs (call_of params name u ∷ log)

-- The verbs that change a unit.
abbrev pub changing : List String
changing = "mask" ∷ "unmask" ∷ "start" ∷ "stop" ∷ "restart" ∷ "reload" ∷ "enable" ∷ "disable" ∷ []

-- The action, if there is one, changes the unit.
abbrev pub Changes : Option String → Type 0
Changes none = Unit
Changes (some action) = contains changing action ≡ true

pub Changes-if :
    (b : Bool) (x y : Option String) → Changes x → Changes y → Changes (if b then x else y)
Changes-if true x y p q = p
Changes-if false x y p q = q

pub Changes-action_for : (state : Value) (active : String) → Changes (action_for state active)
Changes-action_for state active =
    Changes-if (eq_text state "started" && not (active == "active")) _ _ refl (
      Changes-if (eq_text state "stopped" && active == "active") _ _ refl (
        Changes-if (eq_text state "restarted") _ _ refl
          (Changes-if (eq_text state "reloaded") _ _ refl tt)))

pub at_verb :
    (P : String → Type 0) (verbs : List String) (verb : String)
    → All P verbs
    → contains verbs verb ≡ true
    → P verb
at_verb P [] verb ps h = absurd (false≢true h)
at_verb P (v ∷ verbs) verb ps h = elim (Bool-cases (v == verb)) [
  | inl e ↦ subst P ((eq_iff v verb).0 e) ps.0
  | inr e ↦ at_verb P verbs verb ps.1 (ground arith)
]

-- A host where a command does what its words say, whatever was run before, and where no command
-- with one of these verbs fails. A question may fail, as `is-active` does for a unit that is
-- stopped.
pub record IsSteady (h : Host) (params : Dict) (name : String) (answer : List String → Completed)
    : Type 0 where
  pub answers : (call : Call) (log : Session) → h.command (call ∷ log) ≡ ok (answer call.words)
  pub succeeds :
      All (λ verb. (answer (systemctl params ++ (verb ∷ name ∷ []))).returncode ≡ 0) changing
