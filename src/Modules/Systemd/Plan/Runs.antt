-- ===== src/Modules/Systemd/Plan/Runs.antt =====
-- The systemd module runs the plan.
use ansible_go.Base.{String, Bool, false, List, [], ◌∷◌, ◌++◌, if◌then◌else◌}
use ansible_go.Value.{Dict, get, is_none}
use ansible_go.Run.{Run, Result, ok}
use ansible_go.Env.{Completed}
use ansible_go.Modules.{Session, Host, Answer}
use ansible_go.Modules.Systemd.{systemctl, report}
use ansible_go.Modules.Systemd.Plan.{IsSteady, call_of}

module _ (h : Host) (params : Dict) (name : String) (answer : List String → Completed)
    (steady : IsSteady h params name answer) where
  -- What systemctl answers to a question.
  abbrev shown : String → String
  shown question = h.strip (answer (systemctl params ++ (question ∷ name ∷ []))).stdout

  -- The question of the part that masks is asked only if the task says anything of it.
  abbrev asked : Session → Session
  asked log = if is_none (get params "masked") then log else call_of params name "is-enabled" ∷ log

  -- The report behind a session.
  abbrev ended : String → String → Bool → Session → Result Answer × Session
  ended active file_state changed log = (ok (report h false params active file_state changed), log)
