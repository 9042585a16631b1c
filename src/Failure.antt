-- ===== src/Failure.antt =====
-- Results that the action plugins share.
use ansible_go.Base.{◌≡◌, String, true, ◌<>◌}
use ansible_go.Value.{bool, str, Dict, get, set}
use ansible_go.Value.Laws.{dict_laws}
use ansible_go.Run.{Exn}
use ansible_go.Env.{Env}

-- `result["failed"] = True; result["msg"] = message; return result`
abbrev pub failed : Dict → String → Dict
failed result message = set (set result "failed" (bool true)) "msg" (str message)

-- The same with `f"{prefix}{e}"`.
abbrev pub failed_with : Env → Dict → String → Exn → Dict
failed_with env result prefix e = failed result (prefix <> env.show_exn e)

-- Ansible takes the task as failed.
abbrev pub IsFailed : Dict → Type 0
IsFailed result = get result "failed" ≡ bool true

pub IsFailed-failed : (result : Dict) (message : String) → IsFailed (failed result message)
IsFailed-failed result message = simp dict_laws
