-- ===== src/Client.antt =====
-- The RPC client (plugins/module_utils/fastagent_client.py): one method of the class for each
-- definition, over the channel to one agent process.
use ansible_go.Base.{ℕ, ◌+◌, String, ◌<>◌, Bool, Option, none, some, List, ◌∷◌, if◌then◌else◌}
use ansible_go.Value.{Value, nat, str, Dict, empty, entry, get_or, eq_nat, eq_text}
use ansible_go.Run.{
  agent_error, version_mismatch, io_error, Result, ok, err, Run, pure, raise, ◌>>=◌,
}
use ansible_go.Params.{
  exec_params, ExecArgs, stat_params, WriteArgs, write_params, FileArgs, file_params,
  package_params, ServiceArgs, service_params,
}
use ansible_go.Env.{Request, Event, rpc, Reply, Response, closed, broken, reply, Env, text_of}
pub mod Laws
pub mod Trace

-- The client object with the far end of its two streams: its counter, and what was done so far.
pub record Channel : Type 0 where
  pub next_id : ℕ
  pub log : List Event

-- The member "error", if it is there and is not null.
check_error : Option Dict → Option Dict → Result Dict
check_error none none = ok empty
check_error none (some result) = ok result
check_error (some e) result =
    err (agent_error (get_or e "code" (nat 1)) (get_or e "message" (str "unknown error")))

module _ (env : Env) where
  -- What `call` makes of the line that it reads.
  unfoldable pub read_response : ℕ → Response → Result Dict
  unfolding check_error
  read_response id closed = err (io_error "fastagent: no response (agent process may have exited)")
  read_response id (broken e) = err e
  read_response id (reply r) =
      if eq_nat r.id id
      then check_error r.error r.result
      else err (
          io_error (
            "fastagent: response id mismatch: expected "
            <> text_of env (nat id)
            <> ", got "
            <> text_of env r.id))

  unfoldable pub call : String → Dict → Run Channel Dict
  unfolding read_response
  call method params ch =
      let log = rpc (record { id = ch.next_id; method = method; params = params }) ∷ ch.log in
      (read_response ch.next_id (env.agent log), record { next_id = ch.next_id + 1; log = log })

  unfoldable pub check_version : String → Dict → Run Channel Dict
  check_version version result =
      if eq_text (get_or result "version" (str "")) version
      then pure result
      else raise (version_mismatch version (get_or result "version" (str "")))

  unfoldable pub hello : String → Run Channel Dict
  unfolding check_version
  hello version = do
    result ← call "Hello" (entry "version" (str version) empty)
    check_version version result

  unfoldable pub exec : ExecArgs → Run Channel Dict
  exec a = call "Exec" (exec_params a)

  unfoldable pub stat : Value → Bool → Bool → Value → Run Channel Dict
  stat path follow checksum algorithm = call "Stat" (stat_params path follow checksum algorithm)

  unfoldable pub read_file : Value → Run Channel Dict
  read_file path = call "ReadFile" (entry "path" path empty)

  unfoldable pub write_file : WriteArgs → Run Channel Dict
  write_file a = call "WriteFile" (write_params a)

  unfoldable pub file : FileArgs → Run Channel Dict
  file a = call "File" (file_params a)

  unfoldable pub package_call : String → List String → String → Run Channel Dict
  package_call manager names state = call "Package" (package_params manager names state)

  unfoldable pub service : ServiceArgs → Run Channel Dict
  service a = call "Service" (service_params a)
