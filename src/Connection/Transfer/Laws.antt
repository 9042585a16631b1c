-- ===== src/Connection/Transfer/Laws.antt =====
-- Commands and files that Ansible sends over the connection.
use ansible_go.Base.{◌≡◌, refl, String, Bool, Option, ◌⊎◌, inl, inr}
use ansible_go.Value.{Value, str, get}
use ansible_go.Run.{Exn, attempt, handle, pure, ◌>>=◌, io_error, agent_error, ok}
use ansible_go.Run.Keeps.{Keeps, Keeps-raise, Keeps-bind, Keeps-if, Keeps-bind-lift, keeps_rules}
use ansible_go.Env.{Event, rpc, Env, Bytes}
use ansible_go.Client
use ansible_go.Params.Laws.{exec_params_members, write_params_members}
use ansible_go.World.{on_client, World, Link, PlayContext}
use ansible_go.World.Laws.{Only, OnlyOn, IsLawful, OnlyOn-call, Only-on_client}
use ansible_go.World.Become.{OnlyAs, OnlyAs-bind, OnlyAs-on_client, OnlyAs-connect}
use ansible_go.Action.Command.Laws.{ExecsAs}
use ansible_go.Connection.{Settings, path_there}
use ansible_go.Connection.Transfer.{
  command_user, command_args, caught, transfer_error, exec_command, put_args, put_file,
}

module _ (env : Env) where
  Keeps-caught : {P : World → Type 0} (e : Exn) → Keeps P (caught env e)
  unfolding caught
  Keeps-caught (io_error m) = search keeps_rules
  Keeps-caught (agent_error c m) = search keeps_rules
  Keeps-caught e = search Keeps-raise

  Keeps-transfer_error :
      {A : Type 0} {P : World → Type 0} (prefix : String) (e : Exn)
      → Keeps P (transfer_error env {A = A} prefix e)
  unfolding transfer_error
  Keeps-transfer_error prefix (io_error m) = search keeps_rules
  Keeps-transfer_error prefix (agent_error c m) = search keeps_rules
  Keeps-transfer_error prefix e = search Keeps-raise

  module _ (link : Link) (L : IsLawful link) (o : Settings) where
    module _ (play : PlayContext) (user : Option String) (sudoable : Bool) where
      abbrev As : World → Type 0
      As = OnlyAs (ExecsAs (command_user o sudoable user)) play user

      OnlyOn-exec :
          (cmd : String) (stdin : Value)
          → Keeps
              (OnlyOn (ExecsAs (command_user o sudoable user)))
              (Client.exec env (command_args cmd stdin (command_user o sudoable user)))
      unfolding Client.exec command_args
      OnlyOn-exec cmd stdin = OnlyOn-call env "Exec" _ (λ id.
          inr (
            refl,
            (exec_params_members (command_args cmd stdin (command_user o sudoable user))).11,
          ))

      As-connect : Keeps As link.connect
      As-connect = OnlyAs-connect _ play user link L (λ s. tt) (λ r h. inl h)

      -- A command that Ansible runs over the connection is sent to run as the become user, and one
      -- that is not `sudoable` as the SSH user; no other request but the handshake is sent.
      pub exec_command-ExecsAs :
          (cmd : String) (stdin : Value)
          → Keeps As (exec_command env link o play cmd stdin sudoable)
      unfolding exec_command
      exec_command-ExecsAs cmd stdin =
          search (OnlyAs-bind, keeps_rules, As-connect, Keeps-caught, OnlyAs-on_client, OnlyOn-exec)
            depth 14

    -- A WriteFile request to the path, with the bytes of a file of the controller.
    abbrev pub Puts : String → String → Event → Type 0
    Puts in_path out_path (rpc r) =
        (r.method ≡ "Hello")
        ⊎ ((r.method ≡ "WriteFile")
            × (get r.params "dest" ≡ str out_path)
            × ((bytes : Bytes) × (env.read_bytes in_path ≡ ok bytes)
                × (get r.params "content" ≡ str (env.b64encode bytes))))
    Puts in_path out_path e = Unit

    module _ (in_path out_path : String) where
      abbrev pub Putting : World → Type 0
      Putting = Only (Puts in_path out_path)

      OnlyOn-put :
          (bytes : Bytes)
          → env.read_bytes in_path ≡ ok bytes
          → Keeps
              (OnlyOn (Puts in_path out_path))
              (Client.write_file env (put_args env link o out_path bytes))
      unfolding Client.write_file put_args
      OnlyOn-put bytes e =
          let members = write_params_members (put_args env link o out_path bytes) in
          OnlyOn-call env "WriteFile" _ (λ id. inr (refl, members.0, (bytes, e, members.1)))

      Putting-connect : Keeps Putting link.connect
      Putting-connect = L.events (Puts in_path out_path) (λ s. tt) (λ r h. inl h)

      Putting-path_there : Keeps Putting (path_there env in_path)
      unfolding path_there
      Putting-path_there = record { at = λ w h. (tt, h) }

      Putting-write :
          (bytes : Bytes)
          → env.read_bytes in_path ≡ ok bytes
          → Keeps Putting (
              attempt (on_client (Client.write_file env (put_args env link o out_path bytes)))
              >>= λ answer.
                  handle answer
                    (transfer_error env "fastagent put_file failed: ")
                    (λ reply. pure tt))
      Putting-write bytes e =
          search (keeps_rules, Keeps-transfer_error, Only-on_client, OnlyOn-put) depth 10

      -- What `put_file` sends for a file of the controller is a request to write the bytes of that
      -- file, in base64, to the path asked for, and no other request but the handshake.
      pub put_file-Puts : Keeps Putting (put_file env link o in_path out_path)
      unfolding put_file
      put_file-Puts = Keeps-bind _ _ Putting-connect (λ u.
          Keeps-bind _ _ Putting-path_there (λ there.
            Keeps-if _ _ _ (Keeps-raise _)
              (Keeps-bind-lift (env.read_bytes in_path) _ Putting-write)))
