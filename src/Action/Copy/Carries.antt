-- ===== src/Action/Copy/Carries.antt =====
-- The bytes that a copy writes are the bytes that it was given.
use ansible_go.Base.{◌≡◌, refl, String, Bool, true, [], ◌∷◌, contains, ◌⊎◌, inl, inr}
use ansible_go.Value.{Value, Dict, get, str}
use ansible_go.Run.Keeps.{Keeps, Keeps-bind, Keeps-lift, keeps_rules}
use ansible_go.Env.{Env, Event, rpc, Bytes}
use ansible_go.Client
use ansible_go.Params.{FileArgs}
use ansible_go.Params.Laws.{write_params_members}
use ansible_go.World.{World, Task, Link}
use ansible_go.World.Laws.{Only, OnlyOn, IsLawful, OnlyOn-call, Only-on_client}
use ansible_go.Action.Copy.Data.{
  Copy, keep_content, write_args, write, replace, settle, into_directory, transfer, copy_data,
}

-- A WriteFile request carries the content, and the other requests are those that write no content.
abbrev pub Carries : String → Event → Type 0
Carries content (rpc r) =
    (contains ("Hello" ∷ "Stat" ∷ "ReadFile" ∷ "File" ∷ []) r.method ≡ true)
    ⊎ ((r.method ≡ "WriteFile") × (get r.params "content" ≡ str content))
Carries content e = Unit

module _ (env : Env) (c : Copy) where
  abbrev Writes : World → Type 0
  Writes = Only (Carries (env.b64encode c.bytes))

  abbrev OnChannel : Client.Channel → Type 0
  OnChannel = OnlyOn (Carries (env.b64encode c.bytes))

  Carries-stat :
      (path : Value) (follow checksum : Bool) (algorithm : Value)
      → Keeps OnChannel (Client.stat env path follow checksum algorithm)
  unfolding Client.stat
  Carries-stat path follow checksum algorithm = OnlyOn-call env "Stat" _ (λ id. inl refl)

  Carries-read_file : (path : Value) → Keeps OnChannel (Client.read_file env path)
  unfolding Client.read_file
  Carries-read_file path = OnlyOn-call env "ReadFile" _ (λ id. inl refl)

  Carries-file : (a : FileArgs) → Keeps OnChannel (Client.file env a)
  unfolding Client.file
  Carries-file a = OnlyOn-call env "File" _ (λ id. inl refl)

  Carries-write_file :
      (dest : Value) → Keeps OnChannel (Client.write_file env (write_args env c dest))
  unfolding Client.write_file write_args
  Carries-write_file dest =
      OnlyOn-call env "WriteFile" _
        (λ id. inr (refl, (write_params_members (write_args env c dest)).1))

  ruleset carries_rules = (
    keeps_rules, Only-on_client, Carries-stat, Carries-read_file, Carries-file, Carries-write_file,
  )

  Carries-keep_content :
      (result : Dict) (dest : Value) → Keeps Writes (keep_content env c result dest)
  unfolding keep_content
  Carries-keep_content result dest = search carries_rules depth 12

  Carries-write : (result : Dict) (dest : Value) → Keeps Writes (write env c result dest)
  unfolding write
  Carries-write result dest = search carries_rules depth 12

  Carries-replace :
      (result : Dict) (dest : Value) (remote : Dict)
      → Keeps Writes (replace env c result dest remote)
  unfolding replace
  Carries-replace result dest remote = search (carries_rules, Carries-write) depth 12

  Carries-settle :
      (result : Dict) (dest : Value) (remote : Dict)
      → Keeps Writes (settle env c result dest remote)
  unfolding settle
  Carries-settle result dest remote =
      search (carries_rules, Carries-keep_content, Carries-replace) depth 12

  Carries-into_directory :
      (result : Dict) (dest : Value) → Keeps Writes (into_directory env c result dest)
  unfolding into_directory
  Carries-into_directory result dest = search (carries_rules, Carries-settle) depth 14

  Carries-transfer : (result : Dict) (dest : Value) → Keeps Writes (transfer env c result dest)
  unfolding transfer
  Carries-transfer result dest =
      search (carries_rules, Carries-settle, Carries-into_directory) depth 14

contains-hello :
    (m : String) → m ≡ "Hello" → contains ("Hello" ∷ "Stat" ∷ "ReadFile" ∷ "File" ∷ []) m ≡ true
contains-hello m h = rw h refl

module _ (env : Env) (link : Link) (L : IsLawful link) (task : Task) where
  Carries-connect : (content : String) → Keeps (Only (Carries content)) link.connect
  Carries-connect content =
      L.events (Carries content) (λ s. tt) (λ r h. inl (contains-hello r.method h))

  -- Every WriteFile request of a copy over a lawful connection carries the bytes that are copied,
  -- in base64, wherever the copy goes; the other requests are handshakes, Stat, ReadFile and File.
  pub copy_data-Carries :
      (bytes : Bytes) (dest : Value)
      → Keeps (Only (Carries (env.b64encode bytes))) (copy_data env link task bytes dest)
  unfolding copy_data
  copy_data-Carries bytes dest =
      Keeps-bind _ _ (Keeps-lift _)
        (λ result. Keeps-bind _ _ (Carries-connect _) (λ u. Carries-transfer env _ result dest))
