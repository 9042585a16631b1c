-- ===== src/World/Calls.antt =====
-- Which requests the client's methods send.
use ansible_go.Base.{ℕ, some, ap, ◌∙◌, ◌≡◌, String, Bool, true, List, contains, inr}
use ansible_go.Value.{Value, Dict}
use ansible_go.Run.Keeps.{Keeps}
use ansible_go.Env.{Env}
use ansible_go.Client
use ansible_go.Client.{Channel}
use ansible_go.Run.{Run, ok}
use ansible_go.World.{World, on_client, use_client, after_client}
use ansible_go.World.Laws.{OnlyOn, Sends, OnlyOn-call, Only-on_client}

module _ (methods modules : List String) (env : Env) where
  pub Sends-call :
      (method : String) (params : Dict)
      → contains methods method ≡ true
      → Keeps (OnlyOn (Sends methods modules)) (Client.call env method params)
  Sends-call method params h = OnlyOn-call env method params (λ id. inr h)

  pub Sends-stat :
      (path : Value) (follow checksum : Bool) (algorithm : Value)
      → contains methods "Stat" ≡ true
      → Keeps (OnlyOn (Sends methods modules)) (Client.stat env path follow checksum algorithm)
  unfolding Client.stat
  Sends-stat path follow checksum algorithm h = Sends-call "Stat" _ h

  pub Sends-read_file :
      (path : Value)
      → contains methods "ReadFile" ≡ true
      → Keeps (OnlyOn (Sends methods modules)) (Client.read_file env path)
  unfolding Client.read_file
  Sends-read_file path h = Sends-call "ReadFile" _ h

-- What a method of a client that is there leaves.
pub on_client-returns :
    {A : Type 0} (m : Run Channel A) (w : World) (n : ℕ) (a : A) (ch : Channel)
    → w.client ≡ some n
    → m (record { next_id = n; log = w.log }) ≡ (ok a, ch)
    → on_client m w ≡ (ok a, record w { client = some ch.next_id; log = ch.log })
unfolding on_client use_client after_client
on_client-returns m w n a ch up e = ap (λ c. use_client m c w) up ∙ after m w n a ch e
  where
    after :
        {A : Type 0} (m : Run Channel A) (w : World) (n : ℕ) (a : A) (ch : Channel)
        → m (record { next_id = n; log = w.log }) ≡ (ok a, ch)
        → use_client m (some n) w ≡ (ok a, record w { client = some ch.next_id; log = ch.log })
    after m w n a ch e = ap (after_client w) e

pub ruleset sends_rules = (Only-on_client, Sends-call, Sends-stat, Sends-read_file)
