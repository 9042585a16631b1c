-- ===== src/Client/Laws.antt =====
-- What a call of the client does, whatever the agent answers.
use ansible_go.Base.{
  ℕ, ◌+◌, ◌<◌, ◌≡◌, refl, subst, sym, ◌↔◌, ◌⊎◌, String, true, none, some, List, [], ◌∷◌, arith,
}
use ansible_go.Value.{eq_text, get_or, str, Dict, empty, entry, eq_nat}
use ansible_go.Run.{Result, err, continue, pure, raise, ◌>>=◌, ok}
use ansible_go.Run.Keeps.{Keeps, keeps_rules}
use ansible_go.Env.{Event, rpc, Response, closed, broken, reply, Env}
use ansible_go.Client.{Channel, check_error, read_response, call, check_version, hello}

-- The identifiers of the requests fall from the newest to the oldest, and all lie below n.
abbrev pub Descends : ℕ → List Event → Type 0
Descends n [] = Unit
Descends n (rpc r ∷ log) = (r.id < n) × Descends r.id log
Descends n (_ ∷ log) = Descends n log

-- No identifier was used twice, and the next one is fresh.
abbrev pub IsFresh : Channel → Type 0
IsFresh ch = Descends ch.next_id ch.log

-- The response carries the request's identifier and no error, and `d` is its result.
abbrev pub Answers : ℕ → Response → Dict → Type 0
Answers id closed d = ⊥
Answers id (broken e) d = ⊥
Answers id (reply r) d =
    (eq_nat r.id id ≡ true)
    × (r.error ≡ none)
    × ((r.result ≡ some d) ⊎ ((r.result ≡ none) × (d ≡ empty)))

module _ (env : Env) where
  -- A call writes one request, with the method, the parameters and the next identifier, and
  -- moves the counter on, also when it raises.
  pub call_state :
      (method : String) (params : Dict) (ch : Channel)
      → ((call env method params ch).1.next_id ≡ ch.next_id + 1)
        × ((call env method params ch).1.log
            ≡ rpc (record { id = ch.next_id; method = method; params = params }) ∷ ch.log)
  unfolding call
  call_state method params ch = (refl, refl)

  -- A call keeps the identifiers of the requests distinct: none is used twice, also after a call
  -- that raises.
  pub call-IsFresh : (method : String) (params : Dict) → Keeps IsFresh (call env method params)
  unfolding call
  call-IsFresh method params = record { at = λ ch h. (omega arith, h) }

  check_version-IsFresh :
      (version : String) (result : Dict) → Keeps IsFresh (check_version env version result)
  unfolding check_version
  check_version-IsFresh version result = search keeps_rules

  pub hello-IsFresh : (version : String) → Keeps IsFresh (hello env version)
  unfolding hello
  hello-IsFresh version = search (keeps_rules, call-IsFresh, check_version-IsFresh)

  -- A response is taken as a result exactly when it carries the request's identifier and no error:
  -- its result is returned, and an empty dict where it has none.
  pub read_response_iff :
      (id : ℕ) (r : Response) (d : Dict) → (read_response env id r ≡ ok d) ↔ Answers id r d
  unfolding read_response check_error
  read_response_iff id closed d = (λ h. cc, λ h. absurd h)
  read_response_iff id (broken e) d = (λ h. cc, λ h. absurd h)
  read_response_iff id (reply r) d = (λ h. ground arith, λ h. ground arith)

  -- A handshake that returns has met an agent of the version asked for.
  pub hello_version :
      (version : String) (ch : Channel) {d : Dict}
      → (hello env version ch).0 ≡ ok d
      → eq_text (get_or d "version" (str "")) version ≡ true
  unfolding hello call check_version ◌>>=◌ pure raise
  hello_version version ch h = ground arith

  -- What a handshake returns is what its call returned, and the check leaves the channel alone.
  returned :
      (version : String) (r : Result Dict) (ch : Channel) {d : Dict}
      → (continue r (check_version env version) ch).0 ≡ ok d
      → (r ≡ ok d) × ((continue r (check_version env version) ch).1 ≡ ch)
  unfolding check_version pure raise
  returned version (ok x) ch h = ground arith
  returned version (err e) ch h = (h, refl)

  -- A handshake that returns has met an answer without an error.
  pub hello-Answers :
      (version : String) (ch : Channel) {d : Dict}
      → (hello env version ch).0 ≡ ok d
      → Answers ch.next_id (env.agent (hello env version ch).1.log) d
  unfolding hello call ◌>>=◌
  hello-Answers version ch {d} h =
      let r =
        read_response env ch.next_id
          (env.agent (call env "Hello" (entry "version" (str version) empty) ch).1.log) in
      let same = returned version r _ h in
      subst (λ (s : Channel). Answers ch.next_id (env.agent s.log) d) (sym same.1)
        ((read_response_iff ch.next_id _ d).0 same.0)
