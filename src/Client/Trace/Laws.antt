-- ===== src/Client/Trace/Laws.antt =====
-- What the trace can do to a call, and how long its hints are.
use ansible_go.Base.{
  ℕ, zero, suc, ◌≤◌, ◌≡◌, refl, ap, sym, subst, ◌∙◌, String, Bool, true, false, arith, ◌==◌, List,
  [], ◌∷◌, if◌then◌else◌, Option, some, none, contains, Bool-cases, ◌⊎◌, inl, inr,
}
use ansible_go.Value.{Value, Values, str, list, Dict, empty, entry, iterate, get, truthy}
use ansible_go.Run.{
  Result, ok, err, Exn, io_error, agent_error, version_mismatch, connection_failure, ansible_error,
  no_client, bad_value,
}
use ansible_go.Run.Ensures.{ok-injective}
use ansible_go.Env.{Response, closed, broken, reply, Env}
use ansible_go.Client.{call, read_response}
use ansible_go.Client.Trace.{
  clip, spaced, joined, command_hint, argv_hint, names_hint, trace_hint, Tracer, Traced,
  traced_response, traced_call, trace, trace_line, unless_os_error, after_trace,
}

-- The number of code points.
abbrev pub length : String → ℕ
length String.[] = 0
length (String.◌∷◌ c s) = suc (length s)

length-clip : (n : ℕ) (s : String) → length (clip n s) ≤ n
length-clip zero s = omega arith
length-clip (suc n) String.[] = omega arith
length-clip (suc n) (String.◌∷◌ c s) = (let l = length-clip n s in omega arith)

length-spaced : (n : ℕ) (s : String) → length (spaced n s) ≡ length s
length-spaced n String.[] = refl
length-spaced n (String.◌∷◌ c s) = ap suc (length-spaced n s)

-- A hint is short, where there is one.
abbrev Short : Result String → Type 0
Short r = (h : String) → r ≡ ok h → length h ≤ 160

Short-ok : (s : String) → length s ≤ 160 → Short (ok s)
Short-ok s l h e = subst (λ t. length t ≤ 160) (ok-injective s h e) l

Short-err : (e : Exn) → Short (err e)
Short-err e h x = cc

Short-if : (b : Bool) (r q : Result String) → Short r → Short q → Short (if b then r else q)
Short-if true r q k l = k
Short-if false r q k l = l

Short-clip : (s : String) → Short (ok (clip 160 s))
Short-clip s = Short-ok (clip 160 s) (length-clip 160 s)

Short-command_hint : (v : Value) → Short (command_hint v)
unfolding command_hint
Short-command_hint (str s) =
    let l = length-clip 160 s in
    Short-ok _ (subst (λ n. n ≤ 160) (sym (length-spaced 10 _ ∙ length-spaced 9 _)) l)
Short-command_hint v = Short-err _

Short-joined :
    (r : Result String) (f : String → Result String)
    → ((s : String) → Short (f s))
    → Short (elim r [ ok s ↦ f s | err e ↦ err e ])
Short-joined (ok s) f k = k s
Short-joined (err e) f k = Short-err e

Short-listed :
    (vs : Option Values) (f : Values → Result String) (e : Exn)
    → ((ws : Values) → Short (f ws))
    → Short (elim vs [ some ws ↦ f ws | none ↦ err e ])
Short-listed (some ws) f e k = k ws
Short-listed none f e k = Short-err e

Short-argv_hint : (v : Value) → Short (argv_hint v)
unfolding argv_hint
Short-argv_hint v =
    Short-listed (iterate v) _ _
      (λ vs. Short-joined (joined " " vs) _ (λ s. Short-command_hint (str s)))

Result-cases : (r : Result String) → ((s : String) × (r ≡ ok s)) ⊎ ((e : Exn) × (r ≡ err e))
Result-cases (ok s) = inl (s, refl)
Result-cases (err e) = inr (e, refl)

-- No OSError.
abbrev pub NotOs : Exn → Type 0
NotOs (io_error message) = ⊥
NotOs e = Unit

module _ (env : Env) where
  Short-names_hint : (v : Value) → Short (names_hint env v)
  unfolding names_hint
  Short-names_hint (list vs) = Short-joined (joined "," vs) _ (λ s. Short-clip s)
  Short-names_hint v = Short-clip _

  -- A hint, where it can be built, has at most 160 code points, whatever is sent.
  pub trace_hint-IsShort :
      (method : String) (params : Dict) (hint : String)
      → trace_hint env method params ≡ ok hint
      → length hint ≤ 160
  unfolding trace_hint
  trace_hint-IsShort method empty = Short-ok "" (omega arith)
  trace_hint-IsShort method (entry k v d) =
      Short-if (method == "Exec") _ _
        (Short-if (truthy (get (entry k v d) "cmd_string")) _ _ (Short-command_hint _)
          (Short-argv_hint _))
        (Short-if (contains ("Stat" ∷ "ReadFile" ∷ "File" ∷ []) method) _ _ (Short-clip _) (
          Short-if (method == "WriteFile") _ _ (Short-clip _) (
            Short-if (method == "Package") _ _ (Short-names_hint _)
              (Short-if (method == "Service") _ _ (Short-clip _) (Short-ok "" (omega arith))))))

  module _ (t : Tracer) where
    -- Why the trace may end a call with an exception: the hint cannot be built, or its line cannot
    -- be appended, and not by an OSError.
    abbrev pub Blames : String → Dict → List String → Exn → Type 0
    Blames method params lines e =
        (trace_hint env method params ≡ err e)
        ⊎ ((hint : String) × (trace_hint env method params ≡ ok hint)
            × (t.appends lines (trace_line t method hint lines) ≡ err e)
            × NotOs e)

    -- The answer is the one without the trace, or tracing is on and has an exception to blame.
    abbrev Either : String → Dict → List String → Result Dict → Result Dict → Type 0
    Either method params lines traced plain =
        (traced ≡ plain)
        ⊎ ((e : Exn) × (traced ≡ err e) × ((t.path == "") ≡ false) × Blames method params lines e)

    after_append :
        (r : Result (Unit {0})) (line : String) (lines : List String) (response : Result Dict)
        → ((after_trace (unless_os_error r line lines) response).0 ≡ response)
          ⊎ ((e : Exn) × ((after_trace (unless_os_error r line lines) response).0 ≡ err e)
              × (r ≡ err e)
              × NotOs e)
    unfolding unless_os_error after_trace
    after_append (ok done) line lines response = inl refl
    after_append (err (io_error message)) line lines response = inl refl
    after_append (err (agent_error c m)) line lines response = inr (_, refl, refl, tt)
    after_append (err (version_mismatch x a)) line lines response = inr (_, refl, refl, tt)
    after_append (err (connection_failure m)) line lines response = inr (_, refl, refl, tt)
    after_append (err (ansible_error m)) line lines response = inr (_, refl, refl, tt)
    after_append (err no_client) line lines response = inr (_, refl, refl, tt)
    after_append (err (bad_value m)) line lines response = inr (_, refl, refl, tt)

    after_hint :
        (method : String) (params : Dict) (hint : String) (lines : List String)
        (response : Result Dict)
        → trace_hint env method params ≡ ok hint
        → (t.path == "") ≡ false
        → Either method params lines (after_trace (trace t method hint lines) response).0 response
    unfolding trace
    after_hint method params hint lines response h on =
        let line = trace_line t method hint lines in
        elim (after_append (t.appends lines line) line lines response) [
          | inl same ↦ inl (rw on same)
          | inr (e, raised, failed, other) ↦ inr (e, rw on raised, on, inr (hint, h, failed, other))
        ]

    either :
        (method : String) (params : Dict) (id : ℕ) (r : Response) (lines : List String)
        → Either method params lines
            (traced_response env t method params id r lines).0
            (read_response env id r)
    unfolding traced_response
    either method params id closed lines = inl refl
    either method params id (broken x) lines = inl refl
    either method params id (reply r) lines = elim (Bool-cases (t.path == "")) [
      | inl off ↦ inl (rw off refl)
      | inr on ↦ elim (Result-cases (trace_hint env method params)) [
        | inl (hint, h) ↦
            subst (λ x. Either method params lines x (read_response env id (reply r)))
              (sym (rw (on, h) refl)) (after_hint method params hint lines _ h on)
        | inr (e, h) ↦ inr (e, rw (on, h) refl, on, inl h)
      ]
    ]

    -- With the trace file a call writes the same request. It has the same result or exception as
    -- without the trace, or else tracing is on and the call raises what the hint or the append
    -- of the line raised: an OSError of the append is passed over, and no other exception is.
    pub traced_call-cases :
        (method : String) (params : Dict) (w : Traced)
        → ((traced_call env t method params w).1.channel ≡ (call env method params w.channel).1)
          × (((traced_call env t method params w).0 ≡ (call env method params w.channel).0)
              ⊎ ((e : Exn) × ((traced_call env t method params w).0 ≡ err e)
                  × ((t.path == "") ≡ false)
                  × Blames method params w.lines e))
    unfolding traced_call call
    traced_call-cases method params w = (refl, either method params _ _ w.lines)
