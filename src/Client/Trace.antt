-- ===== src/Client/Trace.antt =====
-- The trace of the requests (_trace_hint, _trace and the parts of `call` that use them), behind the
-- environment variable FASTAGENT_TRACE.
use ansible_go.Base.{
  ℕ, zero, suc, ◌+◌, String, Bool, ◌==◌, Char, code, eqb, none, some, List, [], ◌∷◌, join, contains,
  if◌then◌else◌,
}
use ansible_go.Value.{
  Value, str, list, Values, nil, cons, Dict, empty, entry, get, get_or, truthy, or_value, iterate,
}
use ansible_go.Run.{Result, ok, err, io_error, bad_value, Run}
use ansible_go.Env.{rpc, Response, closed, broken, reply, Env, text_of}
use ansible_go.Client.{Channel, read_response}
pub mod Laws

-- `s[:n]` over code points
abbrev pub clip : ℕ → String → String
clip zero s = ""
clip (suc n) String.[] = ""
clip (suc n) (String.◌∷◌ c s) = String.◌∷◌ c (clip n s)

abbrev blank : Char
blank = " "

-- `s.replace(c, " ")`, for the character c of a code point
abbrev pub spaced : ℕ → String → String
spaced n String.[] = ""
spaced n (String.◌∷◌ c s) = String.◌∷◌ (if eqb (code c) n then blank else c) (spaced n s)

-- The texts that `str.join` takes.
strings_of : Values → Result (List String)
strings_of nil = ok []
strings_of (cons (str s) vs) = elim (strings_of vs) [ ok more ↦ ok (s ∷ more) | err e ↦ err e ]
strings_of (cons v vs) = err (bad_value "sequence item: expected str instance")

-- `sep.join(vs)`
unfoldable pub joined : String → Values → Result String
unfolding strings_of
joined sep vs = elim (strings_of vs) [ ok parts ↦ ok (join sep parts) | err e ↦ err e ]

-- `cmd[:160].replace("\t", " ").replace("\n", " ")`, where only a text has `replace`
unfoldable pub command_hint : Value → Result String
command_hint (str s) = ok (spaced 10 (spaced 9 (clip 160 s)))
command_hint v = err (bad_value "object has no attribute 'replace'")

-- `" ".join(argv)`, for what can be iterated
unfoldable pub argv_hint : Value → Result String
argv_hint argv = elim (iterate argv) [
  | some vs ↦ elim (joined " " vs) [ ok s ↦ command_hint (str s) | err e ↦ err e ]
  | none ↦ err (bad_value "can only join an iterable")
]

module _ (env : Env) where
  -- `(",".join(names) if isinstance(names, list) else str(names))[:160]`
  unfoldable pub names_hint : Value → Result String
  names_hint (list vs) = elim (joined "," vs) [ ok s ↦ ok (clip 160 s) | err e ↦ err e ]
  names_hint v = ok (clip 160 (text_of env v))

  -- `str(params.get(key, ""))[:160]`
  abbrev pub member_hint : String → Dict → String
  member_hint key params = clip 160 (text_of env (get_or params key (str "")))

  -- `_trace_hint`
  unfoldable pub trace_hint : String → Dict → Result String
  trace_hint method empty = ok ""
  trace_hint method (entry k v d) =
      let params = entry k v d in
      let cmd = get params "cmd_string" in
      if method == "Exec"
      then if truthy cmd
        then command_hint cmd
        else argv_hint (or_value (get params "argv") (list nil))
      else if contains ("Stat" ∷ "ReadFile" ∷ "File" ∷ []) method
      then ok (member_hint "path" params)
      else if method == "WriteFile"
      then ok (member_hint "dest" params)
      else if method == "Package"
      then names_hint (or_value (get params "names") (list nil))
      else if method == "Service"
      then ok (member_hint "name" params)
      else ok ""

-- The trace file as the client meets it: its path, which is empty where FASTAGENT_TRACE is not
-- set; the clock and the time that a request took, rendered; and what comes of appending a line, as
-- functions of the lines so far. An error may be an OSError or another, such as the
-- UnicodeEncodeError of a text with a lone surrogate.
pub record Tracer : Type 0 where
  pub path : String
  pub stamp : List String → String
  pub took : List String → String
  pub appends : List String → String → Result (Unit {0})

unfoldable pub trace_line : Tracer → String → String → List String → String
trace_line t method hint lines =
    join "" (t.stamp lines ∷ "\t" ∷ method ∷ "\t" ∷ t.took lines ∷ "\t" ∷ hint ∷ "\n" ∷ [])

-- `try: … except OSError: pass`, around the append of the line
unfoldable pub unless_os_error :
    Result (Unit {0}) → String → List String → Result (Unit {0}) × List String
unless_os_error (ok done) line lines = (ok tt, line ∷ lines)
unless_os_error (err (io_error message)) line lines = (ok tt, lines)
unless_os_error (err e) line lines = (err e, lines)

-- `_trace`, over the lines of the file, newest first
unfoldable pub trace : Tracer → String → String → List String → Result (Unit {0}) × List String
trace t method hint lines =
    let line = trace_line t method hint lines in
    if t.path == "" then (ok tt, lines) else unless_os_error (t.appends lines line) line lines

-- The decoder behind the trace, where the trace did not raise.
unfoldable pub after_trace :
    Result (Unit {0}) × List String → Result Dict → Result Dict × List String
after_trace (ok done, lines) response = (response, lines)
after_trace (err e, lines) response = (err e, lines)

-- The client with the trace file.
pub record Traced : Type 0 where
  pub channel : Channel
  pub lines : List String

module _ (env : Env) (t : Tracer) where
  -- What `call` makes of the line that it reads, with the trace in front of the decoder. A line
  -- that cannot be decoded counts as one that was not read.
  unfoldable pub traced_response :
      String → Dict → ℕ → Response → List String → Result Dict × List String
  traced_response method params id closed lines = (read_response env id closed, lines)
  traced_response method params id (broken e) lines = (read_response env id (broken e), lines)
  traced_response method params id (reply r) lines =
      if t.path == ""
      then (read_response env id (reply r), lines)
      else elim (trace_hint env method params) [
        | ok hint ↦ after_trace (trace t method hint lines) (read_response env id (reply r))
        | err e ↦ (err e, lines)
      ]

  -- `call`, with the trace
  unfoldable pub traced_call : String → Dict → Run Traced Dict
  traced_call method params w =
      let ch = w.channel in
      let log = rpc (record { id = ch.next_id; method = method; params = params }) ∷ ch.log in
      let answer = traced_response method params ch.next_id (env.agent log) w.lines in
      (
        answer.0,
        record { channel = record { next_id = ch.next_id + 1; log = log }; lines = answer.1 },
      )
