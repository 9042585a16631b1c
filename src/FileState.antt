-- ===== src/FileState.antt =====
-- State and mode of the file module (plugins/module_utils/file_state.py).
use ansible_go.Base.{
  ℕ, suc, ◌+◌, String, ◌<>◌, Bool, true, false, not, ◌&&◌, ◌||◌, codes, starts_with, if◌then◌else◌,
}
use ansible_go.Value.{
  ℤ, pos, negsuc, Value, null, bool, int, str, Dict, get_or, get, truthy, is_none, eq_text,
  is_one_of,
}
use ansible_go.Run.{Run, pure, ◌>>=◌}
use ansible_go.Env.{Env, text_of}
use ansible_go.Client.{Channel, stat}
use ansible_go.Octal.{octal, is_int8}
pub mod Laws

-- `if not s.startswith("0"): s = "0" + s`
abbrev pub zero_prefixed : String → String
zero_prefixed s = if starts_with s "0" then s else "0" <> s

-- `f"0{n:o}"`
abbrev pub octal_of_int : ℤ → String
octal_of_int (pos n) = "0" <> octal n
octal_of_int (negsuc n) = "0-" <> octal (suc n)

module _ (env : Env) where
  -- None stands both for no mode and for a mode that is not supported.
  unfoldable pub format_octal_mode : Value → Value
  format_octal_mode null = null
  format_octal_mode (int n) = str (octal_of_int n)
  format_octal_mode (bool true) = str "01"
  format_octal_mode (bool false) = str "00"
  format_octal_mode v =
      let s = text_of env v in if is_int8 (codes s) then str (zero_prefixed s) else null

  unfoldable pub requires_builtin_file : Dict → Bool
  requires_builtin_file args =
      let state = get args "state" in
      let src = get args "src" in
      let timed =
        not (is_none (get args "modification_time"))
        || not (is_none (get args "access_time"))
        || not (is_none (get args "modification_time_format"))
        || not (is_none (get args "access_time_format")) in
      let links = eq_text state "link" || eq_text state "hard" || (is_none state && truthy src) in
      let follow = get args "follow" in
      if is_none (format_octal_mode (get args "mode")) && not (is_none (get args "mode"))
      then true
      else if timed
      then true
      else if links
      then true
      else if not (is_none follow) && not (truthy follow)
      then not (eq_text state "absent")
      else false

  unfoldable pub infer_file_state : Value → Value → Value → Bool → Bool → Run Channel Value
  infer_file_state path state src recurse follow =
      if not (is_none state)
      then pure state
      else if truthy src
      then pure (str "link")
      else if recurse
      then pure (str "directory")
      else do
        found ← stat env path follow false null
        let is_dir =
            truthy (get_or found "exists" (bool false))
            && truthy (get_or found "isdir" (bool false))
        if is_dir then pure (str "directory") else pure (str "file")
