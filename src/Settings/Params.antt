-- ===== src/Settings/Params.antt =====
-- Files of `KEY=value` lines: `parseParamsData` and `setParamValue` (migration.go), and
-- `parseParams` (main.go), which reads the same format.
use wg_manager.Base.{Bool, false, ◌||◌, none, some, List, [], ◌∷◌, ◌++◌, Text, lit, text_eq}
use wg_manager.Base.{
  nat_eq, ◌==◌, if◌then◌else◌, is_empty, trim, is_space, has_prefix, cut, split, join, Dict, insert,
}

-- One line: a comment and an empty line are skipped, and a line without a key.
unfoldable pub param_line : Text → Dict Text → Dict Text
unfolding insert
param_line line m = if is_empty line || has_prefix line (lit "#") then m else elim (cut b'=' line) [
  | none ↦ m
  | some (k, v) ↦ if is_empty k then m else insert (trim is_space k) (trim is_space v) m
]

unfoldable pub param_lines : List Text → Dict Text → Dict Text
unfolding param_line
param_lines [] m = m
param_lines (line ∷ lines) m = param_lines lines (param_line (trim is_space line) m)

-- `parseParamsData`
unfoldable pub parse_params_data : Text → Dict Text
unfolding param_lines
parse_params_data file = param_lines (split b'\n' file) []

-- `strings.ReplaceAll(s, "\r\n", "\n")`
unfoldable pub drop_returns : Text → Text
drop_returns [] = []
drop_returns (c ∷ []) = c ∷ []
drop_returns (c ∷ d ∷ s) =
    let rest = drop_returns (d ∷ s) in
    if c == b'\r' then (if d == b'\n' then rest else c ∷ rest) else c ∷ rest

-- The line is the setting of the key.
unfoldable pub sets_key : Text → Text → Bool
sets_key key line = has_prefix (trim is_space line) (key ++ (b'=' ∷ []))

abbrev pub setting : Text → Text → Text
setting key value = key ++ (b'=' ∷ value)

unfoldable pub replace_lines : Text → Text → List Text → List Text
unfolding sets_key
replace_lines key value [] = []
replace_lines key value (l ∷ ls) =
    (if sets_key key l then setting key value else l) ∷ replace_lines key value ls

unfoldable pub is_set : Text → List Text → Bool
unfolding sets_key
is_set key [] = false
is_set key (l ∷ ls) = sets_key key l || is_set key ls

-- Puts the new line at the end, in front of a last line that is empty.
unfoldable pub append_line : Text → List Text → List Text
append_line new [] = new ∷ []
append_line new (l ∷ []) = if is_empty l then new ∷ [] ∷ [] else l ∷ new ∷ []
append_line new (l ∷ k ∷ ls) = l ∷ append_line new (k ∷ ls)

unfoldable pub ends_with_newline : Text → Bool
ends_with_newline [] = false
ends_with_newline (c ∷ []) = c == b'\n'
ends_with_newline (c ∷ d ∷ s) = ends_with_newline (d ∷ s)

unfoldable pub param_text : Text → Text → List Text → Text
unfolding replace_lines is_set append_line ends_with_newline
param_text key value lines =
    let found = replace_lines key value lines in
    let out =
      join (b'\n' ∷ [])
        (if is_set key lines then found else append_line (setting key value) found) in
    if ends_with_newline out then out else out ++ (b'\n' ∷ [])

-- `setParamValue`
unfoldable pub set_param_value : Text → Text → Text → Text
unfolding param_text drop_returns
set_param_value file key value =
    if is_empty key || is_empty value
    then file
    else param_text key value (split b'\n' (drop_returns file))
