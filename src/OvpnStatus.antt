-- ===== src/OvpnStatus.antt =====
-- OpenVPN's status output (ovpn.go): the bytes of each common name, and where they are read from.
pub mod Newest
pub mod Management
use wg_manager.Base.{
  ℕ, Bool, true, false, not, ◌&&◌, ◌||◌, Option, none, some, List, [], ◌∷◌, Text, lit, text_eq,
  nat_eq,
}
use wg_manager.Base.{
  ◌==◌, if◌then◌else◌, is_empty, trim, trim_right, is_space, split, parse_int, ℤ, pos, add64,
}
use wg_manager.Base.{Dict, insert, lookup_or, ltb}
use wg_manager.Settings.{Config}

-- `addOvpnBytes`
unfoldable pub add_ovpn_bytes : Text → Text → Text → Dict ℤ → Dict ℤ
unfolding insert lookup_or
add_ovpn_bytes name rx tx m =
    let cn = trim is_space name in
    if is_empty cn || cn == lit "UNDEF"
    then m
    else insert cn
        (add64 (lookup_or (pos 0) cn m)
          (add64 (parse_int (trim is_space rx)).0 (parse_int (trim is_space tx)).0))
        m

-- Whether the loop is inside the client list of the plain file, and the sums so far.
pub record Progress : Type 0 where
  pub inside : Bool
  pub sums : Dict ℤ

unfoldable pub ends_list : Text → Bool
ends_list t = t == lit "ROUTING TABLE" || t == lit "GLOBAL STATS" || t == lit "END"

-- The last two cases of the `switch`: the end of the list, and a row of the plain file.
unfoldable pub plain_row : List Text → Progress → Progress
unfolding add_ovpn_bytes ends_list
plain_row [] s = s
plain_row (a ∷ b ∷ c ∷ d ∷ f) s =
    if ends_list a
    then record s { inside = false }
    else if s.inside
    then record s { sums = add_ovpn_bytes a c d s.sums }
    else s
plain_row (a ∷ f) s = if ends_list a then record s { inside = false } else s

-- The `switch` on the fields of a line.
unfoldable pub status_row : List Text → Progress → Progress
unfolding plain_row
status_row (a ∷ b ∷ c ∷ d ∷ e ∷ f ∷ g ∷ more) s =
    if a == lit "CLIENT_LIST"
    then record s { sums = add_ovpn_bytes b f g s.sums }
    else if a == lit "Common Name" && c == lit "Bytes Received"
    then record s { inside = true }
    else plain_row (a ∷ b ∷ c ∷ d ∷ e ∷ f ∷ g ∷ more) s
status_row (a ∷ b ∷ c ∷ d ∷ e ∷ more) s =
    if a == lit "Common Name" && c == lit "Bytes Received"
    then record s { inside = true }
    else plain_row (a ∷ b ∷ c ∷ d ∷ e ∷ more) s
status_row f s = plain_row f s

unfoldable pub status_lines : List Text → Progress → Progress
unfolding status_row
status_lines [] s = s
status_lines (line ∷ lines) s =
    status_lines lines (status_row (split b',' (trim_right (λ c. c == b'\r') line)) s)

-- `parseOvpnStatus`
unfoldable pub parse_ovpn_status : Text → Dict ℤ
unfolding status_lines
parse_ovpn_status out = (status_lines (split b'\n' out) (record { inside = false; sums = [] })).sums

-- A candidate for the status file: its path, its size and its modification time, if it exists.
pub record Candidate : Type 0 where
  pub path : Text
  pub size : ℕ
  pub modified : ℕ

-- The loop of `resolveOvpnStatus`; the time 0 is the zero time.
unfoldable pub newest : List (Option Candidate) → Text → ℕ → Text
newest [] best modified = best
newest (none ∷ cs) best modified = newest cs best modified
newest (some c ∷ cs) best modified =
    let skip = newest cs best modified in
    let take = newest cs c.path c.modified in
    if c.size == 0 then skip else if ltb modified c.modified then take else skip

-- `resolveOvpnStatus`
unfoldable pub resolve_ovpn_status : Config → List (Option Candidate) → Text
unfolding newest
resolve_ovpn_status cfg candidates =
    if not (is_empty cfg.ovpn_status) then cfg.ovpn_status else newest candidates [] 0

-- `ovpnUsage`: `read` reads a file, and `management` asks the management socket.
unfoldable pub ovpn_usage :
    Config → List (Option Candidate) → (Text → Option Text) → (Text → Option Text) → Dict ℤ
unfolding resolve_ovpn_status parse_ovpn_status
ovpn_usage cfg candidates read management =
    if is_empty cfg.ovpn_mgmt && is_empty cfg.ovpn_status
    then []
    else let file = resolve_ovpn_status cfg candidates in
      let from_socket : Dict ℤ =
        if is_empty cfg.ovpn_mgmt
        then []
        else elim (management cfg.ovpn_mgmt) [ none ↦ [] | some out ↦ parse_ovpn_status out ] in
      if is_empty file
      then from_socket
      else elim (read file) [ some out ↦ parse_ovpn_status out | none ↦ from_socket ]
