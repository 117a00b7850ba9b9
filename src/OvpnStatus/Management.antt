-- ===== src/OvpnStatus/Management.antt =====
-- The management socket of OpenVPN: `ovpnUsageMgmt` (ovpn.go).
use wg_manager.Base.{
  Bool, true, false, Option, none, some, List, [], ◌∷◌, ◌++◌, Text, lit, if◌then◌else◌, has_prefix,
  trim_prefix,
}
use wg_manager.Base.{ℤ, Dict}
use wg_manager.OvpnStatus.{parse_ovpn_status}

-- The network and the address that are dialled.
unfoldable pub mgmt_target : Text → Text × Text
mgmt_target mgmt =
    if has_prefix mgmt (lit "unix:")
    then (lit "unix", trim_prefix mgmt (lit "unix:"))
    else (lit "tcp", mgmt)

-- The loop over the lines that are read, left behind the first that begins with `END`.
unfoldable pub status_text : List Text → Text
status_text [] = []
status_text (line ∷ lines) =
    let rest = status_text lines in
    line ++ (b'\n' ∷ (if has_prefix line (lit "END") then [] else rest))

-- Whether such a line comes, so that an error behind it is not seen.
unfoldable pub reaches_end : List Text → Bool
reaches_end [] = false
reaches_end (line ∷ lines) =
    let rest = reaches_end lines in if has_prefix line (lit "END") then true else rest

-- `ovpnUsageMgmt`: what the socket gives, `none` if it cannot be dialled or written, and otherwise the
-- lines and whether the reading stopped with an error.
unfoldable pub ovpn_usage_mgmt : (Text × Text → Option (List Text × Bool)) → Text → Option (Dict ℤ)
unfolding mgmt_target status_text reaches_end parse_ovpn_status
ovpn_usage_mgmt dial mgmt = elim (dial (mgmt_target mgmt)) [
  | none ↦ none
  | some (lines, failed) ↦
      if reaches_end lines
      then some (parse_ovpn_status (status_text lines))
      else if failed
      then none
      else some (parse_ovpn_status (status_text lines))
]
