-- ===== src/WgConf.antt =====
-- The WireGuard configuration file (main.go): its head, the peer section that is rendered from the
-- table, and the import of peers from it; and the rewritten configuration files of a wider pool
-- (subnet.go).
pub mod Import
pub mod Rewrite
use wg_manager.Base.{
  ℕ, ◌+◌, Bool, true, false, not, ◌&&◌, ◌||◌, Option, none, some, List, [], ◌∷◌, ◌++◌,
}
use wg_manager.Base.{
  Text, lit, text_eq, nat_eq, ◌==◌, if◌then◌else◌, is_empty, trim, trim_right, is_space,
}
use wg_manager.Base.{has_prefix, cut, split, join, elem, leb, map, all}
use wg_manager.Store.{Peer, Table, all_peers}
use wg_manager.Net.Ipv6.{is_ipv6_cidr}
use wg_manager.Net.{IpNet, parse_cidr, ip_string, next_free_host}
use wg_manager.Recharge.{Result, ok, err}

-- `peerMarker`
unfoldable pub peer_marker : Text
unfolding lit
peer_marker = lit "# >>> wgmgr managed peers (do not edit below) >>>"

-- `isHeadEnd`
unfoldable pub is_head_end : Text → Bool
unfolding peer_marker
is_head_end t =
    t == peer_marker
    || t == lit "[Peer]"
    || has_prefix t (lit "### Client")
    || has_prefix t (lit "# >>> wgmgr")

-- The lines before the first one that ends the head.
unfoldable pub head_lines : List Text → List Text
unfolding is_head_end
head_lines [] = []
head_lines (l ∷ ls) =
    let rest = head_lines ls in if is_head_end (trim is_space l) then [] else l ∷ rest

-- `confHead`. Without an end the source returns the text itself, which is what its lines joined are.
unfoldable pub conf_head : Text → Text
unfolding head_lines
conf_head conf = join (b'\n' ∷ []) (head_lines (split b'\n' conf))

-- `strings.ToLower`, on ASCII; no other character has its lower case in the word looked for.
unfoldable pub to_lower : Text → Text
to_lower [] = []
to_lower (c ∷ s) = (if leb b'A' c && leb c b'Z' then c + 32 else c) ∷ to_lower s

-- `t[strings.Index(t, sep)+1:]`
unfoldable pub after_first : ℕ → Text → Text
after_first sep t = elim (cut sep t) [ none ↦ t | some (a, b) ↦ b ]

-- `strings.Split(t, sep)[0]`
unfoldable pub before_first : ℕ → Text → Text
before_first sep t = elim (cut sep t) [ none ↦ t | some (a, b) ↦ a ]

-- A network of an `Address` line: of IPv4 with its address, or of IPv6.
pub data HeadNet : Type 0 where
  ipv4 : ℕ × IpNet → HeadNet
  ipv6 : HeadNet

-- The first network of a line, if it is an `Address` line whose first value is one.
unfoldable pub address_line : Text → Option HeadNet
unfolding to_lower after_first before_first
address_line t =
    let first = trim is_space (before_first b',' (after_first b'=' t)) in
    if has_prefix (to_lower t) (lit "address")
    then elim (parse_cidr first) [
      | some a ↦ some (ipv4 a)
      | none ↦ if is_ipv6_cidr first then some ipv6 else none
    ]
    else none

-- The last network of the head.
unfoldable pub head_address : List Text → Option HeadNet → Option HeadNet
unfolding address_line
head_address [] found = found
head_address (l ∷ ls) found =
    head_address ls (elim (address_line (trim is_space l)) [ none ↦ found | some a ↦ some a ])

-- `interfaceHead`: the head and its network.
unfoldable pub wg_head : Text → Result (Text × HeadNet)
unfolding head_lines head_address
wg_head conf =
    let lines = head_lines (split b'\n' conf) in
    elim (head_address lines none) [
      | none ↦ err (lit "could not parse Address/subnet")
      | some found ↦ ok (join (b'\n' ∷ []) lines, found)
    ]

-- `interfaceHead` for the callers that take addresses from the network: the head, the server's
-- address and the IPv4 network. With an IPv6 network the source goes on, and the model, which has
-- only IPv4 addresses, stops with an error of its own.
unfoldable pub interface_head : Text → Result (Text × ℕ × IpNet)
unfolding wg_head
interface_head conf = elim (wg_head conf) [
  | err e ↦ err e
  | ok (head, found) ↦ elim found [
    | ipv4 (ip, n) ↦ ok (head, ip, n)
    | ipv6 ↦ err (lit "the model has no IPv6 networks")
  ]
]

-- The lines of one user; one without a WireGuard key has none.
unfoldable pub peer_text : Peer → Text
peer_text p =
    lit "\n### wgmgr:"
    ++ p.username
    ++ lit "\n[Peer]\nPublicKey = "
    ++ p.public_key
    ++ lit "\n"
    ++ (if is_empty p.psk then [] else lit "PresharedKey = " ++ p.psk ++ lit "\n")
    ++ lit "AllowedIPs = "
    ++ p.address
    ++ lit "/32\n"

unfoldable pub peer_texts : List Peer → Text
unfolding peer_text
peer_texts [] = []
peer_texts (p ∷ ps) = (if is_empty p.public_key then [] else peer_text p) ++ peer_texts ps

-- `renderPeerSection`
unfoldable pub render_peer_section : Table → Text
unfolding peer_texts
render_peer_section t = lit "\n\n" ++ peer_marker ++ lit "\n" ++ peer_texts (all_peers t)

-- `nextFreeIP`
unfoldable pub next_free_ip : Table → Text → Result Text
unfolding interface_head
next_free_ip t conf = elim (interface_head conf) [
  | err e ↦ err e
  | ok (head, server, n) ↦
      elim (next_free_host n (ip_string server ∷ map (λ p. p.address) (all_peers t))) [
        | none ↦ err (lit "no free IP")
        | some ip ↦ ok ip
      ]
]

-- Every key of the interface is the key of some row.
unfoldable pub live_known : List Text → Table → Bool
live_known live t = all (λ key. elem key (map (λ p. p.public_key) (all_peers t))) live

-- `renderConf`: the new file, which the interface then takes over. `live` lists the keys of the
-- running interface.
unfoldable pub render_conf : Bool → List Text → Table → Text → Result Text
unfolding live_known wg_head render_peer_section
render_conf force live t conf =
    if not force && not (live_known live t)
    then err (lit "refusing to render")
    else elim (wg_head conf) [
      | err e ↦ err e
      | ok (head, found) ↦ ok (trim_right (λ c. c == b'\n') head ++ render_peer_section t)
    ]
