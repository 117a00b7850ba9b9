-- ===== src/Profiles/Moved.antt =====
-- A generated server file whose `server` line is rewritten is the file that would be generated for
-- the new subnet.
use wg_manager.Base.{
  ℕ, true, false, none, some, List, [], ◌∷◌, ◌++◌, Text, lit, ◌≡◌, refl, arith, ap, sym, ◌∙◌,
}
use wg_manager.Base.{
  Lacks, IsWord, is_space, fields, fields_from, cons_head, fields-append, split, split-append, join,
  join-split, join-cons, split-ne-nil, text_eq, text_beq, ◌==◌, All, append_assoc, ◌≢◌,
  Option-cases, inl, inr,
}
use wg_manager.Net.{IpNet, parse_cidr}
use wg_manager.Settings.{Config}
use wg_manager.Recharge.{ok, ok_inj}
use wg_manager.WgConf.Rewrite.{rewrite_ovpn_server_line, replace_server, is_server, server_line}
use wg_manager.WgConf.Rewrite.Lines.{rewritten, server_line-is_server, server_line-Lacks}
use wg_manager.Profiles.{lines_text, server_conf_head, server_conf_tail, ovpn_server_conf}

split-lines_text :
    (ls : List Text) (rest : Text)
    → All (Lacks b'\n') ls
    → split b'\n' (lines_text ls rest) ≡ ls ++ split b'\n' rest
unfolding lines_text
split-lines_text [] rest h = refl
split-lines_text (l ∷ ls) rest (h, hs) =
    split-append b'\n' l (lines_text ls rest) h ∙ ap (◌∷◌ l) (split-lines_text ls rest hs)

behind-ne-nil : (ls : List Text) (rest : Text) → (ls ++ split b'\n' rest) ≢ []
behind-ne-nil [] rest = split-ne-nil b'\n' rest
behind-ne-nil (l ∷ ls) rest = λ e. cc

join-lines_text :
    (ls : List Text) (rest : Text) → join (b'\n' ∷ []) (ls ++ split b'\n' rest) ≡ lines_text ls rest
unfolding lines_text join
join-lines_text [] rest = join-split b'\n' rest
join-lines_text (l ∷ ls) rest =
    join-cons (b'\n' ∷ []) l (ls ++ split b'\n' rest) (behind-ne-nil ls rest)
    ∙ simp append_assoc (ap (λ (x : Text). l ++ (b'\n' ∷ x)) (join-lines_text ls rest))

replaced_behind :
    (new s : Text) (hs rest : List Text)
    → All (λ l. is_server (fields l) ≡ false) hs
    → is_server (fields s) ≡ true
    → replace_server new (hs ++ (s ∷ rest)) ≡ some (hs ++ (new ∷ rest))
unfolding replace_server
replaced_behind new s [] rest h e = rw e
replaced_behind new s (l ∷ hs) rest (q, h) e = rw (q, replaced_behind new s hs rest h e)

not_server : (a : Text) (fs : List Text) → (a == lit "server") ≡ false → is_server (a ∷ fs) ≡ false
unfolding is_server
not_server a [] h = refl
not_server a (b ∷ []) h = refl
not_server a (b ∷ c ∷ fs) h = h

-- A line of another directive.
other_directive :
    (w rest : Text)
    → IsWord w
    → (w == lit "server") ≡ false
    → is_server (fields (w ++ (b' ' ∷ rest))) ≡ false
unfolding is_space
other_directive w rest h e =
    ap is_server (fields-append w b' ' rest h refl) ∙ not_server w (fields rest) e

head_not_server : (cfg : Config) → All (λ l. is_server (fields l) ≡ false) (server_conf_head cfg)
unfolding server_conf_head lit is_server fields fields_from cons_head is_space text_beq
head_not_server cfg = (
  refl,
  (
    not_server (lit "port") (fields cfg.ovpn_port) refl,
    (not_server (lit "proto") (fields cfg.ovpn_proto) refl, (refl, (refl, tt))),
  ),
)

head-Lacks :
    (cfg : Config)
    → Lacks b'\n' cfg.ovpn_port
    → Lacks b'\n' cfg.ovpn_proto
    → All (Lacks b'\n') (server_conf_head cfg)
unfolding server_conf_head lit
head-Lacks cfg h k = ground arith

-- The file around a `server` line.
abbrev conf_with : Config → Text → Text
conf_with cfg server =
    lines_text (server_conf_head cfg) (server ++ (b'\n' ∷ lines_text (server_conf_tail cfg) []))

ovpn_server_conf-parsed :
    (cfg : Config) (ip : ℕ) (n : IpNet)
    → parse_cidr cfg.ovpn_subnet ≡ some (ip, n)
    → ovpn_server_conf cfg ≡ ok (conf_with cfg (server_line n))
unfolding ovpn_server_conf
ovpn_server_conf-parsed cfg ip n e = rw (ovpn_server_conf, e)

ovpn_server_conf-bad :
    (cfg : Config) (conf : Text)
    → parse_cidr cfg.ovpn_subnet ≡ none
    → ovpn_server_conf cfg ≢ ok conf
unfolding ovpn_server_conf
ovpn_server_conf-bad cfg conf q e = cc (rw (ovpn_server_conf, q) at e)

split-conf_with :
    (cfg : Config) (n : IpNet)
    → All (Lacks b'\n') (server_conf_head cfg)
    → split b'\n' (conf_with cfg (server_line n))
      ≡ server_conf_head cfg ++ (server_line n ∷ split b'\n' (lines_text (server_conf_tail cfg) []))
split-conf_with cfg n h =
    split-lines_text (server_conf_head cfg) _ h
    ∙ ap (λ (x : List Text). server_conf_head cfg ++ x)
        (split-append b'\n' (server_line n) (lines_text (server_conf_tail cfg) [])
          (server_line-Lacks n))

join-conf_with :
    (cfg : Config) (m : IpNet)
    → join (b'\n' ∷ []) (
        server_conf_head cfg
        ++ (server_line m ∷ split b'\n' (lines_text (server_conf_tail cfg) [])))
      ≡ conf_with cfg (server_line m)
join-conf_with cfg m =
    ap (λ (x : List Text). join (b'\n' ∷ []) (server_conf_head cfg ++ x))
      (sym (
        split-append b'\n' (server_line m) (lines_text (server_conf_tail cfg) [])
          (server_line-Lacks m)))
    ∙ join-lines_text (server_conf_head cfg)
        (server_line m ++ (b'\n' ∷ lines_text (server_conf_tail cfg) []))

rewrite-conf_with :
    (cfg : Config) (subnet : Text) (ip : ℕ) (n m : IpNet)
    → All (Lacks b'\n') (server_conf_head cfg)
    → parse_cidr subnet ≡ some (ip, m)
    → rewrite_ovpn_server_line (conf_with cfg (server_line n)) subnet
      ≡ (conf_with cfg (server_line m), true)
rewrite-conf_with cfg subnet ip n m h p =
    rewritten (conf_with cfg (server_line n)) subnet ip m _ p (
      ap (replace_server (server_line m)) (split-conf_with cfg n h)
      ∙ replaced_behind (server_line m) (server_line n) (server_conf_head cfg)
          (split b'\n' (lines_text (server_conf_tail cfg) [])) (head_not_server cfg)
          (server_line-is_server n))
    ∙ ap (λ (x : Text). (x, true)) (join-conf_with cfg m)

-- Rewriting the `server` line of a generated file gives the file that is generated for the new
-- subnet, if the port and the protocol of the settings are single lines.
pub rewrite_ovpn_server_line-ovpn_server_conf :
    (cfg : Config) (conf subnet : Text) (ip : ℕ) (m : IpNet)
    → Lacks b'\n' cfg.ovpn_port
    → Lacks b'\n' cfg.ovpn_proto
    → ovpn_server_conf cfg ≡ ok conf
    → parse_cidr subnet ≡ some (ip, m)
    → (out : Text) × (rewrite_ovpn_server_line conf subnet ≡ (out, true))
      × (ovpn_server_conf (record cfg { ovpn_subnet = subnet }) ≡ ok out)
unfolding server_conf_head server_conf_tail
rewrite_ovpn_server_line-ovpn_server_conf cfg conf subnet ip m hp hq e p =
    elim (Option-cases (parse_cidr cfg.ovpn_subnet)) [
      | inl q ↦ absurd (ovpn_server_conf-bad cfg conf q e)
      | inr ((old_ip, n), q) ↦
          let h = head-Lacks cfg hp hq in
          let k : conf_with cfg (server_line n) ≡ conf =
            ok_inj (sym (ovpn_server_conf-parsed cfg old_ip n q) ∙ e) in
          (
            conf_with cfg (server_line m),
            sym (ap (λ (x : Text). rewrite_ovpn_server_line x subnet) k)
                ∙ rewrite-conf_with cfg subnet ip n m h p,
            ovpn_server_conf-parsed (record cfg { ovpn_subnet = subnet }) ip m p,
          )
    ]
