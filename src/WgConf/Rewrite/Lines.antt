-- ===== src/WgConf/Rewrite/Lines.antt =====
-- Which lines the rewriters change.
use wg_manager.Base.{
  ℕ, ◌-◌, ◌^◌, true, some, List, [], ◌∷◌, ◌++◌, ◌≡◌, ◌≢◌, refl, arith, ap, sym, ◌∙◌,
}
use wg_manager.Base.{Text, lit, text_eq, is_space, split, join, fields, map, drop, length}
use wg_manager.Base.{
  some_inj, subst, append_assoc, text_beq, Bool-cases, Option-cases, inl, inr, All, All-append,
  Lacks, IsWord, split-join, split-Lacks, fields-append, fields_word,
}
use wg_manager.Net.{IpNet, parse_cidr, ip_string, mask_to}
use wg_manager.Net.Print.{ip_string-IsWord, ip_string-Lacks}
use wg_manager.Subnet.{network_of}
use wg_manager.WgConf.{head_lines}
use wg_manager.WgConf.Rewrite.{
  rewrite_lines, rewrite_line, rewrite_wg_head, is_server, server_line, replace_server,
}
use wg_manager.WgConf.Rewrite.{rewrite_ovpn_server_line}

lines-rewrite_lines :
    (f : Text → Text) (ls : List Text)
    → rewrite_lines f ls ≡ map f (head_lines ls) ++ drop (length (head_lines ls)) ls
unfolding rewrite_lines head_lines
lines-rewrite_lines f [] = refl
lines-rewrite_lines f (l ∷ ls) = ground (arith, lines-rewrite_lines f ls)

-- Each line of the head is rewritten on its own, and everything from the first peer on is kept.
pub rewrite_wg_head-lines :
    (conf old_addr new_addr : Text)
    → rewrite_wg_head conf old_addr new_addr
      ≡ join (b'\n' ∷ []) (
          map
            (rewrite_line old_addr new_addr (network_of old_addr) (network_of new_addr))
            (head_lines (split b'\n' conf))
          ++ drop (length (head_lines (split b'\n' conf))) (split b'\n' conf))
unfolding rewrite_wg_head
rewrite_wg_head-lines conf old_addr new_addr = ap (join (b'\n' ∷ [])) (
    lines-rewrite_lines (rewrite_line old_addr new_addr (network_of old_addr) (network_of new_addr))
      (split b'\n' conf))

server-IsWord : IsWord (lit "server")
unfolding lit is_space
server-IsWord = ground arith

blank_space : is_space b' ' ≡ true
unfolding is_space
blank_space = refl

directive_parts :
    (a m : Text) → lit "server " ++ a ++ lit " " ++ m ≡ lit "server" ++ (b' ' ∷ (a ++ (b' ' ∷ m)))
unfolding lit
directive_parts a m = simp append_assoc

server_line_parts :
    (n : IpNet)
    → server_line n
      ≡ lit "server"
        ++ (b' ' ∷ (ip_string n.ip ++ (b' ' ∷ ip_string (mask_to n.ones (2 ^ 32 - 1)))))
unfolding server_line
server_line_parts n = directive_parts (ip_string n.ip) (ip_string (mask_to n.ones (2 ^ 32 - 1)))

server_words :
    (a m : Text)
    → IsWord a
    → IsWord m
    → fields (lit "server" ++ (b' ' ∷ (a ++ (b' ' ∷ m)))) ≡ lit "server" ∷ a ∷ m ∷ []
server_words a m ha hm = rw (
  fields-append (lit "server") b' ' (a ++ (b' ' ∷ m)) server-IsWord blank_space,
  fields-append a b' ' m ha blank_space,
  fields_word m hm,
)

pub server_line-is_server : (n : IpNet) → is_server (fields (server_line n)) ≡ true
unfolding is_server lit text_beq
server_line-is_server n =
    ap (λ w. is_server (fields w)) (server_line_parts n)
    ∙ ap is_server (
        server_words (ip_string n.ip) (ip_string (mask_to n.ones (2 ^ 32 - 1)))
          (ip_string-IsWord n.ip) (ip_string-IsWord (mask_to n.ones (2 ^ 32 - 1))))

replaced_again :
    (new : Text) (ls ks : List Text)
    → is_server (fields new) ≡ true
    → replace_server new ls ≡ some ks
    → replace_server new ks ≡ some ks
unfolding replace_server
replaced_again new [] ks h e = cc
replaced_again new (l ∷ ls) ks h e = elim (Bool-cases (is_server (fields l))) [
  | inl q ↦
      subst (λ (x : List Text). replace_server new x ≡ some x)
        (some_inj (rw (replace_server, q) at e)) (rw (replace_server, h))
  | inr q ↦ elim (Option-cases (replace_server new ls)) [
    | inl r ↦ cc (rw (q, r) at e)
    | inr (ms, r) ↦
        subst (λ (x : List Text). replace_server new x ≡ some x)
          (some_inj (rw (replace_server, q, r) at e))
          (rw (replace_server, q, replaced_again new ls ms h r))
  ]
]

replaced-Lacks :
    (new : Text) (ls ks : List Text)
    → Lacks b'\n' new
    → All (Lacks b'\n') ls
    → replace_server new ls ≡ some ks
    → All (Lacks b'\n') ks
unfolding replace_server
replaced-Lacks new [] ks n h e = cc
replaced-Lacks new (l ∷ ls) ks n (h, hs) e = elim (Bool-cases (is_server (fields l))) [
  | inl q ↦ subst (All (Lacks b'\n')) (some_inj (rw (replace_server, q) at e)) (n, hs)
  | inr q ↦ elim (Option-cases (replace_server new ls)) [
    | inl r ↦ cc (rw (q, r) at e)
    | inr (ms, r) ↦
        subst (All (Lacks b'\n')) (some_inj (rw (replace_server, q, r) at e))
          (h, replaced-Lacks new ls ms n hs r)
  ]
]

pub server_line-Lacks : (n : IpNet) → Lacks b'\n' (server_line n)
server_line-Lacks n = subst (Lacks b'\n') (sym (server_line_parts n)) (
    All-append _ (lit "server") _ directive (
      blank,
      All-append _ (ip_string n.ip) _ (ip_string-Lacks b'\n' n.ip refl other)
          (blank, ip_string-Lacks b'\n' (mask_to n.ones (2 ^ 32 - 1)) refl other),
    ))
  where
    directive : Lacks b'\n' (lit "server")
    directive = unfold lit in ground arith

    blank : (◌≢◌ {A = ℕ}) b' ' b'\n'
    blank = omega arith

    other : (◌≢◌ {A = ℕ}) b'\n' b'.'
    other = omega arith

split-join_lines :
    (ks : List Text) → ks ≢ [] → All (Lacks b'\n') ks → split b'\n' (join (b'\n' ∷ []) ks) ≡ ks
split-join_lines [] ne h = absurd (ne refl)
split-join_lines (w ∷ ws) ne (h, hs) = split-join b'\n' w ws h hs

replaced-ne-nil : (new : Text) (ls ks : List Text) → replace_server new ls ≡ some ks → ks ≢ []
unfolding replace_server
replaced-ne-nil new ls [] e = absurd (go ls e)
  where
    go : (ls : List Text) → replace_server new ls ≢ some []
    go [] q = cc
    go (l ∷ ls) q = ground (arith, q)
replaced-ne-nil new ls (k ∷ ks) e = λ q. cc

pub rewritten :
    (conf subnet : Text) (ip : ℕ) (n : IpNet) (ks : List Text)
    → parse_cidr subnet ≡ some (ip, n)
    → replace_server (server_line n) (split b'\n' conf) ≡ some ks
    → rewrite_ovpn_server_line conf subnet ≡ (join (b'\n' ∷ []) ks, true)
unfolding rewrite_ovpn_server_line
rewritten conf subnet ip n ks p r = rw (rewrite_ovpn_server_line, p, r)

-- Writing the directive again changes nothing: it is found where it was put, and stays.
pub rewrite_ovpn_server_line-again :
    (conf out subnet : Text)
    → rewrite_ovpn_server_line conf subnet ≡ (out, true)
    → rewrite_ovpn_server_line out subnet ≡ (out, true)
unfolding rewrite_ovpn_server_line
rewrite_ovpn_server_line-again conf out subnet e = elim (Option-cases (parse_cidr subnet)) [
  | inl p ↦ cc (rw (rewrite_ovpn_server_line, p) at e)
  | inr ((ip, n), p) ↦ elim (Option-cases (replace_server (server_line n) (split b'\n' conf))) [
    | inl r ↦ cc (rw (rewrite_ovpn_server_line, p, r) at e)
    | inr (ks, r) ↦
        let k : join (b'\n' ∷ []) ks ≡ out =
          ap (λ x. x.0) (sym (rewritten conf subnet ip n ks p r) ∙ e) in
        let lines : split b'\n' (join (b'\n' ∷ []) ks) ≡ ks =
          split-join_lines ks (replaced-ne-nil (server_line n) _ ks r) (
            replaced-Lacks (server_line n) _ ks (server_line-Lacks n) (split-Lacks b'\n' conf) r) in
        subst (λ (x : Text). rewrite_ovpn_server_line x subnet ≡ (x, true)) k
          (rewritten (join (b'\n' ∷ []) ks) subnet ip n ks p (
            ap (replace_server (server_line n)) lines
            ∙ replaced_again (server_line n) _ ks (server_line-is_server n) r))
  ]
]
