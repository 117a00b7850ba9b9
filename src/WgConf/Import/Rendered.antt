-- ===== src/WgConf/Import/Rendered.antt =====
-- The import reads back what the rendered peer section says.
use wg_manager.Base.{
  ℕ, Bool, true, false, not, ◌&&◌, Option, none, some, List, [], ◌∷◌, ◌++◌, ◌≡◌, ◌≢◌, refl, arith,
  ap, sym, ◌∙◌,
}
use wg_manager.Base.{
  Text, lit, text_eq, text_beq, if◌then◌else◌, is_empty, trim, trim_left, trim_right, is_space,
  split, All, All-append, Lacks,
}
use wg_manager.Base.{
  IsWord, HasNoSpace, has_prefix, trim_prefix, after_prefix, Bool-cases, inl, inr, HasNoSpace-Lacks,
  cut-append, cut-none, trim_right_lem, split-append, append_assoc, trim_lem, map, keep,
}
use wg_manager.Store.{Peer, Table}
use wg_manager.WgConf.{
  peer_text, peer_texts, peer_marker, render_peer_section, after_first, before_first,
}
use wg_manager.WgConf.Import.{Section, no_section, import_line, sections}

-- The section that the import reads for a user.
abbrev pub section_of : Peer → Section
section_of p = record {
  name = p.username;
  key = p.public_key;
  psk = p.psk;
  ip = p.address ++ lit "/32";
}

-- What the render may write so that it can be read back: words, and a key that may be missing.
pub record IsPlain (p : Peer) : Type 0 where
  pub name_word : IsWord p.username
  pub key_word : IsWord p.public_key
  pub psk_word : HasNoSpace p.psk
  pub ip_word : HasNoSpace p.address
  pub no_comma : Lacks b',' p.address

-- A text that begins and ends with a character that is not white space is not trimmed.
trim_right-append : (a w : Text) → IsWord w → trim_right is_space (a ++ w) ≡ a ++ w
unfolding trim_right
trim_right-append [] w (ne, h) = trim_right_lem is_space w h
trim_right-append (c ∷ a) w h = rw (trim_right-append a w h) (keeps (a ++ w) (not_empty a w h.0))
  where
    not_empty : (a w : Text) → w ≢ [] → is_empty (a ++ w) ≡ false
    not_empty [] [] ne = absurd (ne refl)
    not_empty [] (x ∷ w) ne = refl
    not_empty (x ∷ a) w ne = refl

    keeps :
        (s : Text) → is_empty s ≡ false → (if is_empty s && is_space c then [] else c ∷ s) ≡ c ∷ s
    keeps s e = rw e

trim-append :
    (c : ℕ) (a w : Text)
    → is_space c ≡ false
    → IsWord w
    → trim is_space ((c ∷ a) ++ w) ≡ (c ∷ a) ++ w
unfolding trim trim_left
trim-append c a w e h = rw e (trim_right-append (c ∷ a) w h)

trim_blank : (w : Text) → HasNoSpace w → trim is_space (b' ' ∷ w) ≡ w
unfolding trim trim_left
trim_blank w h = unfold is_space in trim_lem is_space w h

after_first-append : (b : ℕ) (l r : Text) → Lacks b l → after_first b (l ++ (b ∷ r)) ≡ r
unfolding after_first
after_first-append b l r h = rw (after_first, cut-append b l r h)

before_first_none : (b : ℕ) (s : Text) → Lacks b s → before_first b s ≡ s
unfolding before_first
before_first_none b s h = rw (before_first, cut-none b s h)

-- The lines of one user.
abbrev heading : Text → Text
heading u = lit "### wgmgr:" ++ u

abbrev key_line : Text → Text
key_line k = lit "PublicKey " ++ (b'=' ∷ b' ' ∷ k)

abbrev psk_line : Text → Text
psk_line k = lit "PresharedKey " ++ (b'=' ∷ b' ' ∷ k)

abbrev ip_line : Text → Text
ip_line ip = lit "AllowedIPs " ++ (b'=' ∷ b' ' ∷ (ip ++ lit "/32"))

import_heading :
    (u : Text) (s : Section)
    → IsWord u
    → import_line (trim is_space (heading u)) s ≡ (some s, record no_section { name = u })
unfolding import_line lit has_prefix trim_prefix after_prefix is_space
import_heading u s w =
    ap (λ t. import_line t s) (trim-append b'#' (lit "## wgmgr:") u refl w)
    ∙ ap {B = Option Section × Section} (λ n. (some s, record no_section { name = n }))
        (trim_lem is_space u w.1)

import_blank : (s : Section) → import_line (trim is_space []) s ≡ (none, s)
unfolding import_line lit has_prefix trim trim_left trim_right text_beq
import_blank s = refl

import_peer_line : (s : Section) → import_line (trim is_space (lit "[Peer]")) s ≡ (none, s)
unfolding import_line lit has_prefix trim trim_left trim_right is_space text_beq
import_peer_line s = refl

import_key :
    (k : Text) (s : Section)
    → IsWord k
    → import_line (trim is_space (key_line k)) s ≡ (none, record s { key = k })
unfolding import_line lit has_prefix text_beq is_space
import_key k s w =
    ap (λ t. import_line t s) (trim-append b'P' (lit "ublicKey = ") k refl w)
    ∙ ap {B = Option Section × Section} (λ v. (none, record s { key = trim is_space v }))
        (after_first-append b'=' (lit "PublicKey ") (b' ' ∷ k) (unfold lit in ground arith))
    ∙ ap {B = Option Section × Section} (λ v. (none, record s { key = v })) (trim_blank k w.1)

import_psk :
    (k : Text) (s : Section)
    → IsWord k
    → import_line (trim is_space (psk_line k)) s ≡ (none, record s { psk = k })
unfolding import_line lit has_prefix text_beq is_space
import_psk k s w =
    ap (λ t. import_line t s) (trim-append b'P' (lit "resharedKey = ") k refl w)
    ∙ ap {B = Option Section × Section} (λ v. (none, record s { psk = trim is_space v }))
        (after_first-append b'=' (lit "PresharedKey ") (b' ' ∷ k) (unfold lit in ground arith))
    ∙ ap {B = Option Section × Section} (λ v. (none, record s { psk = v })) (trim_blank k w.1)

import_ip :
    (ip : Text) (s : Section)
    → HasNoSpace ip
    → Lacks b',' ip
    → import_line (trim is_space (ip_line ip)) s ≡ (none, record s { ip = ip ++ lit "/32" })
unfolding import_line lit has_prefix text_beq is_space
import_ip ip s w l =
    ap (λ t. import_line t s)
      (ap (trim is_space) regroup
        ∙ trim-append b'A' (lit "llowedIPs = " ++ ip) (lit "/32") refl suffix
        ∙ sym regroup)
    ∙ ap {B = Option Section × Section}
        (λ v. (none, record s { ip = trim is_space (before_first b',' v) }))
        (after_first-append b'=' (lit "AllowedIPs ") (b' ' ∷ (ip ++ lit "/32"))
          (unfold lit in ground arith))
    ∙ ap {B = Option Section × Section} (λ v. (none, record s { ip = trim is_space v }))
        (before_first_none b',' (b' ' ∷ (ip ++ lit "/32"))
          (ground arith, All-append _ ip (lit "/32") l (unfold lit in ground arith)))
    ∙ ap {B = Option Section × Section} (λ v. (none, record s { ip = v }))
        (trim_blank (ip ++ lit "/32") (All-append _ ip (lit "/32") w suffix.1))
  where
    suffix : IsWord (lit "/32")
    suffix = ground arith

    regroup : ip_line ip ≡ (b'A' ∷ (lit "llowedIPs = " ++ ip)) ++ lit "/32"
    regroup = refl

-- One more line in front, which closes no section, or one.
open_line :
    (l rest : Text) (s s' : Section)
    → Lacks b'\n' l
    → import_line (trim is_space l) s ≡ (none, s')
    → sections (split b'\n' (l ++ (b'\n' ∷ rest))) s ≡ sections (split b'\n' rest) s'
unfolding sections
open_line l rest s s' h e =
    rw (split-append b'\n' l rest h, sections, e) (ap (λ x. sections (split b'\n' rest) x.1) e)

close_line :
    (l rest : Text) (s c s' : Section)
    → Lacks b'\n' l
    → import_line (trim is_space l) s ≡ (some c, s')
    → sections (split b'\n' (l ++ (b'\n' ∷ rest))) s ≡ c ∷ sections (split b'\n' rest) s'
unfolding sections
close_line l rest s c s' h e =
    rw (split-append b'\n' l rest h, sections, e) (ap (λ x. c ∷ sections (split b'\n' rest) x.1) e)

plain-Lacks : (w : Text) → HasNoSpace w → Lacks b'\n' w
unfolding is_space
plain-Lacks w h = HasNoSpace-Lacks b'\n' w refl h

abbrev psk_part : Text → Text
psk_part k = if is_empty k then [] else lit "PresharedKey = " ++ k ++ lit "\n"

psk_part_lem :
    (c : ℕ) (k rest : Text) → psk_part (c ∷ k) ++ rest ≡ psk_line (c ∷ k) ++ (b'\n' ∷ rest)
unfolding lit
psk_part_lem c k rest = simp append_assoc

psk_sections :
    (k rest name key : Text)
    → HasNoSpace k
    → sections
        (split b'\n' (psk_part k ++ rest))
        (record { name = name; key = key; psk = []; ip = [] })
      ≡ sections (split b'\n' rest) (record { name = name; key = key; psk = k; ip = [] })
psk_sections [] rest name key h = refl
psk_sections (c ∷ k) rest name key h =
    ap (λ t. sections (split b'\n' t) (record { name = name; key = key; psk = []; ip = [] }))
      (psk_part_lem c k rest)
    ∙ open_line (psk_line (c ∷ k)) rest _ _
        (unfold lit in
          All-append (λ c. c ≢ b'\n') (lit "PresharedKey ") (b'=' ∷ b' ' ∷ c ∷ k) (ground arith)
            (ground arith, (ground arith, plain-Lacks (c ∷ k) h)))
        (import_psk (c ∷ k) (record { name = name; key = key; psk = []; ip = [] }) ((λ q. cc), h))

peer_text_lines :
    (p : Peer) (rest : Text)
    → peer_text p ++ rest
      ≡ b'\n'
        ∷ (heading p.username
            ++ (b'\n'
                ∷ (lit "[Peer]"
                    ++ (b'\n'
                        ∷ (key_line p.public_key
                            ++ (b'\n'
                                ∷ (psk_part p.psk ++ (ip_line p.address ++ (b'\n' ∷ rest)))))))))
unfolding peer_text lit
peer_text_lines p rest = simp append_assoc

-- The lines of a user close the section before and open the user's.
sections-peer_text :
    (p : Peer) (rest : Text) (s : Section)
    → IsPlain p
    → sections (split b'\n' (peer_text p ++ rest)) s
      ≡ s ∷ sections (split b'\n' rest) (section_of p)
unfolding no_section
sections-peer_text p rest s v =
    ap (λ t. sections (split b'\n' t) s) (peer_text_lines p rest)
    ∙ open_line [] _ s s tt (import_blank s)
    ∙ close_line (heading p.username) _ s s _
        (All-append (λ c. c ≢ b'\n') (lit "### wgmgr:") _ literal1
          (plain-Lacks p.username v.name_word.1))
        (import_heading p.username s v.name_word)
    ∙ ap (◌∷◌ s) (
        open_line (lit "[Peer]") _ _ _ literal2 (import_peer_line _)
        ∙ open_line (key_line p.public_key) _ _ _ literal3 (import_key p.public_key _ v.key_word)
        ∙ psk_sections p.psk _ p.username p.public_key v.psk_word
        ∙ open_line (ip_line p.address) rest _ _ literal4
            (import_ip p.address _ v.ip_word v.no_comma))
  where
    literal1 : Lacks b'\n' (lit "### wgmgr:")
    literal1 = unfold lit in ground arith

    literal2 : Lacks b'\n' (lit "[Peer]")
    literal2 = unfold lit in ground arith

    literal3 : Lacks b'\n' (key_line p.public_key)
    literal3 =
        unfold lit in
        All-append (λ c. c ≢ b'\n') (lit "PublicKey ") (b'=' ∷ b' ' ∷ p.public_key) (ground arith)
          (ground arith, (ground arith, plain-Lacks p.public_key v.key_word.1))

    literal4 : Lacks b'\n' (ip_line p.address)
    literal4 =
        unfold lit in
        All-append (λ c. c ≢ b'\n') (lit "AllowedIPs ") (b'=' ∷ b' ' ∷ (p.address ++ lit "/32"))
          (ground arith)
          (
            ground arith,
            (
              ground arith,
              All-append (λ c. c ≢ b'\n') p.address (lit "/32") (plain-Lacks p.address v.ip_word)
                  (ground arith),
            ),
          )

abbrev pub has_key : Peer → Bool
has_key p = not (is_empty p.public_key)

sections-peer_texts :
    (ps : List Peer) (s : Section)
    → All (λ p. has_key p ≡ true → IsPlain p) ps
    → sections (split b'\n' (peer_texts ps)) s ≡ s ∷ map section_of (keep has_key ps)
unfolding peer_texts
sections-peer_texts [] s h =
    unfold split sections import_line lit has_prefix trim trim_left trim_right text_beq in refl
sections-peer_texts (p ∷ ps) s (h, hs) = elim (Bool-cases (is_empty p.public_key)) [
  | inl e ↦ rw e (sections-peer_texts ps s hs)
  | inr e ↦ rw e (
      sections-peer_text p (peer_texts ps) s (h (rw e))
      ∙ ap (◌∷◌ s) (sections-peer_texts ps (section_of p) hs))
]

-- Importing the peer section that was rendered reads one section for each user with a WireGuard key,
-- in order, with the username, the key, the preshared key and the address of the row.
pub sections-render_peer_section :
    (t : Table)
    → All (λ p. has_key p ≡ true → IsPlain p) t.rows
    → sections (split b'\n' (render_peer_section t)) no_section
      ≡ no_section ∷ map section_of (keep has_key t.rows)
unfolding render_peer_section
sections-render_peer_section t h =
    ap (λ x. sections (split b'\n' x) no_section) (section_lines (peer_texts t.rows))
    ∙ open_line [] _ no_section no_section tt (import_blank no_section)
    ∙ open_line [] _ no_section no_section tt (import_blank no_section)
    ∙ open_line peer_marker _ no_section no_section marker-Lacks import_marker
    ∙ sections-peer_texts t.rows no_section h
  where
    section_lines :
        (rest : Text)
        → lit "\n\n" ++ peer_marker ++ lit "\n" ++ rest
          ≡ b'\n' ∷ b'\n' ∷ (peer_marker ++ (b'\n' ∷ rest))
    section_lines rest = unfold lit in simp append_assoc

    marker-Lacks : Lacks b'\n' peer_marker
    marker-Lacks = unfold peer_marker lit in ground arith

    import_marker : import_line (trim is_space peer_marker) no_section ≡ (none, no_section)
    import_marker =
        unfold import_line peer_marker lit has_prefix trim trim_left trim_right is_space text_beq in
        refl
