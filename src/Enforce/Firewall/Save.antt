-- ===== src/Enforce/Firewall/Save.antt =====
-- `parseIpsetSave` reads back the members that `ipset list -o save` prints.
use wg_manager.Base.{HasNoSpace-Lacks, true, List, [], ◌∷◌, ◌++◌, ◌≡◌, refl, ap}
use wg_manager.Base.{Text, text_eq, text_beq, text_beq_iff, lit, All, All-append}
use wg_manager.Base.{Lacks, IsWord, split, split-append, fields, ◌∙◌, sym}
use wg_manager.Base.{fields-append, fields_word, is_space, append_assoc, arith, ◌≢◌, nat_eq}
use wg_manager.Enforce.{save_line, save_lines, parse_ipset_save}
use wg_manager.Enforce.Firewall.{add_lines, save_text}

newline_space : is_space b'\n' ≡ true
unfolding is_space
newline_space = refl

blank_space : is_space b' ' ≡ true
unfolding is_space
blank_space = refl

abbrev add_line : Text → Text → Text
add_line name ip = lit "add" ++ (b' ' ∷ (name ++ (b' ' ∷ ip)))

add-IsWord : IsWord (lit "add")
unfolding lit is_space
add-IsWord = ground arith

fields-add_line :
    (name ip : Text)
    → IsWord name
    → IsWord ip
    → fields (add_line name ip) ≡ lit "add" ∷ name ∷ ip ∷ []
fields-add_line name ip n i = rw (
  fields-append (lit "add") b' ' (name ++ (b' ' ∷ ip)) add-IsWord blank_space,
  fields-append name b' ' ip n blank_space,
  fields_word ip i,
)

save_line-add_line :
    (name ip : Text)
    → IsWord name
    → IsWord ip
    → save_line name (fields (add_line name ip)) ≡ ip ∷ []
unfolding save_line
save_line-add_line name ip n i =
    rw (fields-add_line name ip n i)
      (ground (arith, text_beq_iff (lit "add") (lit "add"), text_beq_iff name name))

add_line-Lacks :
    (name ip : Text) → IsWord name → IsWord ip → All (λ c. c ≢ b'\n') (add_line name ip)
add_line-Lacks name ip n i =
    All-append _ (lit "add") _ (HasNoSpace-Lacks b'\n' _ newline_space add-IsWord.1) (
      (λ e. omega arith),
      All-append _ name _ (HasNoSpace-Lacks b'\n' name newline_space n.1)
          ((λ e. omega arith), HasNoSpace-Lacks b'\n' ip newline_space i.1),
    )

-- One more line in front.
save_lines-cons :
    (name line rest : Text) {ip : Text}
    → All (λ c. c ≢ b'\n') line
    → save_line name (fields line) ≡ ip ∷ []
    → parse_ipset_save name (line ++ (b'\n' ∷ rest)) ≡ ip ∷ parse_ipset_save name rest
unfolding parse_ipset_save
save_lines-cons name line rest h e = rw (split-append b'\n' line rest h, save_lines, e)

save_lines-skip :
    (name line rest : Text)
    → All (λ c. c ≢ b'\n') line
    → save_line name (fields line) ≡ []
    → parse_ipset_save name (line ++ (b'\n' ∷ rest)) ≡ parse_ipset_save name rest
unfolding parse_ipset_save
save_lines-skip name line rest h e = rw (split-append b'\n' line rest h, save_lines, e)

parse-add_lines :
    (name : Text) (ips : List Text)
    → IsWord name
    → All IsWord ips
    → parse_ipset_save name (add_lines name ips) ≡ ips
unfolding add_lines
parse-add_lines name [] n hs = unfold parse_ipset_save save_lines split fields in refl
parse-add_lines name (ip ∷ ips) n (h, hs) =
    ap (parse_ipset_save name) (regroup name ip (add_lines name ips))
    ∙ save_lines-cons name (add_line name ip) (add_lines name ips) (add_line-Lacks name ip n h)
        (save_line-add_line name ip n h)
    ∙ ap (◌∷◌ ip) (parse-add_lines name ips n hs)
  where
    regroup :
        (name ip rest : Text)
        → lit "add" ++ (b' ' ∷ (name ++ (b' ' ∷ (ip ++ (b'\n' ∷ rest)))))
          ≡ add_line name ip ++ (b'\n' ∷ rest)
    regroup name ip rest = simp append_assoc

create-IsWord : IsWord (lit "create")
unfolding lit is_space
create-IsWord = ground arith

save_line-create : (name : Text) (words : List Text) → save_line name (lit "create" ∷ words) ≡ []
unfolding save_line lit text_beq
save_line-create name [] = refl
save_line-create name (w ∷ []) = refl
save_line-create name (w ∷ v ∷ words) = refl

-- What `ipset list -o save` prints of a set is read back as the members of that set, in order.
pub parse_ipset_save-save_text :
    (options name : Text) (ips : List Text)
    → Lacks b'\n' options
    → IsWord name
    → All IsWord ips
    → parse_ipset_save name (save_text options name ips) ≡ ips
unfolding save_text
parse_ipset_save-save_text options name ips o n hs =
    ap (parse_ipset_save name) (sym (append_assoc (lit "create") (b' ' ∷ options) _))
    ∙ save_lines-skip name (lit "create" ++ (b' ' ∷ options)) (add_lines name ips)
        (All-append _ (lit "create") _ (HasNoSpace-Lacks b'\n' _ newline_space create-IsWord.1)
          ((λ e. omega arith), o))
        (rw (fields-append (lit "create") b' ' options create-IsWord blank_space)
          (save_line-create name _))
    ∙ parse-add_lines name ips n hs
