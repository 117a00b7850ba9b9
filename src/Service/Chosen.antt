-- ===== src/Service/Chosen.antt =====
-- What an uninstall removes is what was chosen.
use wg_manager.Base.{
  Bool, true, false, ◌||◌, none, some, List, [], ◌∷◌, ◌++◌, ◌≡◌, refl, arith, inl, inr, ap, sym,
  ◌∙◌, subst,
}
use wg_manager.Base.{◌&&◌, elem-append}
use wg_manager.Base.{
  Text, lit, text_eq, text_beq, text_beq_iff, ◌==◌, if◌then◌else◌, is_empty, elem, has_prefix,
  trim_prefix, after_prefix, cut, lookup_or, lookup, insert, Bool-cases,
}
use wg_manager.Recharge.{Result, ok, err}
use wg_manager.Settings.{Config}
use wg_manager.Settings.Flags.{parse_flags, flags_from}
use wg_manager.Service.{
  Action, disable, unlink_rule, destroy_set, remove_path, reload, Purge, purge_of, has_flag,
  ovpn_paths, remove_all, disabled_units, purged_paths, uninstall_actions, cmd_uninstall, menu_args,
  menu_uninstall,
}

-- The path is removed.
abbrev pub removes : Text → List Action → Bool
removes path [] = false
removes path (remove_path p ∷ acts) = p == path || removes path acts
removes path (disable u ∷ acts) = removes path acts
removes path (unlink_rule s d ∷ acts) = removes path acts
removes path (destroy_set s ∷ acts) = removes path acts
removes path (reload ∷ acts) = removes path acts

abbrev pub actions_of : Result (List Action) → List Action
actions_of (ok acts) = acts
actions_of (err e) = []

removes-append :
    (path : Text) (xs ys : List Action)
    → removes path (xs ++ ys) ≡ (removes path xs || removes path ys)
removes-append path [] ys = refl
removes-append path (remove_path p ∷ xs) ys = ground (arith, removes-append path xs ys)
removes-append path (disable u ∷ xs) ys = removes-append path xs ys
removes-append path (unlink_rule s d ∷ xs) ys = removes-append path xs ys
removes-append path (destroy_set s ∷ xs) ys = removes-append path xs ys
removes-append path (reload ∷ xs) ys = removes-append path xs ys

removes-disabled_units :
    (path : Text) (q : Purge) (cfg : Config) → removes path (disabled_units q cfg) ≡ false
unfolding disabled_units
removes-disabled_units path q cfg = ground arith

removes-remove_all : (path : Text) (ps : List Text) → removes path (remove_all ps) ≡ elem path ps
unfolding remove_all
removes-remove_all path [] = refl
removes-remove_all path (p ∷ ps) =
    ground (arith, removes-remove_all path ps, text_beq_iff p path, text_beq_iff path p)

or_false : (a : Bool) → (a || false) ≡ a
or_false true = refl
or_false false = refl

or_false_inner : (a b : Bool) → (a || (b || false)) ≡ (a || b)
or_false_inner a b = ap (λ (x : Bool). a || x) (or_false b)

removed :
    (path set : Text) (q : Purge) (cfg : Config)
    → removes path (uninstall_actions q set cfg)
      ≡ (elem path (purged_paths q) || (lit "/usr/local/bin/wgmgr" == path))
unfolding uninstall_actions
removed path set q cfg =
    removes-append path (disabled_units q cfg) _
    ∙ rw (removes-disabled_units path q cfg) (
        removes-append path (remove_all (purged_paths q)) _
        ∙ rw (removes-remove_all path (purged_paths q))
            (or_false_inner (elem path (purged_paths q)) _))

-- The panel itself.
abbrev pub panel_paths : List Text
unfolding lit
panel_paths = lit "/etc/systemd/system/wgmgr.service" ∷ lit "/usr/local/bin/wgmgr" ∷ []

-- Its settings and its database.
abbrev pub data_paths : List Text
unfolding lit
data_paths = lit "/etc/wgmgr" ∷ lit "/var/lib/wgmgr" ∷ []

abbrev pub wireguard_paths : List Text
unfolding lit
wireguard_paths = lit "/etc/wireguard" ∷ []

-- The path is among those of the panel or of a kind of data that is chosen.
abbrev pub is_chosen_path : Purge → Text → Bool
is_chosen_path q path =
    elem path panel_paths
    || q.data_dirs && elem path data_paths
    || q.openvpn && elem path ovpn_paths
    || q.wireguard && elem path wireguard_paths

-- If it is agreed, exactly the actions of a choice, which remove exactly its paths; and otherwise
-- nothing at all.
pub record IsChosen (agreed : Bool) (q : Purge) (set : Text) (cfg : Config) (acts : List Action)
    : Type 0 where
  pub actions : acts ≡ (if agreed then uninstall_actions q set cfg else [])
  pub paths : (path : Text) → removes path acts ≡ (agreed && is_chosen_path q path)

elem-if :
    (b : Bool) (path : Text) (xs : List Text)
    → elem path (if b then xs else []) ≡ (b && elem path xs)
elem-if true path xs = refl
elem-if false path xs = refl

three_kinds :
    (d o w : Bool) (path : Text) (xs ys zs : List Text)
    → elem path ((if d then xs else []) ++ ((if o then ys else []) ++ (if w then zs else [])))
      ≡ (d && elem path xs || o && elem path ys || w && elem path zs)
three_kinds d o w path xs ys zs =
    elem-append path (if d then xs else []) _
    ∙ rw (elem-append path (if o then ys else []) (if w then zs else [])) (
        joined d o w (elem path xs) (elem path ys) (elem path zs) _ _ _ (elem-if d path xs)
          (elem-if o path ys) (elem-if w path zs))
  where
    joined :
        (d o w a b c x y z : Bool)
        → x ≡ (d && a)
        → y ≡ (o && b)
        → z ≡ (w && c)
        → (x || (y || z)) ≡ (d && a || o && b || w && c)
    joined d o w a b c x y z p q r = ground (arith, p, q, r)

removes_chosen :
    (path set : Text) (q : Purge) (cfg : Config)
    → removes path (uninstall_actions q set cfg) ≡ is_chosen_path q path
unfolding purged_paths
removes_chosen path set q cfg =
    removed path set q cfg
    ∙ rw (three_kinds q.data_dirs q.openvpn q.wireguard path data_paths ovpn_paths wireguard_paths)
        (sorted (path == lit "/etc/systemd/system/wgmgr.service")
          (path == lit "/usr/local/bin/wgmgr") (lit "/usr/local/bin/wgmgr" == path)
          (q.data_dirs && elem path data_paths) (q.openvpn && elem path ovpn_paths)
          (q.wireguard && elem path wireguard_paths)
          (text_beq_sym path (lit "/usr/local/bin/wgmgr")))
  where
    text_beq_sym : (s t : Text) → (s == t) ≡ (t == s)
    text_beq_sym s t = ground (arith, text_beq_iff s t, text_beq_iff t s)

    sorted :
        (unit bin bin' d o w : Bool)
        → bin ≡ bin'
        → ((unit || (d || o || w)) || bin') ≡ ((unit || (bin || false)) || d || o || w)
    sorted unit bin bin' d o w e = ground (arith, e)

agreed_to :
    (agreed : Bool) (q : Purge) (set : Text) (cfg : Config) (acts : List Action)
    → acts ≡ (if agreed then uninstall_actions q set cfg else [])
    → IsChosen agreed q set cfg acts
agreed_to true q set cfg acts e = record {
  actions = e;
  paths = λ path. ap (removes path) e ∙ removes_chosen path set q cfg;
}
agreed_to false q set cfg acts e = record { actions = e; paths = λ path. ap (removes path) e }

abbrev pub chosen : Text → Purge
unfolding lit
chosen choice = record {
  data_dirs = choice == lit "2" || choice == lit "5";
  openvpn = choice == lit "3" || choice == lit "5";
  wireguard = choice == lit "4" || choice == lit "5";
}

-- The choices that the menu knows.
abbrev pub is_choice : Text → Bool
unfolding lit
is_choice choice = elem choice (lit "1" ∷ lit "2" ∷ lit "3" ∷ lit "4" ∷ lit "5" ∷ [])

-- The arguments ask for what a choice says, without a question.
abbrev AsksFor : Text → List Text → Type 0
AsksFor choice args =
    (purge_of (parse_flags args).flags ≡ chosen choice)
    × (has_flag (lit "yes") (parse_flags args).flags ≡ true)

-- No choice of the menu.
abbrev IsUnknown : Text → Type 0
IsUnknown c =
    ((c == lit "1") ≡ false)
    × ((c == lit "2") ≡ false)
    × ((c == lit "3") ≡ false)
    × ((c == lit "4") ≡ false)
    × ((c == lit "5") ≡ false)

by_choice {ℓ} :
    (P : Text → Type ℓ) (c : Text)
    → P (lit "1")
    → P (lit "2")
    → P (lit "3")
    → P (lit "4")
    → P (lit "5")
    → (IsUnknown c → P c)
    → P c
by_choice P c p1 p2 p3 p4 p5 other = elim (Bool-cases (c == lit "1")) [
  | inl e ↦ at (lit "1") e p1
  | inr a ↦ elim (Bool-cases (c == lit "2")) [
    | inl e ↦ at (lit "2") e p2
    | inr b ↦ elim (Bool-cases (c == lit "3")) [
      | inl e ↦ at (lit "3") e p3
      | inr d ↦ elim (Bool-cases (c == lit "4")) [
        | inl e ↦ at (lit "4") e p4
        | inr f ↦ elim (Bool-cases (c == lit "5")) [
          | inl e ↦ at (lit "5") e p5
          | inr g ↦ other (a, b, d, f, g)
        ]
      ]
    ]
  ]
]
  where
    at : (d : Text) → (c == d) ≡ true → P d → P c
    at d e p = subst P (sym ((text_beq_iff c d).0 e)) p

asked_1 : AsksFor (lit "1") (lit "--yes" ∷ [])
unfolding purge_of has_flag parse_flags flags_from lookup_or lookup insert has_prefix trim_prefix
    after_prefix cut lit text_beq
asked_1 = (refl, refl)

asked_2 : AsksFor (lit "2") (lit "--yes" ∷ lit "--purge-data" ∷ [])
unfolding purge_of has_flag parse_flags flags_from lookup_or lookup insert has_prefix trim_prefix
    after_prefix cut lit text_beq
asked_2 = (refl, refl)

asked_3 : AsksFor (lit "3") (lit "--yes" ∷ lit "--purge-openvpn" ∷ [])
unfolding purge_of has_flag parse_flags flags_from lookup_or lookup insert has_prefix trim_prefix
    after_prefix cut lit text_beq
asked_3 = (refl, refl)

asked_4 : AsksFor (lit "4") (lit "--yes" ∷ lit "--purge-wireguard" ∷ [])
unfolding purge_of has_flag parse_flags flags_from lookup_or lookup insert has_prefix trim_prefix
    after_prefix cut lit text_beq
asked_4 = (refl, refl)

asked_5 :
    AsksFor
      (lit "5")
      (lit "--yes" ∷ lit "--purge-data" ∷ lit "--purge-openvpn" ∷ lit "--purge-wireguard" ∷ [])
unfolding purge_of has_flag parse_flags flags_from lookup_or lookup insert has_prefix trim_prefix
    after_prefix cut lit text_beq
asked_5 = (refl, refl)

-- The name of the block set.
abbrev pub set_of : Config → Text
set_of cfg = if is_empty cfg.ip_set then lit "wgmgr_blocked" else cfg.ip_set

asked_actions :
    (choice : Text) (args : List Text) (cfg : Config)
    → AsksFor choice args
    → cmd_uninstall args none cfg ≡ ok (uninstall_actions (chosen choice) (set_of cfg) cfg)
unfolding cmd_uninstall
asked_actions choice args cfg (p, y) =
    rw (cmd_uninstall, y) (ap (λ (q : Purge). ok (uninstall_actions q (set_of cfg) cfg)) p)

-- What a choice that the menu knows comes to.
known_choice :
    (choice word : Text) (cfg : Config) (args : List Text)
    → (choice == lit "0" || is_empty choice) ≡ false
    → menu_args choice ≡ some args
    → AsksFor choice args
    → is_choice choice ≡ true
    → actions_of (menu_uninstall choice word cfg) ≡ (
        if word == lit "UNINSTALL" && is_choice choice
        then uninstall_actions (chosen choice) (set_of cfg) cfg
        else [])
unfolding menu_uninstall
known_choice choice word cfg args z m q k = elim (Bool-cases (word == lit "UNINSTALL")) [
  | inr e ↦ rw (menu_uninstall, z, e)
  | inl e ↦ rw (menu_uninstall, z, e, m, asked_actions choice args cfg q, k)
]

menu_args-none : (choice : Text) → IsUnknown choice → menu_args choice ≡ none
unfolding menu_args
menu_args-none choice (a, b, c, d, e) = rw (menu_args, a, b, c, d, e)

no_actions :
    (choice word : Text) (cfg : Config)
    → IsUnknown choice
    → actions_of (menu_uninstall choice word cfg) ≡ []
unfolding menu_uninstall
no_actions choice word cfg u = elim (Bool-cases (choice == lit "0" || is_empty choice)) [
  | inl z ↦ rw (menu_uninstall, z)
  | inr z ↦ elim (Bool-cases (word == lit "UNINSTALL")) [
    | inr e ↦ rw (menu_uninstall, z, e)
    | inl e ↦ rw (menu_uninstall, z, e, menu_args-none choice u)
  ]
]

not_choice : (choice : Text) → IsUnknown choice → is_choice choice ≡ false
unfolding is_choice
not_choice choice (a, b, c, d, e) = rw (a, b, c, d, e) refl

unknown_choice :
    (choice word : Text) (cfg : Config)
    → IsUnknown choice
    → actions_of (menu_uninstall choice word cfg) ≡ (
        if word == lit "UNINSTALL" && is_choice choice
        then uninstall_actions (chosen choice) (set_of cfg) cfg
        else [])
unknown_choice choice word cfg u =
    no_actions choice word cfg u ∙ rw (not_choice choice u) (sym (off (word == lit "UNINSTALL")))
  where
    off :
        (b : Bool)
        → (if b && false then uninstall_actions (chosen choice) (set_of cfg) cfg else []) ≡ []
    off true = refl
    off false = refl

menu_actions :
    (choice word : Text) (cfg : Config)
    → actions_of (menu_uninstall choice word cfg) ≡ (
        if word == lit "UNINSTALL" && is_choice choice
        then uninstall_actions (chosen choice) (set_of cfg) cfg
        else [])
menu_actions choice word cfg =
    by_choice
      (λ x. actions_of (menu_uninstall x word cfg) ≡ (
        if word == lit "UNINSTALL" && is_choice x
        then uninstall_actions (chosen x) (set_of cfg) cfg
        else []))
      choice
      (known_choice (lit "1") word cfg (lit "--yes" ∷ []) (unfold lit text_beq in refl)
        (unfold menu_args lit text_beq in refl) asked_1 (unfold lit text_beq in refl))
      (known_choice (lit "2") word cfg (lit "--yes" ∷ lit "--purge-data" ∷ [])
        (unfold lit text_beq in refl) (unfold menu_args lit text_beq in refl) asked_2
        (unfold lit text_beq in refl))
      (known_choice (lit "3") word cfg (lit "--yes" ∷ lit "--purge-openvpn" ∷ [])
        (unfold lit text_beq in refl) (unfold menu_args lit text_beq in refl) asked_3
        (unfold lit text_beq in refl))
      (known_choice (lit "4") word cfg (lit "--yes" ∷ lit "--purge-wireguard" ∷ [])
        (unfold lit text_beq in refl) (unfold menu_args lit text_beq in refl) asked_4
        (unfold lit text_beq in refl))
      (known_choice (lit "5") word cfg
        (lit "--yes" ∷ lit "--purge-data" ∷ lit "--purge-openvpn" ∷ lit "--purge-wireguard" ∷ [])
        (unfold lit text_beq in refl) (unfold menu_args lit text_beq in refl) asked_5
        (unfold lit text_beq in refl))
      (unknown_choice choice word cfg)

-- If the word is typed and the menu knows the choice, the uninstall does exactly the steps of the
-- choice: it removes the files of the panel, and its data, the files of OpenVPN and those of
-- WireGuard exactly where the choice names them, and no other path. Without the word, or for
-- another choice, it does nothing at all.
pub menu_uninstall-IsChosen :
    (choice word : Text) (cfg : Config)
    → IsChosen
        (word == lit "UNINSTALL" && is_choice choice)
        (chosen choice)
        (set_of cfg)
        cfg
        (actions_of (menu_uninstall choice word cfg))
menu_uninstall-IsChosen choice word cfg =
    agreed_to (word == lit "UNINSTALL" && is_choice choice) (chosen choice) (set_of cfg) cfg
      (actions_of (menu_uninstall choice word cfg)) (menu_actions choice word cfg)
