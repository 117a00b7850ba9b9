-- ===== src/Enforce/Firewall.antt =====
-- The programs `ipset` and `iptables`, which enforcement calls, as an interface, and what it
-- relies on: a set holds what was added and not deleted since, and `ipset list -o save` prints a
-- `create` line and one `add` line for each member.
pub mod Save
use wg_manager.Base.{
  Bool, true, false, not, ◌&&◌, ◌||◌, Option, none, some, List, [], ◌∷◌, ◌++◌, ◌≡◌,
}
use wg_manager.Base.{Text, text_eq, ◌==◌, if◌then◌else◌, elem, lit, All, Lacks, IsWord}

pub record Firewall : Type 1 where
  pub State : Type 0
  -- `ipset create <set> hash:ip -exist`
  pub create_set : Text → State → State
  -- `iptables -C FORWARD …`, and whether it found the rule
  pub check_drop : Text → Text → State → Bool
  -- `iptables -I FORWARD 1 …`
  pub insert_drop : Text → Text → State → State
  -- `ipset add <set> <ip> -exist`
  pub add_ip : Text → Text → State → State
  -- `ipset del <set> <ip>`
  pub del_ip : Text → Text → State → State
  -- `ipset list <set> -o save`, with `none` for a failure
  pub list_save : Text → State → Option Text

-- The lines that list the members of a set.
unfoldable pub add_lines : Text → List Text → Text
add_lines name [] = []
add_lines name (ip ∷ ips) =
    lit "add" ++ (b' ' ∷ (name ++ (b' ' ∷ (ip ++ (b'\n' ∷ add_lines name ips)))))

-- The whole listing; `options` is the text behind `create`.
unfoldable pub save_text : Text → Text → List Text → Text
unfolding add_lines
save_text options name ips = lit "create" ++ (b' ' ∷ (options ++ (b'\n' ∷ add_lines name ips)))

-- What a set is relied on for. `takes` tells the words that a `hash:ip` set takes, which are the
-- IPv4 addresses in the form that it prints; it refuses every other word, and stays as it is.
pub record IsLawful (fw : Firewall) : Type 0 where
  pub takes : Text → Bool
  pub members : Text → fw.State → List Text
  pub members_taken : (n j : Text) (s : fw.State) → elem j (members n s) ≡ true → takes j ≡ true
  pub elem-create_set :
      (n j : Text) (s : fw.State) → elem j (members n (fw.create_set n s)) ≡ elem j (members n s)
  pub elem-insert_drop :
      (n d j : Text) (s : fw.State)
      → elem j (members n (fw.insert_drop n d s)) ≡ elem j (members n s)
  pub elem-add_ip :
      (n i j : Text) (s : fw.State)
      → IsWord i
      → elem j (members n (fw.add_ip n i s)) ≡ (takes j && j == i || elem j (members n s))
  pub elem-del_ip :
      (n i j : Text) (s : fw.State)
      → elem j (members n (fw.del_ip n i s)) ≡ (not (j == i) && elem j (members n s))
  pub members_words : (n : Text) (s : fw.State) → All IsWord (members n s)
  pub options : Text → fw.State → Text
  pub options_line : (n : Text) (s : fw.State) → Lacks b'\n' (options n s)
  pub list_save_lem :
      (n : Text) (s : fw.State) → fw.list_save n s ≡ some (save_text (options n s) n (members n s))
