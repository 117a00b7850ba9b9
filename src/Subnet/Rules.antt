-- ===== src/Subnet/Rules.antt =====
-- The copies of firewall rules for a wider pool: `splitRule`, `widenRuleArgs` and the loop of
-- `widenFirewall` (subnet.go).
pub mod Copies
use wg_manager.Base.{
  ℕ, ◌+◌, Bool, true, false, not, ◌&&◌, ◌||◌, Option, none, some, List, [], ◌∷◌, ◌++◌,
}
use wg_manager.Base.{
  Text, lit, text_eq, nat_eq, ◌==◌, if◌then◌else◌, split, trim, is_space, to_dec, map,
}
use wg_manager.Base.{Dict, lookup_or, insert}

-- The loop of `splitRule`: in quotes or not, whether a token is open, and the token so far.
unfoldable pub split_rule_from : Bool → Bool → Text → Text → List Text
split_rule_from quoted have cur [] = if have then cur ∷ [] else []
split_rule_from quoted have cur (c ∷ s) =
    let quote = split_rule_from (not quoted) true cur s in
    let break = split_rule_from quoted false [] s in
    let blank = split_rule_from quoted false cur s in
    let more = split_rule_from quoted true (cur ++ (c ∷ [])) s in
    if c == b'"'
    then quote
    else if (c == b' ' || c == b'\t') && not quoted
    then (if have then cur ∷ break else blank)
    else more

-- `splitRule`
unfoldable pub split_rule : Text → List Text
unfolding split_rule_from
split_rule line = split_rule_from false false [] line

-- One rule of a table: its chain and the tokens behind it.
pub record Row : Type 0 where
  pub chain : Text
  pub rule : List Text

-- What the loop over the tokens of a rule finds.
pub record Copy : Type 0 where
  pub rule : List Text
  pub hit : Bool
  pub negated : Bool

unfoldable pub is_bang : Option Text → Bool
is_bang none = false
is_bang (some t) = t == lit "!"

-- The inner loop: `back2` and `back1` are the last two tokens of `rule`.
unfoldable pub copy_tokens : Text → Text → Option Text → Option Text → List Text → Copy
unfolding is_bang
copy_tokens old new back2 back1 [] = record { rule = []; hit = false; negated = false }
copy_tokens old new back2 back1 (t ∷ ts) =
    let t' = if t == old then new else t in
    let rest = copy_tokens old new back1 (some t') ts in
    record {
      rule = t' ∷ rest.rule;
      hit = t == old || rest.hit;
      negated = t == old && is_bang back2 || rest.negated;
    }

unfoldable pub copy_of : Text → Text → List Text → Copy
unfolding copy_tokens
copy_of old new rule = copy_tokens old new none none rule

unfoldable pub row_tokens : List Text → Option Row
row_tokens [] = none
row_tokens (a ∷ []) = none
row_tokens (a ∷ c ∷ r) = if a == lit "-A" then some record { chain = c; rule = r } else none

-- The rule of a line, if it is one.
unfoldable pub row_of : Text → Option Row
unfolding row_tokens split_rule
row_of line = row_tokens (split_rule (trim is_space line))

-- A rule to insert: the chain, the position and the tokens.
pub record RuleCopy : Type 0 where
  pub chain : Text
  pub at : ℕ
  pub rule : List Text

unfoldable pub manual_text : Text → Text → Text
manual_text table line = lit "-t " ++ table ++ lit " " ++ trim is_space line

-- What one rule adds to the two results.
unfoldable pub add_row :
    Text → Text → Copy → ℕ → Text → List RuleCopy × List Text → List RuleCopy × List Text
unfolding manual_text
add_row table line c n chain (cmds, manual) =
    if not c.hit
    then (cmds, manual)
    else if c.negated
    then (cmds, manual_text table line ∷ manual)
    else (record { chain = chain; at = n; rule = c.rule } ∷ cmds, manual)

-- The loop of `widenRuleArgs`; `pos` counts the rules of each chain.
unfoldable pub widen_lines : Text → Text → Text → Dict ℕ → List Text → List RuleCopy × List Text
unfolding copy_of add_row lookup_or insert
widen_lines table old new pos [] = ([], [])
widen_lines table old new pos (line ∷ ls) = elim (row_of line) [
  | none ↦ widen_lines table old new pos ls
  | some row ↦
      let n = lookup_or 0 row.chain pos + 1 in
      add_row table line (copy_of old new row.rule) n row.chain
        (widen_lines table old new (insert row.chain n pos) ls)
]

unfoldable pub reverse : {A : Type 0} → List A → List A
reverse [] = []
reverse (x ∷ xs) = reverse xs ++ (x ∷ [])

unfoldable pub check_args : Text → RuleCopy → List Text
check_args table c = lit "-w" ∷ lit "-t" ∷ table ∷ lit "-C" ∷ c.chain ∷ c.rule

unfoldable pub insert_args : Text → RuleCopy → List Text
insert_args table c = lit "-w" ∷ lit "-t" ∷ table ∷ lit "-I" ∷ c.chain ∷ to_dec c.at ∷ c.rule

-- `widenRuleArgs`
unfoldable pub widen_rule_args :
    Text → Text → Text → Text → List (List Text × List Text) × List Text
unfolding widen_lines reverse check_args insert_args
widen_rule_args table save_out old new =
    let (cmds, manual) = widen_lines table old new [] (split b'\n' save_out) in
    (map (λ c. (check_args table c, insert_args table c)) (reverse cmds), manual)

-- A table under `iptables -C` and `iptables -I`, which take a rule and the rules of the table.
pub record Iptables : Type 0 where
  pub check : RuleCopy → List Row → Bool
  pub insert_rule : RuleCopy → List Row → List Row

-- The inner loop of `widenFirewall`: a rule that is there already is left alone.
unfoldable pub run_copies : Iptables → List RuleCopy → List Row → List Row
run_copies ipt [] rows = rows
run_copies ipt (c ∷ cs) rows =
    run_copies ipt cs (if ipt.check c rows then rows else ipt.insert_rule c rows)

-- `widenFirewall` for one table
unfoldable pub widen_table : Iptables → Text → Text → Text → Text → List Row → List Row
unfolding widen_lines reverse run_copies
widen_table ipt table save_out old new rows =
    run_copies ipt (reverse (widen_lines table old new [] (split b'\n' save_out)).0) rows
