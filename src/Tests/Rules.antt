-- ===== src/Tests/Rules.antt =====
-- Firewall tables at concrete data.
use wg_manager.Base.{ℕ, ◌+◌, ◌-◌, ◌≡◌, ◌≢◌, not, List, [], ◌∷◌, ◌++◌, refl, arith, Text, lit}
use wg_manager.Base.{
  text_eq, text_beq, text_beq_iff, nat_eq, ◌==◌, if◌then◌else◌, elem, split, cons_head, trim,
  trim_left,
}
use wg_manager.Base.{trim_right, is_space, lookup_or, lookup, insert}
use wg_manager.Subnet.Rules.{
  Iptables, RuleCopy, Row, widen_table, widen_lines, row_of, row_tokens, split_rule,
}
use wg_manager.Subnet.Rules.{
  split_rule_from, copy_of, copy_tokens, is_bang, add_row, run_copies, reverse,
}
use wg_manager.Subnet.Rules.Copies.{
  IsIptables, rows_of, with_copies, count_chain, row_eq, row_beq, texts_beq, widen_table-rows,
}
use wg_manager.Subnet.Rules.Copies.Again.{widen_table-again}

insert_row : RuleCopy → ℕ → List Row → List Row
insert_row c n [] = []
insert_row c n (r ∷ rows) =
    let rest = insert_row c n rows in
    let later = insert_row c (n - 1) rows in
    if not (r.chain == c.chain)
    then r ∷ rest
    else if n == 1
    then record { chain = c.chain; rule = c.rule } ∷ r ∷ rows
    else r ∷ later

unfoldable pub table : Iptables
unfolding insert_row
table = record {
  check = λ c rows. elem record { chain = c.chain; rule = c.rule } rows;
  insert_rule = λ c rows. insert_row c c.at rows;
}

insert_row-append :
    (c : RuleCopy) (n : ℕ) (r : Row) (front back : List Row)
    → r.chain ≡ c.chain
    → n ≡ count_chain c.chain front + 1
    → insert_row c n (front ++ (r ∷ back))
      ≡ front ++ (record { chain = c.chain; rule = c.rule } ∷ r ∷ back)
unfolding insert_row
insert_row-append c n r [] back e h = ground (arith, text_beq_iff r.chain c.chain)
insert_row-append c n r (q ∷ front) back e h = ground (
  arith,
  text_beq_iff q.chain c.chain,
  insert_row-append c n r front back e,
  insert_row-append c (n - 1) r front back e,
)

table-IsIptables : IsIptables table
unfolding table
table-IsIptables = record {
  checks = λ c rows. refl;
  inserts = λ c r front back e h. insert_row-append c c.at r front back e h;
}

abbrev listing : Text
unfolding lit
listing = lit "-P FORWARD ACCEPT\n-A FORWARD -j DROP\n-A FORWARD -s O -j ACCEPT"

abbrev second_listing : Text
unfolding lit
second_listing = lit "-A FORWARD -j DROP\n-A FORWARD -s N -j ACCEPT\n-A FORWARD -s O -j ACCEPT"

abbrev old : Text
old = b'O' ∷ []

abbrev new : Text
new = b'N' ∷ []

new-ne-old : new ≢ old
new-ne-old = ground arith

widen_table-rows_example :
    widen_table table (lit "filter") listing old new (rows_of (split b'\n' listing))
    ≡ with_copies old new [] (rows_of (split b'\n' listing))
widen_table-rows_example = widen_table-rows table (lit "filter") listing old new table-IsIptables

second_rows :
    rows_of (split b'\n' second_listing)
    ≡ widen_table table (lit "filter") listing old new (rows_of (split b'\n' listing))
unfolding listing second_listing table widen_table widen_lines row_of row_tokens split_rule
    split_rule_from copy_of copy_tokens is_bang add_row run_copies reverse insert_row row_beq
    texts_beq text_beq lookup_or lookup insert split cons_head trim trim_left trim_right is_space
    lit
second_rows = refl

widen_table-again_example :
    widen_table table (lit "filter") second_listing old new (rows_of (split b'\n' second_listing))
    ≡ rows_of (split b'\n' second_listing)
widen_table-again_example =
    widen_table-again table (lit "filter") listing second_listing old new table-IsIptables
      new-ne-old second_rows
