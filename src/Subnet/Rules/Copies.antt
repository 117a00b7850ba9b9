-- ===== src/Subnet/Rules/Copies.antt =====
-- Where the copies of `widenFirewall` land, and that a second run changes nothing.
pub mod Again
use wg_manager.Base.{
  ℕ, ◌+◌, Bool, true, false, not, ◌&&◌, ◌||◌, Option, none, some, List, [], ◌∷◌, ◌++◌, ◌≡◌,
}
use wg_manager.Base.{
  Text, text_eq, text_beq, text_beq_iff, ◌==◌, if◌then◌else◌, split, refl, arith, ap, sym, ◌∙◌,
}
use wg_manager.Base.{
  Dict, lookup, lookup_or, insert, lookup-insert, append_assoc, append-nil, ◌≢◌, ◌↔◌, Equality,
  elem, Option-cases, Bool-cases, inl, inr,
}
use wg_manager.Subnet.Rules.{
  Row, Copy, copy_of, copy_tokens, row_of, RuleCopy, add_row, widen_lines,
}
use wg_manager.Subnet.Rules.{reverse, Iptables, run_copies, widen_table}

unfoldable pub texts_beq : List Text → List Text → Bool
texts_beq [] [] = true
texts_beq [] (b ∷ bs) = false
texts_beq (a ∷ as') [] = false
texts_beq (a ∷ as') (b ∷ bs) = a == b && texts_beq as' bs

pub texts_beq_iff : (a b : List Text) → (texts_beq a b ≡ true) ↔ (a ≡ b)
unfolding texts_beq
texts_beq_iff [] [] = ground arith
texts_beq_iff [] (y ∷ ys) = ground arith
texts_beq_iff (x ∷ xs) [] = ground arith
texts_beq_iff (x ∷ xs) (y ∷ ys) = ground (arith, texts_beq_iff xs ys, text_beq_iff x y)

unfoldable pub row_beq : Row → Row → Bool
unfolding texts_beq
row_beq a b = a.chain == b.chain && texts_beq a.rule b.rule

pub row_beq_iff : (a b : Row) → (row_beq a b ≡ true) ↔ (a ≡ b)
unfolding row_beq
row_beq_iff a b = ground (arith, texts_beq_iff a.rule b.rule, text_beq_iff a.chain b.chain)

instance abbrev pub row_eq : Equality Row
row_eq = record { beq = row_beq; beq_iff = row_beq_iff }

-- The rules that a listing shows.
abbrev pub rows_of : List Text → List Row
rows_of [] = []
rows_of (l ∷ ls) = let rest = rows_of ls in elim (row_of l) [ none ↦ rest | some r ↦ r ∷ rest ]

abbrev pub count_chain : Text → List Row → ℕ
count_chain chain [] = 0
count_chain chain (r ∷ rows) =
    let n = count_chain chain rows in if r.chain == chain then n + 1 else n

-- `iptables -C` finds a rule of the table, and `iptables -I chain n` puts a rule directly before
-- the chain's rule of that number.
pub record IsIptables (ipt : Iptables) : Type 0 where
  pub checks :
      (c : RuleCopy) (rows : List Row)
      → ipt.check c rows ≡ elem record { chain = c.chain; rule = c.rule } rows
  pub inserts :
      (c : RuleCopy) (r : Row) (front back : List Row)
      → r.chain ≡ c.chain
      → c.at ≡ count_chain c.chain front + 1
      → ipt.insert_rule c (front ++ (r ∷ back))
        ≡ front ++ (record { chain = c.chain; rule = c.rule } ∷ r ∷ back)

-- The rule is to be copied.
abbrev pub is_copied : Text → Text → Row → Bool
is_copied old new r = let c = copy_of old new r.rule in c.hit && not c.negated

abbrev pub copied : Text → Text → Row → Row
copied old new r = record { chain = r.chain; rule = (copy_of old new r.rule).rule }

-- Each rule that is to be copied has its copy directly in front, unless the table holds the copy
-- already; `front` is the part of the table before these rules.
abbrev pub with_copies : Text → Text → List Row → List Row → List Row
with_copies old new front [] = []
with_copies old new front (r ∷ rows) =
    let rest = with_copies old new (front ++ (r ∷ [])) rows in
    if is_copied old new r && not (elem (copied old new r) (front ++ (r ∷ rest)))
    then copied old new r ∷ r ∷ rest
    else r ∷ rest

run_copies-append :
    (ipt : Iptables) (cs ds : List RuleCopy) (rows : List Row)
    → run_copies ipt (cs ++ ds) rows ≡ run_copies ipt ds (run_copies ipt cs rows)
unfolding run_copies
run_copies-append ipt [] ds rows = refl
run_copies-append ipt (c ∷ cs) ds rows = run_copies-append ipt cs ds _

-- `pos` holds the number of rules of each chain.
abbrev Counts : Dict ℕ → List Row → Type 0
Counts pos front = (chain : Text) → lookup_or 0 chain pos ≡ count_chain chain front

count_chain-snoc :
    (chain : Text) (front : List Row) (r : Row)
    → count_chain chain (front ++ (r ∷ []))
      ≡ (if r.chain == chain then count_chain chain front + 1 else count_chain chain front)
count_chain-snoc chain [] r = refl
count_chain-snoc chain (q ∷ front) r = ground (arith, count_chain-snoc chain front r)

lookup_or-insert :
    (k j : Text) (v d : ℕ) (m : Dict ℕ)
    → lookup_or d j (insert k v m) ≡ (if k == j then v else lookup_or d j m)
unfolding lookup_or
lookup_or-insert k j v d m = ground (arith, lookup-insert k j v m)

Counts-insert :
    (pos : Dict ℕ) (front : List Row) (r : Row)
    → Counts pos front
    → Counts (insert r.chain (lookup_or 0 r.chain pos + 1) pos) (front ++ (r ∷ []))
Counts-insert pos front r h chain =
    lookup_or-insert r.chain chain (lookup_or 0 r.chain pos + 1) 0 pos
    ∙ go
    ∙ sym (count_chain-snoc chain front r)
  where
    go :
        (if r.chain == chain then lookup_or 0 r.chain pos + 1 else lookup_or 0 chain pos)
        ≡ (if r.chain == chain then count_chain chain front + 1 else count_chain chain front)
    go = elim (Bool-cases (r.chain == chain)) [
      | inl e ↦
          rw (e, h r.chain) (ap (λ k. count_chain k front + 1) ((text_beq_iff r.chain chain).0 e))
      | inr e ↦ rw (e, h chain)
    ]

-- One more command at the end.
run_one :
    (ipt : Iptables) (table line : Text) (r : Row) (front rest : List Row) (n : ℕ)
    → (rule : List Text) (hit negated : Bool) (cmds : List RuleCopy) (manual : List Text)
    → (rows : List Row) → IsIptables ipt
    → n ≡ count_chain r.chain front + 1
    → run_copies ipt (reverse cmds) rows ≡ front ++ (r ∷ rest)
    → run_copies ipt
        (reverse
          (add_row table line
            record { rule = rule; hit = hit; negated = negated }
            n
            r.chain
            (cmds, manual)).0)
        rows
      ≡ front
        ++ (if hit
              && not negated
              && not (elem record { chain = r.chain; rule = rule } (front ++ (r ∷ rest)))
            then record { chain = r.chain; rule = rule } ∷ r ∷ rest
            else r ∷ rest)
unfolding add_row reverse
run_one ipt table line r front rest n rule false negated cmds manual rows laws e h = h
run_one ipt table line r front rest n rule true true cmds manual rows laws e h = h
run_one ipt table line r front rest n rule true false cmds manual rows laws e h =
    run_copies-append ipt (reverse cmds) (k ∷ []) rows
    ∙ ap (run_copies ipt (k ∷ [])) h
    ∙ last (elem record { chain = r.chain; rule = rule } (front ++ (r ∷ rest))) refl
  where
    k : RuleCopy
    k = record { chain = r.chain; at = n; rule = rule }

    last :
        (b : Bool)
        → elem record { chain = r.chain; rule = rule } (front ++ (r ∷ rest)) ≡ b
        → run_copies ipt (k ∷ []) (front ++ (r ∷ rest))
          ≡ front
            ++ (if not (elem record { chain = r.chain; rule = rule } (front ++ (r ∷ rest)))
                then record { chain = r.chain; rule = rule } ∷ r ∷ rest
                else r ∷ rest)
    last true q = unfold run_copies in rw (laws.checks k (front ++ (r ∷ rest)), q)
    last false q =
        unfold run_copies in
        rw (laws.checks k (front ++ (r ∷ rest)), q) (laws.inserts k r front rest refl e)

-- A line that is a rule, and one that is none.
widen_lines-some :
    (table old new : Text) (pos : Dict ℕ) (l : Text) (ls : List Text) (r : Row)
    → row_of l ≡ some r
    → widen_lines table old new pos (l ∷ ls)
      ≡ add_row table l
          (copy_of old new r.rule)
          (lookup_or 0 r.chain pos + 1)
          r.chain
          (widen_lines table old new (insert r.chain (lookup_or 0 r.chain pos + 1) pos) ls)
unfolding widen_lines
widen_lines-some table old new pos l ls r e = rw (e, widen_lines)

widen_lines-none :
    (table old new : Text) (pos : Dict ℕ) (l : Text) (ls : List Text)
    → row_of l ≡ none
    → widen_lines table old new pos (l ∷ ls) ≡ widen_lines table old new pos ls
unfolding widen_lines
widen_lines-none table old new pos l ls e = rw (e, widen_lines)

rows_of-some :
    (l : Text) (ls : List Text) (r : Row) → row_of l ≡ some r → rows_of (l ∷ ls) ≡ r ∷ rows_of ls
rows_of-some l ls r e = rw (e, rows_of)

rows_of-none : (l : Text) (ls : List Text) → row_of l ≡ none → rows_of (l ∷ ls) ≡ rows_of ls
rows_of-none l ls e = rw (e, rows_of)

run_lines :
    (ipt : Iptables) (table old new : Text) (ls : List Text) (pos : Dict ℕ) (front : List Row)
    → IsIptables ipt
    → Counts pos front
    → run_copies ipt (reverse (widen_lines table old new pos ls).0) (front ++ rows_of ls)
      ≡ front ++ with_copies old new front (rows_of ls)
run_lines ipt table old new [] pos front laws h = unfold widen_lines run_copies reverse in refl
run_lines ipt table old new (l ∷ ls) pos front laws h = elim (Option-cases (row_of l)) [
  | inl e ↦
      rw (widen_lines-none table old new pos l ls e, rows_of-none l ls e)
        (run_lines ipt table old new ls pos front laws h)
  | inr (r, e) ↦
      let n = lookup_or 0 r.chain pos + 1 in
      let pos' = insert r.chain n pos in
      let rest = with_copies old new (front ++ (r ∷ [])) (rows_of ls) in
      let c = copy_of old new r.rule in
      let found = widen_lines table old new pos' ls in
      let k : run_copies ipt (reverse found.0) (front ++ (r ∷ rows_of ls)) ≡ front ++ (r ∷ rest) =
        ap (run_copies ipt (reverse found.0)) (sym (append_assoc front (r ∷ []) (rows_of ls)))
        ∙ run_lines ipt table old new ls pos' (front ++ (r ∷ [])) laws (Counts-insert pos front r h)
        ∙ append_assoc front (r ∷ []) rest in
      rw (widen_lines-some table old new pos l ls r e, rows_of-some l ls r e)
        (run_one ipt table l r front rest n c.rule c.hit c.negated found.0 found.1
          (front ++ (r ∷ rows_of ls)) laws (ap (λ q. q + 1) (h r.chain)) k)
]

-- Each rule of the listing that mentions the old network, and does not negate it, gets its copy for
-- the new network directly in front of it, unless the table holds that copy already.
pub widen_table-rows :
    (ipt : Iptables) (table save_out old new : Text)
    → IsIptables ipt
    → widen_table ipt table save_out old new (rows_of (split b'\n' save_out))
      ≡ with_copies old new [] (rows_of (split b'\n' save_out))
unfolding widen_table
widen_table-rows ipt table save_out old new laws =
    run_lines ipt table old new (split b'\n' save_out) [] [] laws
      (λ chain. unfold lookup_or lookup in refl)
