-- ===== src/Subnet/Rules/Copies/Again.antt =====
-- A second run of `widenFirewall` finds every copy in its place.
use wg_manager.Base.{
  Bool, true, false, not, ◌&&◌, Option, none, some, List, [], ◌∷◌, ◌++◌, ◌≡◌, ◌≢◌,
}
use wg_manager.Base.{Text, text_eq, text_beq_iff, ◌==◌, if◌then◌else◌, split, refl, arith, sym, ◌∙◌}
use wg_manager.Base.{append_assoc, elem, elem-append, All, Bool-cases, inl, inr, subst}
use wg_manager.Subnet.Rules.{Row, copy_of, copy_tokens, Iptables, widen_table}
use wg_manager.Subnet.Rules.Copies.{row_eq, row_beq_iff, rows_of, IsIptables, is_copied, copied}
use wg_manager.Subnet.Rules.Copies.{with_copies, widen_table-rows}

-- A copy does not mention the old network any more.
copy_tokens-hit :
    (old new : Text) (a b c d : Option Text) (ts : List Text)
    → new ≢ old
    → (copy_tokens old new a b (copy_tokens old new c d ts).rule).hit ≡ false
unfolding copy_tokens
copy_tokens-hit old new a b c d [] ne = refl
copy_tokens-hit old new a b c d (t ∷ ts) ne = ground (
  arith,
  text_beq_iff t old,
  text_beq_iff new old,
  copy_tokens-hit old new b (some (if t == old then new else t)) d
      (some (if t == old then new else t)) ts,
)

copied-is_copied :
    (old new : Text) (r : Row) → new ≢ old → is_copied old new (copied old new r) ≡ false
unfolding copy_of
copied-is_copied old new r ne = rw (copy_tokens-hit old new none none none none r.rule ne)

-- The table holds the copy of each of these rules that is to be copied.
abbrev Covered : Text → Text → List Row → List Row → Type 0
Covered old new whole = All (λ r. is_copied old new r ≡ true → elem (copied old new r) whole ≡ true)

Covered-wider :
    (old new : Text) (v w rows : List Row)
    → ((r : Row) → elem r v ≡ true → elem r w ≡ true)
    → Covered old new v rows
    → Covered old new w rows
Covered-wider old new v w [] h c = tt
Covered-wider old new v w (r ∷ rows) h (c, cs) =
    ((λ q. h (copied old new r) (c q)), Covered-wider old new v w rows h cs)

elem-middle :
    (q : Row) (front back : List Row) (r : Row)
    → elem q (front ++ back) ≡ true
    → elem q (front ++ (r ∷ back)) ≡ true
elem-middle q front back r h =
    ground (arith, elem-append q front back, elem-append q front (r ∷ back))

elem-here : (r : Row) (front back : List Row) → elem r (front ++ (r ∷ back)) ≡ true
elem-here r front back = ground (arith, elem-append r front (r ∷ back), row_beq_iff r r)

-- One more rule in front of rules that are covered.
Covered-step :
    (old new : Text) (front rest : List Row) (r : Row) (a b : Bool)
    → new ≢ old
    → Covered old new (front ++ (r ∷ rest)) rest
    → is_copied old new r ≡ a
    → elem (copied old new r) (front ++ (r ∷ rest)) ≡ b
    → Covered old new
        (front ++ (if a && not b then copied old new r ∷ r ∷ rest else r ∷ rest))
        (if a && not b then copied old new r ∷ r ∷ rest else r ∷ rest)
Covered-step old new front rest r false b ne c ea eb = ((λ q. cc), c)
Covered-step old new front rest r true true ne c ea eb = ((λ q. eb), c)
Covered-step old new front rest r true false ne c ea eb = (
  (λ q. cc (q, copied-is_copied old new r ne)),
  (
    (λ q. elem-here (copied old new r) front (r ∷ rest)),
    Covered-wider old new (front ++ (r ∷ rest)) (front ++ (copied old new r ∷ r ∷ rest)) rest
        (λ q. elem-middle q front (r ∷ rest) (copied old new r)) c,
  ),
)

with_copies-Covered :
    (old new : Text) (front rows : List Row)
    → new ≢ old
    → Covered old new (front ++ with_copies old new front rows) (with_copies old new front rows)
with_copies-Covered old new front [] ne = tt
with_copies-Covered old new front (r ∷ rows) ne =
    let rest = with_copies old new (front ++ (r ∷ [])) rows in
    Covered-step old new front rest r _ _ ne
      (subst (λ w. Covered old new w rest) (append_assoc front (r ∷ []) rest)
        (with_copies-Covered old new (front ++ (r ∷ [])) rows ne))
      refl refl

Covered-with_copies :
    (old new : Text) (front rows : List Row)
    → Covered old new (front ++ rows) rows
    → with_copies old new front rows ≡ rows
Covered-with_copies old new front [] c = refl
Covered-with_copies old new front (r ∷ rows) (c, cs) =
    let e =
      Covered-with_copies old new (front ++ (r ∷ [])) rows
        (subst (λ w. Covered old new w rows) (sym (append_assoc front (r ∷ []) rows)) cs) in
    rw e (elim (Bool-cases (is_copied old new r)) [ inl q ↦ rw (q, c q) | inr q ↦ rw q ])

-- A second run, on a listing of the table that the first run left, changes nothing.
pub widen_table-again :
    (ipt : Iptables) (table first second old new : Text)
    → IsIptables ipt
    → new ≢ old
    → rows_of (split b'\n' second)
      ≡ widen_table ipt table first old new (rows_of (split b'\n' first))
    → widen_table ipt table second old new (rows_of (split b'\n' second))
      ≡ rows_of (split b'\n' second)
widen_table-again ipt table first second old new laws ne e =
    widen_table-rows ipt table second old new laws
    ∙ Covered-with_copies old new [] (rows_of (split b'\n' second)) (
        subst (λ rows. Covered old new rows rows)
          (sym (e ∙ widen_table-rows ipt table first old new laws))
          (with_copies-Covered old new [] (rows_of (split b'\n' first)) ne))
