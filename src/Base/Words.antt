-- ===== src/Base/Words.antt =====
-- Laws of the text functions: lines, words and prefixes.
use mathlib.Core.Path.{◌≡◌, refl, ap}
use mathlib.Core.Logic.{◌≢◌}
use mathlib.Core.Bool.{Bool, true, false}
use mathlib.Core.Option.{none, some}
use mathlib.Core.List.{List, [], ◌∷◌, ◌++◌, append_assoc}
use native.Mathlib.Omega.{arith}
use Prim.Native.Nat.{ℕ}
use wg_manager.Base.Tests.{nat_beq_iff, if◌then◌else◌, ◌==◌, nat_eq}
use wg_manager.Base.Lists.{All}
use wg_manager.Base.Strings.{Text, split, cons_head, join, cut, is_space, fields, fields_from}
use wg_manager.Base.Strings.{trim, trim_left, trim_right}

-- The character does not occur in the text.
abbrev pub Lacks : ℕ → Text → Type 0
Lacks b = All (λ c. c ≢ b)

abbrev pub HasNoSpace : Text → Type 0
HasNoSpace = All (λ c. is_space c ≡ false)

-- One field: at least one character, and none that is white space.
abbrev pub IsWord : Text → Type 0
IsWord s = (s ≢ []) × HasNoSpace s

pub split-append :
    (b : ℕ) (l rest : Text) → Lacks b l → split b (l ++ (b ∷ rest)) ≡ l ∷ split b rest
unfolding split
split-append b [] rest h = ground arith
split-append b (c ∷ l) rest h = ground (arith, split-append b l rest h.1)

pub split_line : (b : ℕ) (l : Text) → Lacks b l → split b l ≡ l ∷ []
unfolding split
split_line b [] h = refl
split_line b (c ∷ l) h = ground (arith, split_line b l h.1)

pub split-ne-nil : (b : ℕ) (s : Text) → split b s ≢ []
unfolding split
split-ne-nil b [] = ground arith
split-ne-nil b (c ∷ s) = ground (arith, split-ne-nil b s)

join-cons_head :
    (sep : Text) (c : ℕ) (ws : List Text) → ws ≢ [] → join sep (cons_head c ws) ≡ c ∷ join sep ws
unfolding join cons_head
join-cons_head sep c [] h = absurd (h refl)
join-cons_head sep c (w ∷ []) h = refl
join-cons_head sep c (w ∷ v ∷ ws) h = refl

pub join-cons :
    (sep w : Text) (ws : List Text) → ws ≢ [] → join sep (w ∷ ws) ≡ w ++ sep ++ join sep ws
unfolding join
join-cons sep w [] h = absurd (h refl)
join-cons sep w (v ∷ ws) h = refl

-- Joining the parts gives the text back.
pub join-split : (b : ℕ) (s : Text) → join (b ∷ []) (split b s) ≡ s
unfolding split
join-split b [] = unfold join in refl
join-split b (c ∷ s) = ground (
  arith,
  join-split b s,
  split-ne-nil b s,
  join-cons (b ∷ []) [] (split b s),
  join-cons_head (b ∷ []) c (split b s),
)

cons_head-Lacks :
    (b c : ℕ) (ws : List Text) → c ≢ b → All (Lacks b) ws → All (Lacks b) (cons_head c ws)
unfolding cons_head
cons_head-Lacks b c [] h hs = ((h, tt), tt)
cons_head-Lacks b c (w ∷ ws) h (hw, hs) = ((h, hw), hs)

split_step-Lacks :
    (b c : ℕ) (ws : List Text) (v : Bool)
    → (c == b) ≡ v
    → All (Lacks b) ws
    → All (Lacks b) (if v then [] ∷ ws else cons_head c ws)
split_step-Lacks b c ws true e h = (tt, h)
split_step-Lacks b c ws false e h = cons_head-Lacks b c ws (λ q. ground (arith, nat_beq_iff c b)) h

-- No part holds the character that separates them.
pub split-Lacks : (b : ℕ) (s : Text) → All (Lacks b) (split b s)
unfolding split
split-Lacks b [] = (tt, tt)
split-Lacks b (c ∷ s) = split_step-Lacks b c (split b s) (c == b) refl (split-Lacks b s)

pub split-join :
    (b : ℕ) (w : Text) (ws : List Text)
    → Lacks b w
    → All (Lacks b) ws
    → split b (join (b ∷ []) (w ∷ ws)) ≡ w ∷ ws
unfolding join
split-join b w [] h hs = split_line b w h
split-join b w (v ∷ ws) h hs =
    rw (append_assoc, split-append b w _ h) (ap (◌∷◌ w) (split-join b v ws hs.0 hs.1))

pub cut-append : (b : ℕ) (l rest : Text) → Lacks b l → cut b (l ++ (b ∷ rest)) ≡ some (l, rest)
unfolding cut
cut-append b [] rest h = ground arith
cut-append b (c ∷ l) rest h = ground (arith, cut-append b l rest h.1)

fields_from-append :
    (w : Text) (c : ℕ) (rest : Text)
    → HasNoSpace w
    → is_space c ≡ true
    → fields_from true (w ++ (c ∷ rest)) ≡ w ∷ fields_from false rest
unfolding fields_from cons_head
fields_from-append [] c rest h e = rw e
fields_from-append (x ∷ w) c rest (hx, h) e = rw (hx, fields_from-append w c rest h e)

fields_from_word : (w : Text) → HasNoSpace w → fields_from true w ≡ w ∷ []
unfolding fields_from cons_head
fields_from_word [] h = refl
fields_from_word (x ∷ w) (hx, h) = rw (hx, fields_from_word w h)

-- A word before white space is the first field.
pub fields-append :
    (w : Text) (c : ℕ) (rest : Text)
    → IsWord w
    → is_space c ≡ true
    → fields (w ++ (c ∷ rest)) ≡ w ∷ fields rest
unfolding fields fields_from cons_head
fields-append [] c rest (ne, h) e = absurd (ne refl)
fields-append (x ∷ w) c rest (ne, (hx, h)) e = rw (hx, fields_from-append w c rest h e)

pub fields_word : (w : Text) → IsWord w → fields w ≡ w ∷ []
unfolding fields fields_from cons_head
fields_word [] (ne, h) = absurd (ne refl)
fields_word (x ∷ w) (ne, (hx, h)) = rw (hx, fields_from_word w h)

trim_left_lem : (p : ℕ → Bool) (s : Text) → All (λ c. p c ≡ false) s → trim_left p s ≡ s
unfolding trim_left
trim_left_lem p [] h = refl
trim_left_lem p (c ∷ s) (hc, h) = rw hc

pub trim_right_lem : (p : ℕ → Bool) (s : Text) → All (λ c. p c ≡ false) s → trim_right p s ≡ s
unfolding trim_right
trim_right_lem p [] h = refl
trim_right_lem p (c ∷ s) (hc, h) = rw (trim_right_lem p s h, hc) (ground arith)

-- A text in which nothing is to be trimmed stays as it is.
pub trim_lem : (p : ℕ → Bool) (s : Text) → All (λ c. p c ≡ false) s → trim p s ≡ s
unfolding trim
trim_lem p s h = rw (trim_left_lem p s h) (trim_right_lem p s h)

-- A word holds no character that is white space.
pub HasNoSpace-Lacks : (b : ℕ) (w : Text) → is_space b ≡ true → HasNoSpace w → All (λ c. c ≢ b) w
HasNoSpace-Lacks b [] e h = tt
HasNoSpace-Lacks b (c ∷ w) e (hc, h) = ((λ q. cc (ap is_space q)), HasNoSpace-Lacks b w e h)

-- Without the separator there is nothing to cut.
pub cut-none : (b : ℕ) (s : Text) → Lacks b s → cut b s ≡ none
unfolding cut
cut-none b [] h = refl
cut-none b (c ∷ s) (h, hs) = ground (arith, cut-none b s hs, nat_beq_iff c b)
