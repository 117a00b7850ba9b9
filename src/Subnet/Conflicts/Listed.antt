-- ===== src/Subnet/Conflicts/Listed.antt =====
-- Which conflicts `subnetConflicts` lists.
use wg_manager.Base.{ℕ, Bool, true, false, not, ◌&&◌, ◌||◌, List, [], ◌∷◌, ◌≡◌, arith, ap, sym, ◌∙◌}
use wg_manager.Base.{Text, text_eq, text_beq_iff, ◌==◌, elem, any, All}
use wg_manager.Net.{IpNet, net_contains}
use wg_manager.Net.Hosts.{IsNet}
use wg_manager.Net.Overlap.{nets_overlap, nets_overlap_iff}
use wg_manager.Subnet.Routes.{NetEntry}
use wg_manager.Subnet.Conflicts.{collides, conflict_text, conflicts_from, subnet_conflicts}

-- No text stands in the list twice.
abbrev pub AreDistinct : List Text → Type 0
AreDistinct [] = Unit
AreDistinct (s ∷ ss) = (elem s ss ≡ false) × AreDistinct ss

-- Some entry that collides has this text.
abbrev pub has_conflict : IpNet → IpNet → List Text → Text → List NetEntry → Bool
has_conflict old new own s = any (λ e. collides old new own e && conflict_text e == s)

elem-conflicts_from :
    (old new : IpNet) (own seen : List Text) (s : Text) (es : List NetEntry)
    → elem s (conflicts_from old new own seen es)
      ≡ (not (elem s seen) && has_conflict old new own s es)
unfolding conflicts_from
elem-conflicts_from old new own seen s [] = ground arith
elem-conflicts_from old new own seen s (e ∷ es) = ground (
  arith,
  elem-conflicts_from old new own seen s es,
  elem-conflicts_from old new own (conflict_text e ∷ seen) s es,
  text_beq_iff s (conflict_text e),
  text_beq_iff (conflict_text e) s,
)

conflicts_from-AreDistinct :
    (old new : IpNet) (own seen : List Text) (es : List NetEntry)
    → AreDistinct (conflicts_from old new own seen es)
unfolding conflicts_from
conflicts_from-AreDistinct old new own seen [] = tt
conflicts_from-AreDistinct old new own seen (e ∷ es) = ground (
  arith,
  conflicts_from-AreDistinct old new own seen es,
  conflicts_from-AreDistinct old new own (conflict_text e ∷ seen) es,
  elem-conflicts_from old new own (conflict_text e ∷ seen) (conflict_text e) es,
  text_beq_iff (conflict_text e) (conflict_text e),
)

-- The list has exactly the texts of the entries that collide, and each of them once.
pub subnet_conflicts-listed :
    (old new : IpNet) (own : List Text) (entries : List NetEntry)
    → ((s : Text)
        → elem s (subnet_conflicts old new own entries) ≡ has_conflict old new own s entries)
      × AreDistinct (subnet_conflicts old new own entries)
unfolding subnet_conflicts
subnet_conflicts-listed old new own entries = (
  (λ s. elem-conflicts_from old new own [] s entries),
  conflicts_from-AreDistinct old new own [] entries,
)

none_collides :
    (old new : IpNet) (own : List Text) (entries : List NetEntry)
    → ((s : Text) → has_conflict old new own s entries ≡ false)
    → All (λ e. collides old new own e ≡ false) entries
none_collides old new own [] h = tt
none_collides old new own (e ∷ es) h = (
  ground (arith, h (conflict_text e), text_beq_iff (conflict_text e) (conflict_text e)),
  none_collides old new own es λ s. ground (arith, h s),
)

clean_entries :
    (old new : IpNet) (own : List Text) (entries : List NetEntry)
    → subnet_conflicts old new own entries ≡ []
    → All (λ e. collides old new own e ≡ false) entries
clean_entries old new own entries h =
    none_collides old new own entries
      λ s. sym ((subnet_conflicts-listed old new own entries).0 s) ∙ ap (elem s) h

-- An address of the new pool that an entry covers belongs to the pool's own devices or to an entry
-- that overlapped the old pool already.
abbrev pub Tolerates : IpNet → IpNet → List Text → NetEntry → Type 0
Tolerates old new own e =
    (x : ℕ)
    → net_contains new x ≡ true
    → net_contains e.net x ≡ true
    → (elem e.dev own || nets_overlap old e.net) ≡ true

tolerates :
    (old new : IpNet) (own : List Text) (e : NetEntry)
    → IsNet new
    → IsNet e.net
    → collides old new own e ≡ false
    → Tolerates old new own e
unfolding collides
tolerates old new own e vn ve h x p q =
    ground (arith, (nets_overlap_iff new e.net vn ve).1 ∣ (x, p, q) ∣₁)

-- If nothing is listed, then every entry of the host that shares an address with the new pool is on
-- one of the pool's own devices or overlapped the old pool already.
pub subnet_conflicts-clean :
    (old new : IpNet) (own : List Text) (entries : List NetEntry)
    → IsNet new
    → All (λ e. IsNet e.net) entries
    → subnet_conflicts old new own entries ≡ []
    → All (Tolerates old new own) entries
subnet_conflicts-clean old new own entries vn ve h =
    go entries ve (clean_entries old new own entries h)
  where
    go :
        (es : List NetEntry)
        → All (λ e. IsNet e.net) es
        → All (λ e. collides old new own e ≡ false) es
        → All (Tolerates old new own) es
    go [] v c = tt
    go (e ∷ es) (v, vs) (c, cs) = (tolerates old new own e vn v c, go es vs cs)
