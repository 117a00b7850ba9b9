-- ===== src/OvpnStatus/Newest.antt =====
-- Which status file is read (ovpn.go): the newest of the candidates that are not empty.
use wg_manager.Base.{ℕ, ◌≤◌, ◌<◌, true, false, Option, none, some, List, [], ◌∷◌, ◌≡◌}
use wg_manager.Base.{refl, arith, ap, ◌∙◌, ◌⊎◌, inl, inr, Bool-cases, Text, nat_eq, ◌==◌, ltb}
use wg_manager.Base.{some_inj}
use mathlib.Core.List.{Memᴰ}
use mathlib.Core.List.Memᴰ
use wg_manager.Settings.{Config}
use wg_manager.OvpnStatus.{Candidate, newest, resolve_ovpn_status}

-- A candidate of the list that is not empty and whose path is the answer.
record IsPick (cs : List (Option Candidate)) (answer : Text) (d : Candidate) : Type 0 where
  among : Memᴰ (some d) cs
  filled : (d.size == 0) ≡ false
  path_eq : answer ≡ d.path

later :
    (o : Option Candidate) (cs : List (Option Candidate)) (t : Text) (d : Candidate)
    → IsPick cs t d
    → IsPick (o ∷ cs) t d
later o cs t d k = record { among = Memᴰ.tail k.among; filled = k.filled; path_eq = k.path_eq }

newest-skip :
    (e : Candidate) (cs : List (Option Candidate)) (best : Text) (m : ℕ)
    → (e.size == 0) ≡ true
    → newest (some e ∷ cs) best m ≡ newest cs best m
unfolding newest
newest-skip e cs best m h = rw h

newest-older :
    (e : Candidate) (cs : List (Option Candidate)) (best : Text) (m : ℕ)
    → (e.size == 0) ≡ false
    → ltb m e.modified ≡ false
    → newest (some e ∷ cs) best m ≡ newest cs best m
unfolding newest
newest-older e cs best m h l = rw (h, l)

newest-newer :
    (e : Candidate) (cs : List (Option Candidate)) (best : Text) (m : ℕ)
    → (e.size == 0) ≡ false
    → ltb m e.modified ≡ true
    → newest (some e ∷ cs) best m ≡ newest cs e.path e.modified
unfolding newest
newest-newer e cs best m h l = rw (h, l)

moved :
    (cs : List (Option Candidate)) {s t : Text} (d : Candidate)
    → s ≡ t
    → IsPick cs t d
    → IsPick cs s d
moved cs d e k = record { among = k.among; filled = k.filled; path_eq = e ∙ k.path_eq }

-- The best so far stays, or a newer candidate takes its place.
newest_kept :
    (cs : List (Option Candidate)) (best : Text) (m : ℕ)
    → (newest cs best m ≡ best)
      ⊎ ((d : Candidate) × IsPick cs (newest cs best m) d × (m ≤ d.modified))
unfolding newest
newest_kept [] best m = inl refl
newest_kept (none ∷ cs) best m = elim (newest_kept cs best m) [
  | inl q ↦ inl q
  | inr (d, k, l) ↦ inr (d, later none cs _ d k, l)
]
newest_kept (some e ∷ cs) best m = elim (Bool-cases (e.size == 0)) [
  | inl h ↦ elim (newest_kept cs best m) [
    | inl q ↦ inl (newest-skip e cs best m h ∙ q)
    | inr (d, k, l) ↦ inr (d, moved _ d (newest-skip e cs best m h) (later (some e) cs _ d k), l)
  ]
  | inr h ↦ elim (Bool-cases (ltb m e.modified)) [
    | inr o ↦ elim (newest_kept cs best m) [
      | inl q ↦ inl (newest-older e cs best m h o ∙ q)
      | inr (d, k, l) ↦
          inr (d, moved _ d (newest-older e cs best m h o) (later (some e) cs _ d k), l)
    ]
    | inl n ↦ elim (newest_kept cs e.path e.modified) [
      | inl q ↦ inr (
        e,
        record { among = Memᴰ.head refl; filled = h; path_eq = newest-newer e cs best m h n ∙ q },
        ground arith,
      )
      | inr (d, k, l) ↦
          inr (d, moved _ d (newest-newer e cs best m h n) (later (some e) cs _ d k), ground arith)
    ]
  ]
]

picked :
    (cs : List (Option Candidate)) (best : Text) (m : ℕ) (c : Candidate)
    → Memᴰ (some c) cs
    → (c.size == 0) ≡ false
    → m < c.modified
    → (d : Candidate) × IsPick cs (newest cs best m) d × (c.modified ≤ d.modified)
unfolding newest
picked [] best m c k f l = absurd (Memᴰ.not-nil k)
picked (none ∷ cs) best m c k f l = elim (Memᴰ.cases_cons k) [
  | inl q ↦ cc
  | inr t ↦ let (d, i, u) = picked cs best m c t f l in (d, later none cs _ d i, u)
]
picked (some e ∷ cs) best m c k f l = elim (Bool-cases (e.size == 0)) [
  | inl h ↦ elim (Memᴰ.cases_cons k) [
    | inl q ↦ absurd (ground (arith, ap (λ (x : Candidate). x.size) (some_inj q)))
    | inr t ↦
        let (d, i, u) = picked cs best m c t f l in
        (d, moved _ d (newest-skip e cs best m h) (later (some e) cs _ d i), u)
  ]
  | inr h ↦ elim (Bool-cases (ltb m e.modified)) [
    | inr o ↦ elim (Memᴰ.cases_cons k) [
      | inl q ↦ absurd (ground (arith, ap (λ (x : Candidate). x.modified) (some_inj q)))
      | inr t ↦
          let (d, i, u) = picked cs best m c t f l in
          (d, moved _ d (newest-older e cs best m h o) (later (some e) cs _ d i), u)
    ]
    | inl n ↦ elim (Bool-cases (ltb e.modified c.modified)) [
      | inl n2 ↦ elim (Memᴰ.cases_cons k) [
        | inl q ↦ absurd (ground (arith, ap (λ (x : Candidate). x.modified) (some_inj q)))
        | inr t ↦
            let (d, i, u) = picked cs e.path e.modified c t f (ground arith) in
            (d, moved _ d (newest-newer e cs best m h n) (later (some e) cs _ d i), u)
      ]
      | inr o2 ↦ elim (newest_kept cs e.path e.modified) [
        | inl q ↦ (
          e,
          record { among = Memᴰ.head refl; filled = h; path_eq = newest-newer e cs best m h n ∙ q },
          ground arith,
        )
        | inr (d, i, u) ↦
            (d, moved _ d (newest-newer e cs best m h n) (later (some e) cs _ d i), ground arith)
      ]
    ]
  ]
]

-- Without a configured path, and if some candidate has content and a time, the answer is the path of
-- a candidate that has content and is not older.
pub resolve_ovpn_status-newest :
    (cfg : Config) (cs : List (Option Candidate)) (c : Candidate)
    → cfg.ovpn_status ≡ []
    → Memᴰ (some c) cs
    → (c.size == 0) ≡ false
    → 0 < c.modified
    → (d : Candidate) × Memᴰ (some d) cs
      × ((d.size == 0) ≡ false)
      × (c.modified ≤ d.modified)
      × (resolve_ovpn_status cfg cs ≡ d.path)
unfolding resolve_ovpn_status
resolve_ovpn_status-newest cfg cs c e k f l =
    let (d, i, u) = picked cs [] 0 c k f l in (d, i.among, i.filled, u, rw e i.path_eq)
