-- ===== src/Store/Map.antt =====
-- The peers table as a map from usernames to users: what a caller of the statements of main.go, who
-- looks a user up by its name and writes by its id, can rely on.
use wg_manager.Base.{
  ℕ, ◌+◌, false, Option, none, some, List, [], ◌∷◌, ◌++◌, ◌≡◌, ◌≢◌, refl, arith, ap, ap₂, sym, ◌∙◌,
  subst, inl, inr,
}
use wg_manager.Base.{
  Text, text_eq, text_beq_iff, beq_self, nat_eq, nat_beq_iff, ◌==◌, if◌then◌else◌, any, All,
  Bool-cases, Option-cases, some_inj,
}
use wg_manager.Store.{
  Peer, Table, find_user, get_peer, update_rows, update_peer, delete_rows, delete_peer, insert_peer,
  clashes,
}
use wg_manager.Store.Laws.{
  IsValid, AreDistinct, Apart, KeepsKeys, update_peer-IsValid, delete_peer-IsValid,
  insert_peer-IsValid, get_peer-update_peer,
}

-- A statement that writes users.
pub data Write : Type 0 where
  add : Peer → Write
  change : Text → (Peer → Peer) → Write
  remove : Text → Write

-- The statement on the table; `none` where a constraint is violated or the user is not there.
unfoldable pub run_write : Write → Table → Option Table
unfolding get_peer update_peer delete_peer insert_peer
run_write (add p) t = insert_peer p t
run_write (change name f) t = elim (get_peer t name) [
  | none ↦ none
  | some q ↦ some (update_peer q.id f t)
]
run_write (remove name) t = elim (get_peer t name) [
  | none ↦ none
  | some q ↦ some (delete_peer q.id t)
]

unfoldable pub run_writes : List Write → Table → Option Table
unfolding run_write
run_writes [] t = some t
run_writes (w ∷ ws) t = elim (run_write w t) [ none ↦ none | some u ↦ run_writes ws u ]

-- The map, and the id of the next user.
pub record Register : Type 0 where
  pub next : ℕ
  pub at : Text → Option Peer

-- What a statement does to the map.
abbrev pub map_write : Write → Register → Register
map_write (add p) r = record {
  next = r.next + 1;
  at = λ name. if p.username == name then some (record p { id = r.next }) else r.at name;
}
map_write (change k f) r = record {
  next = r.next;
  at = λ name. if k == name then elim (r.at k) [ none ↦ none | some q ↦ some (f q) ] else r.at name;
}
map_write (remove k) r = record {
  next = r.next;
  at = λ name. if k == name then none else r.at name;
}

abbrev pub map_writes : List Write → Register → Register
map_writes [] r = r
map_writes (w ∷ ws) r = map_writes ws (map_write w r)

-- The table holds the map.
pub record Matches (t : Table) (r : Register) : Type 0 where
  pub next : t.next_id ≡ r.next
  pub at : (name : Text) → get_peer t name ≡ r.at name

-- A change that leaves the id and the unique columns alone.
abbrev pub IsAllowed : Write → Type 0
IsAllowed (add p) = Unit
IsAllowed (change name f) = KeepsKeys f
IsAllowed (remove name) = Unit

ids_differ : (i j : ℕ) → i ≢ j → (i == j) ≡ false
ids_differ i j d = elim (Bool-cases (i == j)) [
  | inl e ↦ absurd (d ((nat_beq_iff i j).0 e))
  | inr e ↦ e
]

-- The row of a name among rows whose ids differ from another.
found-other_id :
    (p q : Peer) (name : Text) (ps : List Peer)
    → All (Apart p) ps
    → find_user name ps ≡ some q
    → (p.id == q.id) ≡ false
unfolding find_user
found-other_id p q name [] a h = cc
found-other_id p q name (r ∷ ps) ((d, c), a) h = elim (Bool-cases (r.username == name)) [
  | inr e ↦ found-other_id p q name ps a (rw e at h)
  | inl e ↦
      subst (λ (x : Peer). (p.id == x.id) ≡ false) (some_inj (rw e at h)) (ids_differ p.id r.id d)
]

update_rows-Apart :
    (p : Peer) (f : Peer → Peer) (ps : List Peer) → All (Apart p) ps → update_rows p.id f ps ≡ ps
unfolding update_rows
update_rows-Apart p f [] a = refl
update_rows-Apart p f (q ∷ ps) ((d, c), a) =
    ground (arith, ids_differ q.id p.id (λ e. d (sym e)), update_rows-Apart p f ps a)

delete_rows-Apart : (p : Peer) (ps : List Peer) → All (Apart p) ps → delete_rows p.id ps ≡ ps
unfolding delete_rows
delete_rows-Apart p [] a = refl
delete_rows-Apart p (q ∷ ps) ((d, c), a) =
    ground (arith, ids_differ q.id p.id (λ e. d (sym e)), delete_rows-Apart p ps a)

-- The row itself is written, and another name is asked for.
own_update :
    (m name : Text) (p : Peer) (f : Peer → Peer) (ps : List Peer)
    → KeepsKeys f
    → All (Apart p) ps
    → p.username ≡ m
    → (m == name) ≡ false
    → find_user name (update_rows p.id f (p ∷ ps)) ≡ find_user name (p ∷ ps)
unfolding find_user update_rows
own_update m name p f ps k a named n =
    let e : ((f p).username == name) ≡ false = rw ((k p).1, named) n in
    let e' : (p.username == name) ≡ false = rw named n in
    rw (beq_self p.id, update_rows-Apart p f ps a, e, e') refl

own_delete :
    (m name : Text) (p : Peer) (ps : List Peer)
    → All (Apart p) ps
    → p.username ≡ m
    → (m == name) ≡ false
    → find_user name (delete_rows p.id (p ∷ ps)) ≡ find_user name (p ∷ ps)
unfolding find_user delete_rows
own_delete m name p ps a named n =
    let e' : (p.username == name) ≡ false = rw named n in
    rw (beq_self p.id, delete_rows-Apart p ps a, e') refl

-- What is found under another name than that of the row that is written.
find_user-update_rows-other :
    (m name : Text) (q : Peer) (f : Peer → Peer) (ps : List Peer)
    → KeepsKeys f
    → AreDistinct ps
    → find_user m ps ≡ some q
    → (m == name) ≡ false
    → find_user name (update_rows q.id f ps) ≡ find_user name ps
unfolding find_user update_rows
find_user-update_rows-other m name q f [] k d h n = refl
find_user-update_rows-other m name q f (p ∷ ps) k (a, d) h n = elim (Bool-cases (p.username == m)) [
  | inl e ↦
      let own : p ≡ q = some_inj (rw e at h) in
      let named : p.username ≡ m = (text_beq_iff p.username m).0 e in
      subst (λ (x : Peer). find_user name (update_rows x.id f (p ∷ ps)) ≡ find_user name (p ∷ ps))
        own (own_update m name p f ps k a named n)
  | inr e ↦
      let found : find_user m ps ≡ some q = rw e at h in
      ground (
        arith,
        found-other_id p q m ps a found,
        find_user-update_rows-other m name q f ps k d found n,
      )
]

find_user-delete_rows-other :
    (m name : Text) (q : Peer) (ps : List Peer)
    → AreDistinct ps
    → find_user m ps ≡ some q
    → (m == name) ≡ false
    → find_user name (delete_rows q.id ps) ≡ find_user name ps
unfolding find_user delete_rows
find_user-delete_rows-other m name q [] d h n = refl
find_user-delete_rows-other m name q (p ∷ ps) (a, d) h n = elim (Bool-cases (p.username == m)) [
  | inl e ↦
      let own : p ≡ q = some_inj (rw e at h) in
      let named : p.username ≡ m = (text_beq_iff p.username m).0 e in
      subst (λ (x : Peer). find_user name (delete_rows x.id (p ∷ ps)) ≡ find_user name (p ∷ ps)) own
        (own_delete m name p ps a named n)
  | inr e ↦
      let found : find_user m ps ≡ some q = rw e at h in
      ground
        (arith, found-other_id p q m ps a found, find_user-delete_rows-other m name q ps d found n)
]

find_user-append :
    (name : Text) (ps : List Peer) (r : Peer)
    → find_user name (ps ++ (r ∷ [])) ≡ (elim (find_user name ps) [
      | some q ↦ some q
      | none ↦ if r.username == name then some r else none
    ])
unfolding find_user
find_user-append name [] r = refl
find_user-append name (p ∷ ps) r = ground (arith, find_user-append name ps r)

find_user-fresh :
    (p : Peer) (ps : List Peer) → any (clashes p) ps ≡ false → find_user p.username ps ≡ none
unfolding find_user clashes
find_user-fresh p [] h = refl
find_user-fresh p (q ∷ ps) h = ground (
  arith,
  h,
  find_user-fresh p ps,
  text_beq_iff p.username q.username,
  text_beq_iff q.username p.username,
)

find_user-removed :
    (p : Peer) (name : Text) (i : ℕ) (ps : List Peer)
    → p.username ≡ name
    → All (Apart p) ps
    → find_user name (delete_rows i ps) ≡ none
unfolding find_user delete_rows clashes
find_user-removed p name i [] e h = refl
find_user-removed p name i (q ∷ ps) e (h, hs) = ground (
  arith,
  h,
  e,
  find_user-removed p name i ps e hs,
  text_beq_iff p.username q.username,
  text_beq_iff q.username name,
)

pub find_deleted :
    (name : Text) (q : Peer) (ps : List Peer)
    → find_user name ps ≡ some q
    → AreDistinct ps
    → find_user name (delete_rows q.id ps) ≡ none
unfolding find_user delete_rows
find_deleted name q [] h d = refl
find_deleted name q (p ∷ ps) h (a, d) = elim (Bool-cases (p.username == name)) [
  | inl e ↦
      let same : p.id ≡ q.id = ap (λ (x : Peer). x.id) (some_inj (rw e at h)) in
      ground (arith, same, find_user-removed p name q.id ps ((text_beq_iff p.username name).0 e) a)
  | inr e ↦ ground (arith, e, find_deleted name q ps (rw e at h) d)
]

kept_or_none : (o : Option Peer) → (elim o [ some q ↦ some q | none ↦ none ]) ≡ o
kept_or_none none = refl
kept_or_none (some q) = refl

added_at :
    (p : Peer) (ps : List Peer) (i : ℕ) (name : Text)
    → any (clashes p) ps ≡ false
    → find_user name (ps ++ (record p { id = i } ∷ []))
      ≡ (if p.username == name then some (record p { id = i }) else find_user name ps)
added_at p ps i name h =
    find_user-append name ps (record p { id = i }) ∙ elim (Bool-cases (p.username == name)) [
      | inr e ↦ ground (arith, e, kept_or_none (find_user name ps))
      | inl e ↦
          let fresh : find_user name ps ≡ none =
            subst (λ (x : Text). find_user x ps ≡ none) ((text_beq_iff p.username name).0 e)
              (find_user-fresh p ps h) in
          ground (arith, e, fresh)
    ]

changed_at :
    (k name : Text) (f : Peer → Peer) (t : Table) (p : Peer)
    → KeepsKeys f
    → IsValid t
    → get_peer t k ≡ some p
    → get_peer (update_peer p.id f t) name ≡ (if k == name then some (f p) else get_peer t name)
unfolding get_peer update_peer
changed_at k name f t p same v q = elim (Bool-cases (k == name)) [
  | inl e ↦ rw e (
      subst (λ (x : Text). find_user x (update_rows p.id f t.rows) ≡ some (f p))
        ((text_beq_iff k name).0 e) (get_peer-update_peer f k t same q))
  | inr e ↦ rw e (find_user-update_rows-other k name p f t.rows same v.distinct q e)
]

removed_at :
    (k name : Text) (t : Table) (p : Peer)
    → IsValid t
    → get_peer t k ≡ some p
    → get_peer (delete_peer p.id t) name ≡ (if k == name then none else get_peer t name)
unfolding get_peer delete_peer
removed_at k name t p v q = elim (Bool-cases (k == name)) [
  | inl e ↦ rw e (
      subst (λ (x : Text). find_user x (delete_rows p.id t.rows) ≡ none) ((text_beq_iff k name).0 e)
        (find_deleted k p t.rows q v.distinct))
  | inr e ↦ rw e (find_user-delete_rows-other k name p t.rows v.distinct q e)
]

add-Matches :
    (p : Peer) (t u : Table) (r : Register)
    → Matches t r
    → insert_peer p t ≡ some u
    → Matches u (map_write (add p) r)
unfolding insert_peer get_peer
add-Matches p t u r v e = elim (Bool-cases (any (clashes p) t.rows)) [
  | inl q ↦ cc (rw q at e)
  | inr q ↦
      subst (λ (x : Table). Matches x (map_write (add p) r)) (some_inj (rw q at e))
        record {
          next = ap (λ (n : ℕ). n + 1) v.next;
          at = λ name.
              added_at p t.rows t.next_id name q
              ∙ ap₂
                  (λ (i : ℕ) (o : Option Peer).
                    if p.username == name then some (record p { id = i }) else o)
                  v.next (v.at name);
        }
]

change-Matches :
    (k : Text) (f : Peer → Peer) (t u : Table) (r : Register)
    → KeepsKeys f
    → IsValid t
    → Matches t r
    → run_write (change k f) t ≡ some u
    → Matches u (map_write (change k f) r)
unfolding run_write
change-Matches k f t u r same v m e = elim (Option-cases (get_peer t k)) [
  | inl q ↦ cc (rw (run_write, q) at e)
  | inr (p, q) ↦
      subst (λ (x : Table). Matches x (map_write (change k f) r))
        (some_inj (rw (run_write, q) at e))
        record {
          next = m.next;
          at = λ name.
              changed_at k name f t p same v q
              ∙ ap₂ (λ (a b : Option Peer). if k == name then a else b)
                  (ap
                    (λ (o : Option Peer). elim o as (λ x. Option Peer) [
                      | none ↦ none
                      | some x ↦ some (f x)
                    ])
                    (sym q ∙ m.at k))
                  (m.at name);
        }
]

remove-Matches :
    (k : Text) (t u : Table) (r : Register)
    → IsValid t
    → Matches t r
    → run_write (remove k) t ≡ some u
    → Matches u (map_write (remove k) r)
unfolding run_write
remove-Matches k t u r v m e = elim (Option-cases (get_peer t k)) [
  | inl q ↦ cc (rw (run_write, q) at e)
  | inr (p, q) ↦
      subst (λ (x : Table). Matches x (map_write (remove k) r)) (some_inj (rw (run_write, q) at e))
        record {
          next = m.next;
          at = λ name.
              removed_at k name t p v q
              ∙ ap (λ (o : Option Peer). if k == name then none else o) (m.at name);
        }
]

-- The statements keep a valid table valid.
run_write-IsValid :
    (w : Write) (t u : Table) → IsAllowed w → IsValid t → run_write w t ≡ some u → IsValid u
unfolding run_write
run_write-IsValid (add p) t u a v e = insert_peer-IsValid p t v e
run_write-IsValid (change k f) t u a v e = elim (Option-cases (get_peer t k)) [
  | inl q ↦ cc (rw (run_write, q) at e)
  | inr (p, q) ↦
      subst IsValid (some_inj (rw (run_write, q) at e)) (update_peer-IsValid p.id f a t v)
]
run_write-IsValid (remove k) t u a v e = elim (Option-cases (get_peer t k)) [
  | inl q ↦ cc (rw (run_write, q) at e)
  | inr (p, q) ↦ subst IsValid (some_inj (rw (run_write, q) at e)) (delete_peer-IsValid p.id t v)
]

run_write-Matches :
    (w : Write) (t u : Table) (r : Register)
    → IsAllowed w
    → IsValid t
    → Matches t r
    → run_write w t ≡ some u
    → Matches u (map_write w r)
unfolding run_write
run_write-Matches (add p) t u r a v m e = add-Matches p t u r m e
run_write-Matches (change k f) t u r a v m e = change-Matches k f t u r a v m e
run_write-Matches (remove k) t u r a v m e = remove-Matches k t u r v m e

-- A valid table refines the map from usernames to users: if it holds a map, then after statements
-- that all succeed, and whose changes leave the ids and the unique columns alone, it holds the map
-- that the same statements make of it.
pub run_writes-Matches :
    (ws : List Write) (t u : Table) (r : Register)
    → All IsAllowed ws
    → IsValid t
    → Matches t r
    → run_writes ws t ≡ some u
    → Matches u (map_writes ws r)
unfolding run_writes
run_writes-Matches [] t u r a v m e = subst (λ (x : Table). Matches x r) (some_inj e) m
run_writes-Matches (w ∷ ws) t u r (a, as') v m e = elim (Option-cases (run_write w t)) [
  | inl q ↦ cc (rw (run_writes, q) at e)
  | inr (s, q) ↦
      run_writes-Matches ws s u (map_write w r) as' (run_write-IsValid w t s a v q)
        (run_write-Matches w t s r a v m q) (rw (run_writes, q) at e)
]
