-- ===== src/Release/Cache/Spaced.antt =====
-- How often GitHub is asked.
use wg_manager.Base.{ℕ, ◌+◌, ◌≤◌, true, false, Option, none, some, List, [], ◌∷◌, ◌≡◌, arith}
use wg_manager.Base.{if◌then◌else◌, Bool-cases, inl, inr, Text, subst, sym}
use wg_manager.Release.Cache.{
  Cache, reply_error, Reply, release, failed, status, bad_json, LatestRelease, ttl, is_fresh,
  store_reply, fetch_latest_release,
}

-- A call of `fetchLatestRelease`: its time, and what GitHub answers if it is asked.
pub record Call : Type 0 where
  pub now : ℕ
  pub reply : Reply

-- A time is counted if GitHub gives a release.
unfoldable pub count_release : ℕ → Reply → List ℕ → List ℕ
count_release now (release r) ts = now ∷ ts
count_release now (failed e) ts = ts
count_release now (status code text) ts = ts
count_release now (bad_json e) ts = ts

-- The times at which GitHub is asked and gives a release, over a sequence of calls.
unfoldable pub successes : List Call → Cache → List ℕ
unfolding count_release
successes [] c = []
successes (k ∷ ks) c =
    let rest = successes ks (fetch_latest_release k.now k.reply c).0 in
    if is_fresh k.now c then rest else count_release k.now k.reply rest

-- The times do not go back.
abbrev pub AreOrdered : ℕ → List Call → Type 0
AreOrdered t [] = Unit
AreOrdered t (k ∷ ks) = (t ≤ k.now) × AreOrdered k.now ks

-- Each time is at least the time to live after the one before.
abbrev pub AreSpaced : Option ℕ → List ℕ → Type 0
AreSpaced last [] = Unit
AreSpaced none (t ∷ ts) = AreSpaced (some t) ts
AreSpaced (some s) (t ∷ ts) = (s + ttl ≤ t) × AreSpaced (some t) ts

-- An error after a success came no earlier than the time to live after it.
abbrev IsLate : ℕ → Option ℕ → Option Text → Type 0
IsLate t (some s) (some e) = s + ttl ≤ t
IsLate t (some s) none = Unit
IsLate t none e = Unit

abbrev at : Option ℕ → LatestRelease → Option Text → Cache
at f p e = record { fetched = f; payload = p; fetch_err = e }

IsLate-later : (t u : ℕ) (f : Option ℕ) (e : Option Text) → t ≤ u → IsLate t f e → IsLate u f e
IsLate-later t u none e l h = tt
IsLate-later t u (some s) none l h = tt
IsLate-later t u (some s) (some e) l h = omega arith

-- A request that is made is late, whatever its answer.
stale-IsLate :
    (t now : ℕ) (f : Option ℕ) (p : LatestRelease) (e d : Option Text)
    → t ≤ now
    → IsLate t f e
    → is_fresh now (at f p e) ≡ false
    → IsLate now f d
unfolding is_fresh
stale-IsLate t now none p e d l h q = tt
stale-IsLate t now (some s) p e none l h q = tt
stale-IsLate t now (some s) p none (some d) l h q = ground arith
stale-IsLate t now (some s) p (some e) (some d) l h q = omega arith

-- A request that is made, once the calls behind it are known to be spaced.
spaced_step :
    (ks : List Call) (now : ℕ) (reply : Reply) (f : Option ℕ) (p : LatestRelease) (e : Option Text)
    → ((f' : Option ℕ) (p' : LatestRelease) (e' : Option Text)
        → IsLate now f' e'
        → AreSpaced f' (successes ks (at f' p' e')))
    → ((d : Option Text) → IsLate now f d)
    → AreSpaced f (count_release now reply (successes ks (store_reply now reply (at f p e))))
unfolding store_reply reply_error count_release
spaced_step ks now (release r) none p e ih late = ih (some now) r none tt
spaced_step ks now (release r) (some s) p e ih late = (late (some []), ih (some now) r none tt)
spaced_step ks now (failed m) f p e ih late = ih f p (some m) (late (some m))
spaced_step ks now (status code text) f p e ih late = ih f p _ (late _)
spaced_step ks now (bad_json m) f p e ih late = ih f p (some m) (late (some m))

successes-fresh :
    (k : Call) (ks : List Call) (c : Cache)
    → is_fresh k.now c ≡ true
    → successes (k ∷ ks) c ≡ successes ks c
unfolding successes fetch_latest_release
successes-fresh k ks c q = rw q

successes-stale :
    (k : Call) (ks : List Call) (c : Cache)
    → is_fresh k.now c ≡ false
    → successes (k ∷ ks) c
      ≡ count_release k.now k.reply (successes ks (store_reply k.now k.reply c))
unfolding successes fetch_latest_release
successes-stale k ks c q = rw q

spaced_from :
    (ks : List Call) (t : ℕ) (f : Option ℕ) (p : LatestRelease) (e : Option Text)
    → AreOrdered t ks
    → IsLate t f e
    → AreSpaced f (successes ks (at f p e))
unfolding successes
spaced_from [] t f p e o h = tt
spaced_from (k ∷ ks) t f p e (l, o) h = elim (Bool-cases (is_fresh k.now (at f p e))) [
  | inl q ↦
      subst (AreSpaced f) (sym (successes-fresh k ks (at f p e) q))
        (spaced_from ks k.now f p e o (IsLate-later t k.now f e l h))
  | inr q ↦ subst (AreSpaced f) (sym (successes-stale k ks (at f p e) q)) (
      spaced_step ks k.now k.reply f p e (λ f' p' e'. spaced_from ks k.now f' p' e' o)
        (λ d. stale-IsLate t k.now f p e d l h q))
]

-- From an empty cache, and if the clock does not go back, two releases that GitHub gives are at
-- least the time to live apart, whatever fails in between.
pub successes-AreSpaced :
    (ks : List Call) (t : ℕ) (p : LatestRelease)
    → AreOrdered t ks
    → AreSpaced none (successes ks (record { fetched = none; payload = p; fetch_err = none }))
successes-AreSpaced ks t p o = spaced_from ks t none p none o tt
