-- ===== src/ServerAddress/Public.antt =====
-- The address that is detected is a public one.
use wg_manager.Base.{ℕ, false, Option, none, some, List, [], ◌∷◌, ◌≡◌, refl, arith, inl, inr}
use wg_manager.Base.{Text, Bool, true, Bool-cases, ◌||◌, ◌++◌, ◌∙◌, ap, subst, All, some_inj}
use wg_manager.Net.{ip_string, parse_ip}
use wg_manager.Settings.{Config}
use mathlib.Core.List.{Memᴰ}
use mathlib.Core.List.Memᴰ
use wg_manager.ServerAddress.{
  is_loopback, is_link_local, is_private, first_public, from_params, server_public_ip,
}

-- An address that may be shown: none of the ranges that are skipped.
pub record IsPublic (ip : ℕ) : Type 0 where
  pub not_loopback : is_loopback ip ≡ false
  pub not_link_local : is_link_local ip ≡ false
  pub not_private : is_private ip ≡ false

-- An address that the search passes over: none that is IPv4, or one that may not be shown.
abbrev pub IsPassed : Option ℕ → Type 0
IsPassed none = Unit
IsPassed (some ip) = (is_loopback ip || is_link_local ip || is_private ip) ≡ true

-- Where the search ends: at the first address that may be shown.
abbrev pub IsFirst : List (Option ℕ) → ℕ → Type 0
IsFirst found b =
    (before after : List (Option ℕ)) × (found ≡ before ++ (some b ∷ after)) × All IsPassed before

not_passed : (ip : ℕ) → IsPublic ip → (is_loopback ip || is_link_local ip || is_private ip) ≡ false
not_passed ip v = ground (arith, v.not_loopback, v.not_link_local, v.not_private)

pass_over :
    (o : Option ℕ) (found : List (Option ℕ)) (b : ℕ)
    → IsPassed o
    → IsFirst found b
    → IsFirst (o ∷ found) b
pass_over o found b h (before, after, e, hs) = (o ∷ before, after, ap (λ x. o ∷ x) e, (h, hs))

first_public_found :
    (found : List (Option ℕ)) (a : ℕ)
    → Memᴰ (some a) found
    → IsPublic a
    → (b : ℕ) × IsFirst found b × IsPublic b × (first_public found ≡ ip_string b)
unfolding first_public
first_public_found [] a k v = absurd (Memᴰ.not-nil k)
first_public_found (none ∷ more) a k v = elim (Memᴰ.cases_cons k) [
  | inl q ↦ cc
  | inr t ↦
      let (b, i, u, e) = first_public_found more a t v in (b, pass_over none more b tt i, u, e)
]
first_public_found (some ip ∷ more) a k v =
    elim (Bool-cases (is_loopback ip || is_link_local ip || is_private ip)) [
      | inl h ↦ elim (Memᴰ.cases_cons k) [
        | inl q ↦
            absurd
              (ground (arith, h, not_passed ip (subst IsPublic (some_inj {a = a} {b = ip} q) v)))
        | inr t ↦
            let (b, i, u, e) = first_public_found more a t v in
            (b, pass_over (some ip) more b h i, u, passed_on ip more h ∙ e)
      ]
      | inr h ↦ (
        ip,
        ([], more, refl, tt),
        record {
          not_loopback = ground arith;
          not_link_local = ground arith;
          not_private = ground arith;
        },
        ended ip more h,
      )
    ]
  where
    passed_on :
        (x : ℕ) (rest : List (Option ℕ))
        → (is_loopback x || is_link_local x || is_private x) ≡ true
        → first_public (some x ∷ rest) ≡ first_public rest
    passed_on x rest h = ground (arith, h)

    ended :
        (x : ℕ) (rest : List (Option ℕ))
        → (is_loopback x || is_link_local x || is_private x) ≡ false
        → first_public (some x ∷ rest) ≡ ip_string x
    ended x rest h = ground (arith, h)

-- If the file of parameters gives no value, the endpoint is no address, and some interface has an
-- IPv4 address that is not loopback, link-local or private, then the answer is the first such
-- address of the interfaces.
pub server_public_ip-detected :
    (other_ip : Text → Bool) (file : Option Text) (found : List (Option ℕ)) (cfg : Config) (a : ℕ)
    → from_params file cfg ≡ []
    → parse_ip cfg.ovpn_endpoint ≡ none
    → other_ip cfg.ovpn_endpoint ≡ false
    → Memᴰ (some a) found
    → IsPublic a
    → (b : ℕ) × IsFirst found b
      × IsPublic b
      × (server_public_ip other_ip file (some found) cfg ≡ ip_string b)
unfolding server_public_ip
server_public_ip-detected other_ip file found cfg a p q o k v =
    let (b, i, u, e) = first_public_found found a k v in (b, i, u, rw (p, q, o) e)
