-- ===== src/Login/Access.antt =====
-- Access needs the token or the password.
use wg_manager.Base.{
  Option-cases, Bool-cases, inl, inr, split, drop, true, [], ◌∷◌, ◌≡◌, ◌≢◌, ◌↔◌, refl, arith, Text,
  lit, text_eq, text_beq_iff,
}
use wg_manager.Recharge.{Result}
use wg_manager.Settings.{Config}
use wg_manager.Login.Routes.{
  Backend, ApiCall, Endpoint, on_serve_ui, on_login_page, on_health, serve, run_open, below_base,
  find_route, routes, is_open,
}
use wg_manager.Login.{Request, Response, supplied_token, auth_ok, guard}

-- The check passes exactly for a token that is set and is the one supplied.
pub auth_ok_iff :
    (r : Request) (token : Text)
    → (auth_ok r token ≡ true) ↔ ((token ≢ []) × (supplied_token r ≡ token))
unfolding auth_ok
auth_ok_iff r [] = ground arith
auth_ok_iff r (c ∷ token) = ground (arith, text_beq_iff (supplied_token r) (c ∷ token))

-- Behind the guard nothing happens without the token, whatever the handler does.
pub guard-denied :
    {A : Type 0} (token : Text) (handler : Request → A → Result Response × A) (r : Request)
    (world : A)
    → supplied_token r ≢ token
    → guard token handler r world ≡ (record { status = 401; body = lit "unauthorized" }, world)
unfolding guard auth_ok
guard-denied [] handler r world h = refl
guard-denied (c ∷ token) handler r world h =
    ground (arith, text_beq_iff (supplied_token r) (c ∷ token))

-- The handlers that are registered without the guard neither read the state nor change it.
open_harmless :
    {A : Type 0} (k : Backend A) (cfg : Config) (r : ApiCall) (e : Endpoint) (name : Text)
    (world other : A)
    → is_open e ≡ true
    → ((run_open k cfg r e name world).1 ≡ world)
      × ((run_open k cfg r e name world).0 ≡ (run_open k cfg r e name other).0)
unfolding run_open is_open
open_harmless k cfg r on_serve_ui name world other o = (refl, refl)
open_harmless k cfg r on_login_page name world other o = (refl, refl)
open_harmless k cfg r on_health name world other o = (refl, refl)
open_harmless k cfg r e name world other o = cc

-- A request that does not supply the token leaves the state as it is, and its answer tells nothing
-- of the state, whatever its method and its path, and whatever the handlers do.
pub serve-denied :
    {A : Type 0} (k : Backend A) (cfg : Config) (r : ApiCall) (world other : A)
    → supplied_token r.headers ≢ cfg.api_token
    → ((serve k cfg r world).1 ≡ world) × ((serve k cfg r world).0 ≡ (serve k cfg r other).0)
unfolding serve
serve-denied {A} k cfg r world other n = elim (Option-cases (below_base cfg.base_path r.path)) [
  | inl q ↦ rw (serve, q) (refl, refl)
  | inr (sub, q) ↦ elim (Option-cases (find_route r.method (drop 1 (split b'/' sub)) routes)) [
    | inl f ↦ rw (serve, q, f) (refl, refl)
    | inr ((e, name), f) ↦ elim (Bool-cases (is_open e)) [
      | inl o ↦ rw (serve, q, f, o) (open_harmless k cfg r e name world other o)
      | inr o ↦
          rw
            (
              serve,
              q,
              f,
              o,
              guard-denied cfg.api_token (k.handlers e name) r.headers world n,
              guard-denied cfg.api_token (k.handlers e name) r.headers other n,
            )
            (refl, refl)
    ]
  ]
]
