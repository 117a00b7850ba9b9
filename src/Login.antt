-- ===== src/Login.antt =====
-- Who may call the panel (login.go and api.go). The length of a new password is counted in bytes by
-- the source, and a text here is the list of its bytes.
pub mod Access
pub mod Routes
use wg_manager.Base.{
  ℕ, ltb, Bool, true, false, not, ◌&&◌, ◌||◌, Option, none, some, List, [], ◌∷◌, Text, lit, text_eq,
}
use wg_manager.Base.{◌==◌, if◌then◌else◌, is_empty, trim_prefix, length}
use wg_manager.Settings.{Config}
use wg_manager.Recharge.{Result, ok, err}

-- The two headers of a request that `authOK` reads.
pub record Request : Type 0 where
  pub authorization : Text
  pub api_token : Text

unfoldable pub supplied_token : Request → Text
supplied_token r =
    let bearer = trim_prefix r.authorization (lit "Bearer ") in
    if is_empty bearer then r.api_token else bearer

-- `authOK`
unfoldable pub auth_ok : Request → Text → Bool
unfolding supplied_token
auth_ok r token = if is_empty token then false else supplied_token r == token

-- A status and a body.
pub record Response : Type 0 where
  pub status : ℕ
  pub body : Text

-- `guard`: what a handler returns or dies with, behind the check of the token.
unfoldable pub guard :
    {A : Type 0} → Text → (Request → A → Result Response × A) → Request → A → Response × A
unfolding auth_ok
guard token handler r world =
    if not (auth_ok r token)
    then (record { status = 401; body = lit "unauthorized" }, world)
    else let (result, world') = handler r world in
      (elim result [ ok response ↦ response | err e ↦ record { status = 400; body = e } ], world')

module _ (check_pass : Text → Text → Bool) (hash_pass : Text → Text) where
  -- `login`: the token for the right name and password
  unfoldable pub login : Config → Text → Text → Response
  login cfg username password =
      let user = if is_empty cfg.admin_user then lit "admin" else cfg.admin_user in
      if not (is_empty cfg.admin_pass_hash)
        && (username == user && check_pass cfg.admin_pass_hash password)
      then record { status = 200; body = cfg.api_token }
      else record { status = 401; body = lit "invalid username or password" }

  -- `changePassword`, on the settings in memory and those of the file.
  unfoldable pub change_password : Text → Text → Config × Config → Result (Config × Config)
  change_password current new (cfg, file) =
      if ltb (length new) 4
      then err (lit "new password must be at least 4 characters")
      else if not (is_empty cfg.admin_pass_hash) && not (check_pass cfg.admin_pass_hash current)
      then err (lit "current password is incorrect")
      else ok (
        record cfg { admin_pass_hash = hash_pass new },
        record file { admin_pass_hash = hash_pass new },
      )
