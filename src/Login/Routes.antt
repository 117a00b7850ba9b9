-- ===== src/Login/Routes.antt =====
-- The routes of the panel (`startAPI` in api.go): which handler a request reaches, and which of them
-- stand behind the guard.
use wg_manager.Base.{
  Bool, true, false, ◌&&◌, ◌||◌, Option, none, some, List, [], ◌∷◌, ◌++◌, Text, lit, text_eq, ◌==◌,
}
use wg_manager.Base.{if◌then◌else◌, is_empty, has_prefix, after_prefix, split, drop}
use wg_manager.Settings.{Config, norm_base}
use wg_manager.Recharge.{Result, ok, err}
use wg_manager.Login.{Request, Response, guard, login}

-- The handlers.
pub data Endpoint : Type 0 where
  on_serve_ui on_login_page on_health : Endpoint
  on_change_password on_get_api_token on_regen_api_token on_update_server on_version : Endpoint
  on_export_migration on_import_migration on_export_bundle on_import_bundle : Endpoint
  on_list_peers on_create_peer on_show_peer on_delete_peer on_get_config on_qr_peer : Endpoint
  on_recharge on_renew on_set_quota on_enable on_disable on_sync : Endpoint
  on_ovpn_add on_ovpn_config on_ovpn_remove : Endpoint

-- A segment of a pattern: a word, or `{name}`.
pub data Segment : Type 0 where
  word : Text → Segment
  any_name : Segment

pub record Route : Type 0 where
  pub method : Text
  pub pattern : List Segment
  pub endpoint : Endpoint

abbrev route : Text → List Segment → Endpoint → Route
route m p e = record { method = m; pattern = p; endpoint = e }

abbrev get : Text
unfolding lit
get = lit "GET"

abbrev post : Text
unfolding lit
post = lit "POST"

abbrev delete : Text
unfolding lit
delete = lit "DELETE"

abbrev peer_path : List Segment → List Segment
unfolding lit
peer_path more = word (lit "peers") ∷ any_name ∷ more

-- The patterns but `GET /`, which takes what no other pattern takes.
unfoldable pub routes : List Route
unfolding get post delete peer_path lit
routes =
    route post (word (lit "login") ∷ []) on_login_page
    ∷ route post (word (lit "change-password") ∷ []) on_change_password
    ∷ route get (word (lit "api-token") ∷ []) on_get_api_token
    ∷ route post (word (lit "api-token") ∷ word (lit "regenerate") ∷ []) on_regen_api_token
    ∷ route post (word (lit "update") ∷ []) on_update_server
    ∷ route get (word (lit "version") ∷ []) on_version
    ∷ route get (word (lit "migration") ∷ word (lit "export") ∷ []) on_export_migration
    ∷ route post (word (lit "migration") ∷ word (lit "import") ∷ []) on_import_migration
    ∷ route get (word (lit "migration") ∷ word (lit "bundle") ∷ []) on_export_bundle
    ∷ route post (word (lit "migration") ∷ word (lit "bundle") ∷ []) on_import_bundle
    ∷ route get (peer_path (word (lit "qr") ∷ [])) on_qr_peer
    ∷ route get (word (lit "healthz") ∷ []) on_health
    ∷ route get (word (lit "peers") ∷ []) on_list_peers
    ∷ route post (word (lit "peers") ∷ []) on_create_peer
    ∷ route get (peer_path []) on_show_peer
    ∷ route delete (peer_path []) on_delete_peer
    ∷ route get (peer_path (word (lit "config") ∷ [])) on_get_config
    ∷ route post (peer_path (word (lit "recharge") ∷ [])) on_recharge
    ∷ route post (peer_path (word (lit "renew") ∷ [])) on_renew
    ∷ route post (peer_path (word (lit "quota") ∷ [])) on_set_quota
    ∷ route post (peer_path (word (lit "enable") ∷ [])) on_enable
    ∷ route post (peer_path (word (lit "disable") ∷ [])) on_disable
    ∷ route post (word (lit "sync") ∷ []) on_sync
    ∷ route post (peer_path (word (lit "ovpn") ∷ [])) on_ovpn_add
    ∷ route get (peer_path (word (lit "ovpn-config") ∷ [])) on_ovpn_config
    ∷ route delete (peer_path (word (lit "ovpn") ∷ [])) on_ovpn_remove
    ∷ []

-- A pattern for GET takes HEAD as well.
unfoldable pub takes_method : Text → Text → Bool
unfolding get
takes_method pattern m = m == pattern || pattern == get && m == lit "HEAD"

-- The name in a path that fits the pattern; the empty text where the pattern has none.
unfoldable pub match_path : List Segment → List Text → Option Text
match_path [] [] = some []
match_path [] (s ∷ path) = none
match_path (word w ∷ pattern) [] = none
match_path (word w ∷ pattern) (s ∷ path) =
    let rest = match_path pattern path in if s == w then rest else none
match_path (any_name ∷ pattern) [] = none
match_path (any_name ∷ pattern) (s ∷ path) =
    let rest = match_path pattern path in
    if is_empty s then none else elim rest [ none ↦ none | some n ↦ some s ]

-- The handler of a clean path, and the name in it.
unfoldable pub find_route : Text → List Text → List Route → Option (Endpoint × Text)
unfolding takes_method match_path get
find_route m path [] = if takes_method get m then some (on_serve_ui, []) else none
find_route m path (r ∷ rs) =
    let rest = find_route m path rs in
    if takes_method r.method m
    then elim (match_path r.pattern path) [ none ↦ rest | some name ↦ some (r.endpoint, name) ]
    else rest

-- The path below the base path.
unfoldable pub below_base : Text → Text → Option Text
unfolding norm_base
below_base base path =
    let bp = norm_base base in
    if is_empty bp
    then some path
    else if has_prefix path (bp ++ lit "/")
    then some (after_prefix path bp)
    else none

-- The handlers that are registered without the guard.
unfoldable pub is_open : Endpoint → Bool
is_open on_serve_ui = true
is_open on_login_page = true
is_open on_health = true
is_open _ = false

-- What the server depends on: bcrypt, the page, what the multiplexer answers where no pattern fits,
-- what a client sees of a handler that dies with nothing to recover it, and the handlers on a state.
pub record Backend (A : Type 0) : Type 0 where
  pub check_pass : Text → Text → Bool
  pub hash_pass : Text → Text
  pub page : Response
  pub unmatched : Text → Text → Response
  pub aborted : Response
  pub handlers : Endpoint → Text → Request → A → Result Response × A

-- A request: its method, its clean path, its headers, and the name and password of a login.
pub record ApiCall : Type 0 where
  pub method : Text
  pub path : Text
  pub headers : Request
  pub credentials : Text × Text

-- A handler that is registered without the guard runs on the state as it is: the login, `healthz`
-- and the page are written out, and any other would run whatever the token.
unfoldable pub run_open :
    {A : Type 0} → Backend A → Config → ApiCall → Endpoint → Text → A → Response × A
unfolding login
run_open k cfg r on_login_page name world =
    let (username, password) = r.credentials in
    (login k.check_pass k.hash_pass cfg username password, world)
run_open k cfg r on_health name world = (record { status = 200; body = lit "ok\n" }, world)
run_open k cfg r on_serve_ui name world = (k.page, world)
run_open k cfg r e name world =
    let (result, world') = k.handlers e name r.headers world in
    (elim result [ ok response ↦ response | err message ↦ k.aborted ], world')

-- `startAPI`, for one request
unfoldable pub serve : {A : Type 0} → Backend A → Config → ApiCall → A → Response × A
unfolding below_base find_route routes is_open run_open guard
serve k cfg r world = elim (below_base cfg.base_path r.path) [
  | none ↦ (k.unmatched r.method r.path, world)
  | some sub ↦ elim (find_route r.method (drop 1 (split b'/' sub)) routes) [
    | none ↦ (k.unmatched r.method r.path, world)
    | some (e, name) ↦
        if is_open e
        then run_open k cfg r e name world
        else guard cfg.api_token (k.handlers e name) r.headers world
  ]
]
