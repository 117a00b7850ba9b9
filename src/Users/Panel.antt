-- ===== src/Users/Panel.antt =====
-- The handlers of the panel that write users (api.go). `reconcile` is the enforcement pass that
-- follows a change.
use wg_manager.Base.{Bool, true, false, not, ◌||◌, Option, none, some, [], Text, lit, if◌then◌else◌}
use wg_manager.Base.{is_empty, trim, is_space, ℤ, pos, Dict, lookup}
use wg_manager.Store.{Peer, get_peer, insert_peer, update_peer, delete_peer}
use wg_manager.Settings.{Config, ovpn_defaults}
use wg_manager.Enforce.{Clock}
use wg_manager.Recharge.{
  Floats, Json, bool, number, string, other, Result, ok, err, amount, recharge_peer, ResetCounters,
}
use wg_manager.WgConf.{next_free_ip}
use wg_manager.Users.{World, Outcome, remove_ccd, render, new_row, must_peer}
use wg_manager.Users.Ovpn.{Attaching, ovpn_attach, ovpn_attach_new_user, ovpn_detach}

-- `m[key].(string)`, the empty text if it is none
unfoldable pub text_field : {F : Type 0} → Text → Dict (Json F) → Option Text
text_field key m = elim (lookup key m) [
  | none ↦ none
  | some v ↦ elim v [ string s ↦ some s | bool _ ↦ none | number _ ↦ none | other ↦ none ]
]

abbrev pub text_or_empty : {F : Type 0} → Text → Dict (Json F) → Text
text_or_empty key m = elim (text_field key m) [ none ↦ [] | some s ↦ s ]

-- `m[key].(bool)`
unfoldable pub bool_field : {F : Type 0} → Text → Dict (Json F) → Bool
bool_field key m = elim (lookup key m) [
  | none ↦ false
  | some v ↦ elim v [ bool b ↦ b | string _ ↦ false | number _ ↦ false | other ↦ false ]
]

-- What a request finds around it: the settings in memory and in the file, whether `ca.crt` is
-- there, the runtime identity, the keys that `genKeys` makes, what attaching OpenVPN needs,
-- whether `ca.crt` and `tc.key` can be read, and whether the file of parameters can.
pub record Server : Type 0 where
  pub cfg : Config
  pub file_cfg : Config
  pub has_ca : Bool
  pub identity : Text × Text
  pub private_key : Text
  pub public_key : Text
  pub psk : Text
  pub attaching : Attaching
  pub has_profile : Bool
  pub has_params : Bool

module _ (fl : Floats) (c : Clock) (now : c.Time) (sv : Server) (reconcile : World → World) where
  -- The expiry of a new user.
  unfoldable pub new_expiry : Dict (Json fl.Float) → Text
  new_expiry m = elim (amount fl (lit "days") m) [
    | none ↦ []
    | some v ↦ if fl.is_positive v then c.format (c.add_days now (fl.to_int v)) else []
  ]

  unfoldable pub new_quota : Dict (Json fl.Float) → ℤ
  new_quota m = elim (amount fl (lit "quota_gb") m) [ none ↦ pos 0 | some v ↦ fl.to_bytes v ]

  -- An answer with the profile, `ovpnConfigForPeer`; what was done before stays if it fails.
  unfoldable pub with_profile : Outcome Text → Outcome Text
  with_profile (w, err e) = (w, err e)
  with_profile (w, ok ip) = (w, if sv.has_profile then ok ip else err (lit "ovpn: read"))

  -- The branch of a user without WireGuard.
  unfoldable pub create_ovpn : Text → ℤ → Text → World → Outcome Text
  create_ovpn username quota expires w =
      let cfg = ovpn_defaults sv.identity sv.file_cfg in
      if not sv.has_ca
      then (w, err (lit "OpenVPN is not set up on this server yet"))
      else elim (insert_peer (new_row username [] [] [] [] quota expires) w.table) [
        | none ↦ (w, err (lit "insert"))
        | some t ↦ elim (get_peer t username) [
          | none ↦ (record w { table = t }, err (lit "no such user"))
          | some p ↦ with_profile (ovpn_attach_new_user sv.attaching cfg p (record w { table = t }))
        ]
      ]

  -- The branch of a WireGuard user; the answer has the profile, which needs the parameters.
  unfoldable pub create_wg : Text → ℤ → Text → World → Outcome Text
  create_wg username quota expires w = elim (next_free_ip w.table w.conf) [
    | err e ↦ (w, err e)
    | ok ip ↦
        elim (insert_peer (new_row username sv.public_key sv.private_key sv.psk ip quota expires)
          w.table) [
            | none ↦ (w, err (lit "insert"))
            | some t ↦
                let (w', r) = render sv.cfg false (record w { table = t }) in
                (
                  w',
                  elim r [
                    | err e ↦ err e
                    | ok _ ↦ if sv.has_params then ok ip else err (lit "cannot read params")
                  ],
                )
          ]
  ]

  -- `createPeer`; the result is the tunnel IP.
  unfoldable pub create_peer : Dict (Json fl.Float) → World → Outcome Text
  create_peer m w =
      let username = trim is_space (text_or_empty (lit "username") m) in
      if is_empty username
      then (w, err (lit "username required"))
      else elim (get_peer w.table username) [
        | some p ↦ (w, err (lit "user already exists"))
        | none ↦
            if bool_field (lit "ovpn_only") m || is_empty sv.cfg.wg_conf
            then create_ovpn username (new_quota m) (new_expiry m) w
            else create_wg username (new_quota m) (new_expiry m) w
      ]

  -- `deletePeer`; `cmdRemove` does the same.
  unfoldable pub delete_user : Text → World → Outcome (Unit {0})
  delete_user name w = elim (must_peer name w) [
    | err e ↦ (w, err e)
    | ok p ↦
        let w' = remove_ccd sv.cfg p.username w in
        render sv.cfg true (record w' { table = delete_peer p.id w'.table })
  ]

  -- A handler that updates the row of a user and reconciles.
  unfoldable pub update_user : Text → (Peer → Result (Peer → Peer)) → World → Outcome (Unit {0})
  update_user name change w = elim (must_peer name w) [
    | err e ↦ (w, err e)
    | ok p ↦ elim (change p) [
      | err e ↦ (w, err e)
      | ok f ↦ (reconcile (record w { table = update_peer p.id f w.table }), ok tt)
    ]
  ]

  -- The later of now and the current expiry.
  unfoldable pub renew_base : Peer → c.Time
  renew_base p =
      if is_empty p.expires_at
      then now
      else elim (c.parse p.expires_at) [ none ↦ now | some t ↦ if c.after t now then t else now ]

  unfoldable pub renewed_expiry : Dict (Json fl.Float) → Peer → Result Text
  renewed_expiry m p = elim (amount fl (lit "add_days") m) [
    | some v ↦ ok (c.format (c.add_days (renew_base p) (fl.to_int v)))
    | none ↦ elim (amount fl (lit "days") m) [
      | some v ↦ ok (if fl.is_positive v then c.format (c.add_days now (fl.to_int v)) else [])
      | none ↦ elim (text_field (lit "expires_at") m) [
        | some s ↦ ok s
        | none ↦ err (lit "renew needs add_days, days, or expires_at")
      ]
    ]
  ]

  -- `renew`
  unfoldable pub renew : Text → Dict (Json fl.Float) → World → Outcome (Unit {0})
  renew name m = update_user name λ p. elim (renewed_expiry m p) [
    | err e ↦ err e
    | ok exp ↦ ok (λ q. record q { expires_at = exp })
  ]

  -- `setQuota`
  unfoldable pub set_quota_user : Text → Dict (Json fl.Float) → World → Outcome (Unit {0})
  set_quota_user name m = update_user name λ p. elim (amount fl (lit "quota_gb") m) [
    | none ↦ err (lit "quota_gb required")
    | some v ↦ ok (λ q. record q { quota_bytes = fl.to_bytes v })
  ]

  -- `enableH` and `disableH`
  unfoldable pub enable_user : Bool → Text → World → Outcome (Unit {0})
  enable_user on name = update_user name λ p. ok (λ q. record q { enabled = on })

  -- `rechargeWith`, for a body that is JSON
  unfoldable pub recharge_user :
      Bool
      → (Peer → Result ResetCounters)
      → Text
      → Dict (Json fl.Float)
      → World
      → Outcome (Unit {0})
  recharge_user commits snapshot name m w =
      elim (recharge_peer fl commits snapshot name m w.table) [
        | err e ↦ (w, err e)
        | ok t ↦ (reconcile (record w { table = t }), ok tt)
      ]

  -- `ovpnAddH` up to its answer; `cmdOvpnAdd` does the same.
  unfoldable pub attach_user : Text → World → Outcome Text
  attach_user name w =
      if not sv.has_ca
      then (w, err (lit "OpenVPN is not set up on this server yet"))
      else elim (must_peer name w) [
        | err e ↦ (w, err e)
        | ok p ↦
            if not (is_empty p.ovpn_cn)
            then (w, err (lit "user already has an OpenVPN identity"))
            else ovpn_attach sv.attaching (ovpn_defaults sv.identity sv.file_cfg) p w
      ]

  -- `ovpnAddH`
  unfoldable pub ovpn_add : Text → World → Outcome Text
  ovpn_add name w = with_profile (attach_user name w)

  -- `ovpnRemoveH`
  unfoldable pub ovpn_remove : Text → World → Outcome (Unit {0})
  ovpn_remove name w = elim (must_peer name w) [
    | err e ↦ (w, err e)
    | ok p ↦ (ovpn_detach (ovpn_defaults sv.identity sv.file_cfg) p w, ok tt)
  ]
