-- ===== src/Migration/Restore/Written.antt =====
-- What an import of a bundle writes to the files of OpenVPN.
use wg_manager.Base.{
  ℕ, Bool, true, false, not, ◌&&◌, none, some, List, [], ◌∷◌, ◌≡◌, refl, arith, ap, ◌∙◌, inl, inr,
}
use wg_manager.Base.{
  Text, lit, text_eq, text_beq_iff, nat_eq, ◌==◌, if◌then◌else◌, is_empty, has_prefix, All, subst,
}
use wg_manager.Base.{Dict, lookup, insert, lookup-insert, Option-cases, Bool-cases, some_inj}
use wg_manager.Recharge.{Result-cases}
use wg_manager.Settings.{Config, ovpn_defaults}
use wg_manager.Store.{all_peers}
use wg_manager.WgConf.{render_conf}
use wg_manager.Profiles.{ovpn_server_conf}
use wg_manager.Migration.Bundle.{Destination}
use wg_manager.Migration.Ports.{set_wireguard_listen_port}
use wg_manager.Migration.Archive.{File, private_mode, public_mode, ovpn_files, has_bundle_prefix}
use wg_manager.Migration.Restore.{
  Site, restore_file, moved_params, restore_params, restore_wg_conf, restore_listed, restore_files,
  write_ccds, sync_unit, apply_wg, apply_ovpn, apply_migration_state, finish_bundle,
}
use wg_manager.Migration.Restore.Entries.{IsKeyed, ovpn_files-IsKeyed}

-- The name is one of OpenVPN's.
abbrev pub is_ovpn : Text → Bool
unfolding lit
is_ovpn name = has_prefix name (lit "openvpn/")

listed-is_ovpn :
    (at : Text) (mode : ℕ) (l : List (Text × ℕ))
    → All (λ x. is_ovpn x.0 ≡ true) l
    → lookup at l ≡ some mode
    → is_ovpn at ≡ true
unfolding lookup
listed-is_ovpn at mode [] h q = cc
listed-is_ovpn at mode ((name, m) ∷ more) (h, hs) q = elim (Bool-cases (name == at)) [
  | inl e ↦ subst (λ (x : Text). is_ovpn x ≡ true) ((text_beq_iff name at).0 e) h
  | inr e ↦ listed-is_ovpn at mode more hs (rw e at q)
]

pub ovpn_files-is_ovpn :
    (at : Text) (mode : ℕ) → lookup at ovpn_files ≡ some mode → is_ovpn at ≡ true
ovpn_files-is_ovpn at mode =
    listed-is_ovpn at mode ovpn_files
      (unfold ovpn_files lit has_prefix in (refl, (refl, (refl, (refl, (refl, (refl, tt)))))))

pub other_name : (name at : Text) → is_ovpn name ≡ false → is_ovpn at ≡ true → (name == at) ≡ false
other_name name at h k = elim (Bool-cases (name == at)) [
  | inr e ↦ e
  | inl e ↦ cc (h, k, (text_beq_iff name at).0 e)
]

-- A file under another name.
lookup-restore_file-other :
    (name at : Text) (is_set : Bool) (e : File) (mode : ℕ) (files : Dict File)
    → (name == at) ≡ false
    → lookup at (restore_file is_set name e mode files) ≡ lookup at files
unfolding restore_file
lookup-restore_file-other name at is_set e mode files h = ground (
  arith,
  h,
  lookup-insert name at
      record {
        text = e.text;
        mode = if not (mode == 0) then mode else if not (e.mode == 0) then e.mode else private_mode;
      }
      files,
)

-- A file under its own name.
lookup-restore_file :
    (name at : Text) (m mode : ℕ) (f : File) (files : Dict File)
    → name ≡ at
    → m ≡ mode
    → (mode == 0) ≡ false
    → lookup at (restore_file true name f m files) ≡ some (record { text = f.text; mode = mode })
unfolding restore_file
lookup-restore_file name at m mode f files p q z = ground (
  arith,
  p,
  q,
  z,
  text_beq_iff name at,
  lookup-insert name at
      record {
        text = f.text;
        mode = if not (m == 0) then m else if not (f.mode == 0) then f.mode else private_mode;
      }
      files,
)

lookup-restore_params :
    (at : Text) (cfg : Config) (entries : Dict File) (d : Destination) (files : Dict File)
    → is_ovpn at ≡ true
    → lookup at (restore_params cfg entries d files) ≡ lookup at files
unfolding restore_params
lookup-restore_params at cfg entries d files h =
    elim (Option-cases (lookup (lit "wireguard/params") entries)) [
      | inl q ↦ rw (restore_params, q)
      | inr (e, q) ↦
          rw (restore_params, q)
            (lookup-restore_file-other (lit "wireguard/params") at _
              (record e { text = moved_params d e.text }) e.mode files
              (other_name (lit "wireguard/params") at (unfold lit has_prefix in refl) h))
    ]

lookup-restore_wg_conf :
    (at : Text) (cfg : Config) (entries : Dict File) (d : Destination) (files : Dict File)
    → is_ovpn at ≡ true
    → lookup at (restore_wg_conf cfg entries d files) ≡ lookup at files
unfolding restore_wg_conf
lookup-restore_wg_conf at cfg entries d files h =
    elim (Option-cases (lookup (lit "wireguard/wg0.conf") entries)) [
      | inl q ↦ rw (restore_wg_conf, q)
      | inr (e, q) ↦
          rw (restore_wg_conf, q)
            (lookup-restore_file-other (lit "wireguard/wg0.conf") at _
              (record e { text = set_wireguard_listen_port e.text d.wg_port }) private_mode files
              (other_name (lit "wireguard/wg0.conf") at (unfold lit has_prefix in refl) h))
    ]

lookup-restore_listed-other :
    (at : Text) (l : List (Text × ℕ)) (entries files : Dict File)
    → lookup at l ≡ none
    → lookup at (restore_listed l entries files) ≡ lookup at files
unfolding restore_listed lookup
lookup-restore_listed-other at [] entries files h = refl
lookup-restore_listed-other at ((name, mode) ∷ more) entries files h =
    elim (Bool-cases (name == at)) [
      | inl e ↦ cc (rw e at h)
      | inr e ↦ elim (Option-cases (lookup name entries)) [
        | inl q ↦ rw q (lookup-restore_listed-other at more entries files (rw e at h))
        | inr (f, q) ↦ rw q (
            lookup-restore_listed-other at more entries (restore_file true name f mode files)
              (rw e at h)
            ∙ lookup-restore_file-other name at true f mode files e)
      ]
    ]

lookup-restore_listed :
    (at : Text) (mode : ℕ) (f : File) (l : List (Text × ℕ)) (entries files : Dict File)
    → IsKeyed l
    → lookup at l ≡ some mode
    → (mode == 0) ≡ false
    → lookup at entries ≡ some f
    → lookup at (restore_listed l entries files) ≡ some (record { text = f.text; mode = mode })
unfolding restore_listed lookup
lookup-restore_listed at mode f [] entries files k h z q = cc
lookup-restore_listed at mode f ((name, m) ∷ more) entries files (a, k) h z q =
    elim (Bool-cases (name == at)) [
      | inr e ↦ lookup-restore_listed at mode f more entries _ k (rw e at h) z q
      | inl e ↦
          let p : name ≡ at = (text_beq_iff name at).0 e in
          let own : lookup name entries ≡ some f = ap (λ (x : Text). lookup x entries) p ∙ q in
          let same : m ≡ mode = some_inj (rw e at h) in
          rw own (
            lookup-restore_listed-other at more entries (restore_file true name f m files)
              (subst (λ (x : Text). lookup x more ≡ none) p a)
            ∙ lookup-restore_file name at m mode f files p same z)
    ]

-- The file of a name of OpenVPN behind the restore.
pub lookup-restore_files :
    (at : Text) (mode : ℕ) (f : File) (cfg : Config) (entries files : Dict File) (d : Destination)
    → lookup at ovpn_files ≡ some mode
    → (mode == 0) ≡ false
    → lookup at entries ≡ some f
    → lookup at (restore_files cfg entries d files) ≡ some (record { text = f.text; mode = mode })
unfolding restore_files
lookup-restore_files at mode f cfg entries files d h z q =
    lookup-restore_listed at mode f ovpn_files entries _ ovpn_files-IsKeyed h z q

-- What the end of an import leaves alone: the table, and every file of OpenVPN but `server.conf`.
pub record Keeps (at : Text) (s u : Site) : Type 0 where
  pub table : u.table ≡ s.table
  pub file : lookup at u.files ≡ lookup at s.files

module _ (at : Text) (cfg : Config) (h : is_ovpn at ≡ true) where
  apply_wg-Keeps : (s : Site) → Keeps at s (apply_wg cfg s).0
  unfolding apply_wg
  apply_wg-Keeps s = elim (Bool-cases (is_empty cfg.wg_conf)) [
    | inl e ↦ rw (apply_wg, e) record { table = refl; file = refl }
    | inr e ↦ elim (Option-cases (lookup (lit "wireguard/wg0.conf") s.files)) [
      | inl q ↦ rw (apply_wg, e, q) record { table = refl; file = refl }
      | inr (f, q) ↦ elim (Result-cases (render_conf true s.live s.table f.text)) [
        | inr (m, r) ↦ rw (apply_wg, e, q, r) record { table = refl; file = refl }
        | inl (conf, r) ↦
            rw (apply_wg, e, q, r)
              record {
                table = refl;
                file =
                    lookup-insert (lit "wireguard/wg0.conf") at
                      record { text = conf; mode = private_mode } s.files
                    ∙ rw (
                        other_name (lit "wireguard/wg0.conf") at (unfold lit has_prefix in refl) h);
              }
      ]
    ]
  ]

  sync_unit-Keeps : (s : Site) → Keeps at s (sync_unit cfg s)
  unfolding sync_unit
  sync_unit-Keeps s = record { table = ground arith; file = ground arith }

Keeps-trans : (at : Text) (s t u : Site) → Keeps at s t → Keeps at t u → Keeps at s u
Keeps-trans at s t u a b = record { table = b.table ∙ a.table; file = b.file ∙ a.file }

module _ (at : Text) (h : is_ovpn at ≡ true) where
  apply_ovpn-Keeps : (cfg : Config) (s : Site) → Keeps at s (apply_ovpn cfg s).0
  unfolding apply_ovpn
  apply_ovpn-Keeps cfg s = elim (Bool-cases (is_empty cfg.ovpn_subnet && is_empty cfg.ovpn_dir)) [
    | inl e ↦ rw (apply_ovpn, e) record { table = refl; file = refl }
    | inr e ↦
        let cfg' = ovpn_defaults s.identity cfg in
        elim (Result-cases (write_ccds cfg'.ovpn_subnet (all_peers s.table) s.ccd)) [
          | inr (m, r) ↦ rw (apply_ovpn, e, r) record { table = refl; file = refl }
          | inl (ccd, r) ↦
              let k = sync_unit-Keeps at cfg' h (record s { ccd = ccd }) in
              rw (apply_ovpn, e, r) record { table = k.table; file = k.file }
        ]
  ]

  apply_migration_state-Keeps :
      (cfg : Config) (s : Site) → Keeps at s (apply_migration_state cfg s).0
  unfolding apply_migration_state
  apply_migration_state-Keeps cfg s = elim (Result-cases (apply_wg cfg s).1) [
    | inr (m, r) ↦ rw (apply_migration_state, r) (apply_wg-Keeps at cfg h s)
    | inl (u, r) ↦
        rw (apply_migration_state, r)
          (Keeps-trans at s (apply_wg cfg s).0 _ (apply_wg-Keeps at cfg h s)
            (apply_ovpn-Keeps cfg (apply_wg cfg s).0))
  ]

  pub finish_bundle-Keeps :
      (cfg : Config) (names : List Text) (s : Site)
      → (lit "openvpn/server.conf" == at) ≡ false
      → Keeps at s (finish_bundle cfg names s).0
  unfolding finish_bundle
  finish_bundle-Keeps cfg names s n = elim (Bool-cases (has_bundle_prefix names (lit "openvpn/"))) [
    | inr e ↦
        let k = apply_migration_state-Keeps cfg (record s { config = cfg }) in
        rw (finish_bundle, e) record { table = k.table; file = k.file }
    | inl e ↦ elim (Result-cases (ovpn_server_conf cfg)) [
      | inr (m, r) ↦ rw (finish_bundle, e, r) record { table = refl; file = refl }
      | inl (conf, r) ↦
          let f : File = record { text = conf; mode = public_mode } in
          let k =
            apply_migration_state-Keeps cfg
              (record s { files = insert (lit "openvpn/server.conf") f s.files; config = cfg }) in
          rw (finish_bundle, e, r)
            record {
              table = k.table;
              file = k.file ∙ lookup-insert (lit "openvpn/server.conf") at f s.files ∙ rw n;
            }
    ]
  ]
