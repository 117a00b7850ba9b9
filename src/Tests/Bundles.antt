-- ===== src/Tests/Bundles.antt =====
-- A migration bundle at concrete data.
use wg_manager.Migration.Ports.{
  set_wireguard_listen_port, replace_ports, full_match, listen_port_group, dport_group, behind_word,
  is_re_space, is_re_digit, is_blank,
}
use wg_manager.Base.{after_prefix, trim_left, has_prefix}
use wg_manager.Base.{◌+◌, true, false, none, some, [], ◌∷◌, ◌≡◌, refl, arith}
use wg_manager.Base.{Text, lit, text_eq, text_beq, length, lookup}
use wg_manager.Recharge.{ok}
use wg_manager.Migration.{migration_from_db}
use wg_manager.Migration.Transfer.{no_users, renumber}
use wg_manager.Migration.Archive.{
  Codec, File, ovpn_files, ovpn_exported, public_mode, private_mode, no_manifest, encode_bundle,
  bundle_items, wg_items, users_item, manifest_item, add_existing, add_files,
}
use wg_manager.Migration.Restore.{Site, import_bundle}
use wg_manager.Migration.Restore.Entries.{pack}
use wg_manager.Migration.Restore.Moved.{AreSmall, import_bundle-encode_bundle}
use wg_manager.Tests.Commands.{two, two-IsValid, no_config}

-- A codec that writes nothing, and reads the users that there are.
abbrev codec : Codec
codec = record {
  of_users = λ date ps. [];
  to_users = λ s. some (1, migration_from_db two);
  of_manifest = λ date names endpoint m. [];
  to_manifest = λ s. some (1, no_manifest);
}

abbrev authority : Text
unfolding lit
authority = lit "openvpn/ca.crt"

abbrev certificate : File
certificate = record { text = b'C' ∷ []; mode = private_mode }

abbrev old_server : Site
old_server = record {
  config = record no_config { ovpn_dir = b'd' ∷ [] };
  files = (authority, certificate) ∷ [];
  unit_conf = none;
  table = two;
  ccd = [];
  live = [];
  identity = ([], []);
}

abbrev new_server : Site
new_server = record old_server { config = no_config; files = []; table = no_users 1 }

all_small : AreSmall (encode_bundle codec [] old_server.config two old_server.files)
unfolding encode_bundle bundle_items wg_items users_item manifest_item add_existing add_files
    ovpn_files ovpn_exported lookup lit text_beq
all_small = ground arith

listed : lookup authority ovpn_files ≡ some public_mode
unfolding ovpn_files lookup lit text_beq authority
listed = refl

not_server_conf : text_beq (lit "openvpn/server.conf") authority ≡ false
unfolding authority lit text_beq
not_server_conf = refl

openvpn_set : ovpn_exported old_server.config ≡ true
unfolding ovpn_exported
openvpn_set = refl

certificate_there : lookup authority old_server.files ≡ some certificate
unfolding lookup text_beq authority
certificate_there = refl

import_bundle-encode_bundle_example :
    ((import_bundle codec [] true
        (some (pack (encode_bundle codec [] old_server.config two old_server.files)))
        []
        new_server).0.table
      ≡ record { rows = renumber 1 two.rows; next_id = 1 + length two.rows })
    × (lookup authority
          (import_bundle codec [] true
            (some (pack (encode_bundle codec [] old_server.config two old_server.files)))
            []
            new_server).0.files
        ≡ some (record { text = b'C' ∷ []; mode = public_mode }))
    × ((import_bundle codec [] false
          (some (pack (encode_bundle codec [] old_server.config two old_server.files)))
          []
          new_server).1
        ≡ ok tt)
import_bundle-encode_bundle_example =
    import_bundle-encode_bundle codec [] [] authority true old_server new_server 1 public_mode
      certificate no_manifest two-IsValid (refl, (refl, tt)) openvpn_set all_small refl refl refl
      listed not_server_conf certificate_there

port_set :
    set_wireguard_listen_port
      (lit "[Interface]\nListenPort = 51820\nPostUp = x --dport 51820 -j")
      (lit "443")
    ≡ lit "[Interface]\nListenPort = 443\nPostUp = x --dport 443 -j"
unfolding set_wireguard_listen_port replace_ports full_match listen_port_group dport_group
    behind_word is_re_space is_re_digit is_blank has_prefix after_prefix trim_left lit
port_set = refl
