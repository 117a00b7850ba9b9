-- ===== src/Tests/Requests.antt =====
-- CCD files, releases, requests and status files at concrete data.
use wg_manager.Login.Routes.{
  Backend, ApiCall, serve, find_route, routes, takes_method, match_path, on_delete_peer,
}
use wg_manager.Login.Access.{serve-denied}
use wg_manager.Base.{drop, split, cons_head}
use wg_manager.Base.{
  ℕ, ◌+◌, ◌≤◌, ◌≡◌, ◌≢◌, ◌↔◌, true, false, Option, none, some, List, [], ◌∷◌, refl, arith,
}
use wg_manager.Base.{
  Text, lit, text_eq, nat_eq, text_beq, ◌==◌, pos, is_space, drop, split, cons_head,
}
use wg_manager.Base.{
  trim, trim_left, trim_right, has_prefix, after_prefix, trim_prefix, cut, parse_uint, scan,
  parse_int, of_magnitude, Dict, lookup, erase,
}
use wg_manager.Settings.{Config}
use wg_manager.OvpnStatus.{Candidate, resolve_ovpn_status}
use wg_manager.OvpnStatus.Newest.{resolve_ovpn_status-newest}
use mathlib.Core.List.{Memᴰ}
use wg_manager.Recharge.{Result, ok}
use wg_manager.Orphans.{
  CcdFile, Selection, orphans_command, list_orphans, orphan_of, insert_entry, targets, remove_files,
}
use wg_manager.Orphans.Purge.{orphans_command-user, orphans_command-live}
use wg_manager.Release.{
  SemVer, sem_parts, sem_of, sem_part, split_three, before_suffix, is_newer, exceeds, same,
}
use wg_manager.Release.Order.{is_newer_iff, IsLater}
use wg_manager.Login.{Request, Response, supplied_token}
use wg_manager.Tests.Commands.{no_config}

abbrev purge_all : Selection
purge_all = record { purge_test = false; purge = true; force = false; dry_run = false }

abbrev file : Text → CcdFile
file name = record { name = name; is_dir = false; modified = some 9 }

abbrev files : List CcdFile
files = file (b'a' ∷ []) ∷ file (b'l' ∷ []) ∷ file (b'z' ∷ []) ∷ []

abbrev ccd_before : Dict Text
ccd_before = (b'a' ∷ [], []) ∷ (b'l' ∷ [], []) ∷ (b'z' ∷ [], []) ∷ []

abbrev ccd_after : Dict Text
ccd_after = (b'a' ∷ [], []) ∷ (b'l' ∷ [], []) ∷ []

purged :
    orphans_command purge_all ((b'a' ∷ []) ∷ []) ((b'l' ∷ []) ∷ []) files ccd_before ≡ ok ccd_after
unfolding orphans_command list_orphans orphan_of insert_entry targets remove_files erase text_beq
purged = refl

orphans_command-user_example : lookup (b'a' ∷ []) ccd_after ≡ lookup (b'a' ∷ []) ccd_before
orphans_command-user_example =
    orphans_command-user purge_all ((b'a' ∷ []) ∷ []) ((b'l' ∷ []) ∷ []) files ccd_before ccd_after
      (b'a' ∷ []) (unfold text_beq in refl) purged

orphans_command-live_example : lookup (b'l' ∷ []) ccd_after ≡ lookup (b'l' ∷ []) ccd_before
orphans_command-live_example =
    orphans_command-live purge_all ((b'a' ∷ []) ∷ []) ((b'l' ∷ []) ∷ []) files ccd_before ccd_after
      (b'l' ∷ []) refl refl (unfold text_beq in refl) purged

abbrev new_tag : Text
unfolding lit
new_tag = lit "v1.6.10"

abbrev old_tag : Text
unfolding lit
old_tag = lit "v1.6.9"

abbrev version : ℕ → ℕ → ℕ → SemVer
version a b c = record { major = pos a; minor = pos b; patch = pos c }

new_parts : sem_parts new_tag ≡ some (version 1 6 10)
unfolding new_tag lit sem_parts sem_of sem_part split_three before_suffix trim trim_left trim_right
    is_space trim_prefix has_prefix after_prefix cut parse_int of_magnitude parse_uint scan
new_parts = refl

old_parts : sem_parts old_tag ≡ some (version 1 6 9)
unfolding old_tag lit sem_parts sem_of sem_part split_three before_suffix trim trim_left trim_right
    is_space trim_prefix has_prefix after_prefix cut parse_int of_magnitude parse_uint scan
old_parts = refl

offered : is_newer new_tag old_tag ≡ true
unfolding is_newer exceeds same new_tag old_tag lit text_beq sem_parts sem_of sem_part split_three
    before_suffix trim trim_left trim_right is_space trim_prefix has_prefix after_prefix cut
    parse_int of_magnitude parse_uint scan
offered = refl

is_newer_iff_example : (is_newer new_tag old_tag ≡ true) ↔ IsLater (version 1 6 10) (version 1 6 9)
unfolding new_tag old_tag lit text_beq has_prefix
is_newer_iff_example =
    is_newer_iff new_tag old_tag (version 1 6 10) (version 1 6 9) new_parts old_parts refl refl

abbrev request : Request
request = record { authorization = []; api_token = b't' ∷ [] }

abbrev handler : Request → ℕ → Result Response × ℕ
handler r n = (ok (record { status = 200; body = [] }), n + 1)

wrong_token : supplied_token request ≢ b'u' ∷ []
unfolding supplied_token trim_prefix has_prefix after_prefix lit
wrong_token = ground arith

-- The handlers count the requests that reach them.
abbrev backend : Backend ℕ
backend = record {
  check_pass = λ h p. false;
  hash_pass = λ p. p;
  page = record { status = 200; body = [] };
  unmatched = λ m p. record { status = 404; body = [] };
  aborted = record { status = 0; body = [] };
  handlers = λ e name. handler;
}

abbrev secured : Config
secured = record no_config { api_token = b'u' ∷ [] }

abbrev removal : ApiCall
unfolding lit
removal = record {
  method = lit "DELETE";
  path = lit "/peers/a";
  headers = request;
  credentials = ([], []);
}

removal_routed :
    find_route removal.method (drop 1 (split b'/' removal.path)) routes
    ≡ some (on_delete_peer, b'a' ∷ [])
unfolding removal find_route routes takes_method match_path split cons_head lit text_beq
removal_routed = refl

serve-denied_example :
    ((serve backend secured removal 7).1 ≡ 7)
    × ((serve backend secured removal 7).0 ≡ (serve backend secured removal 8).0)
unfolding removal
serve-denied_example = serve-denied {A = ℕ} backend secured removal 7 8 wrong_token

-- The first candidate is empty, the second does not exist, and the last is the newest.
abbrev old_file : Candidate
old_file = record { path = b'o' ∷ []; size = 9; modified = 5 }

abbrev candidates : List (Option Candidate)
candidates =
    some (record { path = b'e' ∷ []; size = 0; modified = 8 })
    ∷ none
    ∷ some old_file
    ∷ some (record { path = b'n' ∷ []; size = 4; modified = 7 })
    ∷ []

resolve_ovpn_status-newest_example :
    (d : Candidate) × Memᴰ (some d) candidates
    × ((d.size == 0) ≡ false)
    × (5 ≤ d.modified)
    × (resolve_ovpn_status no_config candidates ≡ d.path)
resolve_ovpn_status-newest_example =
    resolve_ovpn_status-newest no_config candidates old_file refl
      (Memᴰ.tail (Memᴰ.tail (Memᴰ.head refl))) refl (omega arith)
