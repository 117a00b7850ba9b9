-- ===== src/Release/Cache.antt =====
-- The cached question for the latest release (version.go).
pub mod Spaced
use wg_manager.Base.{ℕ, ◌+◌, Bool, true, false, not, ◌&&◌, Option, none, some, List, [], ◌∷◌, ◌++◌}
use wg_manager.Base.{Text, lit, if◌then◌else◌, ltb, is_empty, to_dec, take, length, nat_eq, ◌==◌}
use wg_manager.Release.{is_newer}

-- `latestRelease`
pub record LatestRelease : Type 0 where
  pub tag : Text
  pub name : Text
  pub published_at : Text
  pub html_url : Text
  pub body : Text

-- `versionCache`: the time of the last success, in nanoseconds (`none` is the zero time), the
-- payload, and the last error.
pub record Cache : Type 0 where
  pub fetched : Option ℕ
  pub payload : LatestRelease
  pub fetch_err : Option Text

-- `ttl: 5 * time.Minute`
abbrev pub ttl : ℕ
ttl = 300000000000

-- What comes of the request: it cannot be made or sent, GitHub answers with a status other than 200
-- and a body, the answer is no JSON, or it is a release.
pub data Reply : Type 0 where
  failed : Text → Reply
  status : ℕ → Text → Reply
  bad_json : Text → Reply
  release : LatestRelease → Reply

-- The error of a reply.
unfoldable pub reply_error : Reply → Option Text
reply_error (failed e) = some e
reply_error (status code text) = some (lit "github: HTTP " ++ (to_dec code ++ (lit ": " ++ text)))
reply_error (bad_json e) = some e
reply_error (release r) = none

-- `!c.fetched.IsZero() && c.fetchErr == nil && now.Sub(c.fetched) < c.ttl`
unfoldable pub is_fresh : ℕ → Cache → Bool
is_fresh now c = elim c.fetched [
  | none ↦ false
  | some t ↦ elim c.fetch_err [ none ↦ ltb now (t + ttl) | some e ↦ false ]
]

-- The cache after a request at a time.
unfoldable pub store_reply : ℕ → Reply → Cache → Cache
store_reply now (release r) c = record { fetched = some now; payload = r; fetch_err = none }
store_reply now (failed e) c = record c { fetch_err = reply_error (failed e) }
store_reply now (status code text) c = record c { fetch_err = reply_error (status code text) }
store_reply now (bad_json e) c = record c { fetch_err = reply_error (bad_json e) }

-- `fetchLatestRelease`: the cache, the release that is returned, and the error. `reply` is what
-- GitHub would answer; it is used only if the cache is not fresh.
unfoldable pub fetch_latest_release : ℕ → Reply → Cache → Cache × LatestRelease × Option Text
unfolding is_fresh store_reply reply_error
fetch_latest_release now reply c =
    if is_fresh now c
    then (c, c.payload, none)
    else let c' = store_reply now reply c in (c', c'.payload, c'.fetch_err)

-- The answer of `versionH`.
pub record VersionAnswer : Type 0 where
  pub installed : Text
  pub latest : Option Text
  pub update_available : Bool
  pub check_error : Option Text
  pub published_at : Option Text
  pub release_url : Option Text
  pub release_notes : Option Text

-- The notes of the answer; a text of ASCII characters, whose bytes are its characters.
unfoldable pub short_notes : Text → Text
short_notes notes = if ltb 2000 (length notes) then take 2000 notes ++ (8230 ∷ []) else notes

-- `versionH`
unfoldable pub version_answer : Text → LatestRelease → Option Text → VersionAnswer
unfolding short_notes
version_answer installed rel (some e) = record {
  installed = installed;
  latest = none;
  update_available = false;
  check_error = some e;
  published_at = none;
  release_url = none;
  release_notes = none;
}
version_answer installed rel none = record {
  installed = installed;
  latest = some rel.tag;
  update_available = is_newer rel.tag installed;
  check_error = none;
  published_at = some rel.published_at;
  release_url = some rel.html_url;
  release_notes = some (short_notes rel.body);
}
