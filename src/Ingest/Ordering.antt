-- ===== src/Ingest/Ordering.antt =====
-- The ordering guards of src/infrastructure/event-ordering.ts: `acceptIfNotOlder` and
-- `writeIfNewer`, each one script on one key, and `eventVersionMs`. Times are milliseconds.
use mediasoup_socket_io_audi.Prelude.{
  ℕ, ◌+◌, ◌*◌, Option, none, some, Bool, true, false, ltb, leb, if◌then◌else◌,
}
use mediasoup_socket_io_audi.Prelude.Redis.{Link, answers, fails, answer_lost}

-- A version key: its text, `none` if it is no number, and the time at which it expires.
pub record Marker : Type 0 where
  pub version : Option ℕ
  pub deadline : ℕ

abbrev pub Key : Type 0
Key = Option Marker

-- `tonumber` of GET: nothing for a missing or expired key and for a text that is no number.
abbrev pub stored_version : ℕ → Key → Option ℕ
stored_version now none = none
stored_version now (some m) = if ltb now m.deadline then m.version else none

abbrev pub written : ℕ → ℕ → ℕ → Key
written now ttl_seconds version =
    some (record { version = some version; deadline = now + ttl_seconds * 1000 })

accept_script : ℕ → Key → ℕ → ℕ → Option ℕ → Key × Bool
accept_script now key incoming ttl_seconds none = (written now ttl_seconds incoming, true)
accept_script now key incoming ttl_seconds (some stored) =
    if ltb incoming stored then (key, false) else (written now ttl_seconds incoming, true)

write_script : ℕ → Key → ℕ → ℕ → Option ℕ → Key × Bool
write_script now key incoming ttl_seconds none = (written now ttl_seconds incoming, true)
write_script now key incoming ttl_seconds (some stored) =
    if leb incoming stored then (key, false) else (written now ttl_seconds incoming, true)

-- ACCEPT_IF_NOT_OLDER
unfoldable pub accept_if_not_older_script : ℕ → Key → ℕ → ℕ → Key × Bool
unfolding accept_script
accept_if_not_older_script now key version_ms ttl_seconds =
    accept_script now key version_ms ttl_seconds (stored_version now key)

-- WRITE_IF_NEWER
unfoldable pub write_if_newer_script : ℕ → Key → ℕ → ℕ → Key × Bool
unfolding write_script
write_if_newer_script now key value ttl_seconds =
    write_script now key value ttl_seconds (stored_version now key)

-- `try … catch { return true; }` round a script's Boolean answer.
abbrev pub fail_open : Link → Key → Key × Bool → Key × Bool
fail_open answers key result = result
fail_open fails key result = (key, true)
fail_open answer_lost key result = (result.0, true)

-- acceptIfNotOlder
unfoldable pub accept_if_not_older : Link → ℕ → Key → ℕ → ℕ → Key × Bool
unfolding accept_if_not_older_script
accept_if_not_older link now key version_ms ttl_seconds =
    fail_open link key (accept_if_not_older_script now key version_ms ttl_seconds)

-- writeIfNewer
unfoldable pub write_if_newer : Link → ℕ → Key → ℕ → ℕ → Key × Bool
unfolding write_if_newer_script
write_if_newer link now key value ttl_seconds =
    fail_open link key (write_if_newer_script now key value ttl_seconds)

-- `Date.parse`, which the source does not implement: `none` is NaN.
module _ {Text : Type 0} (date_parse : Text → Option ℕ) (is_empty : Text → Bool) where
  -- eventVersionMs: an absent or empty timestamp, and one that does not parse, mean no guard.
  unfoldable pub event_version_ms : Option Text → Option ℕ
  event_version_ms none = none
  event_version_ms (some timestamp) = if is_empty timestamp then none else date_parse timestamp
