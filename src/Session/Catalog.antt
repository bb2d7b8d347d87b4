-- ===== src/Session/Catalog.antt =====
-- crates/fomalhaut-session/src/model.rs and error.rs: sessions, their catalog, and rejections.
use fomalhaut.Common.{
  ℕ, Bool, Option, List, ◌++◌, map, Result, ok_or, map_err, ◌>=>◌, is_empty, length,
}
use fomalhaut.Core.Types.{Text, SessionCommand, new_command}
use fomalhaut.Session.Texts.{chars, get}

pub data SessionKind : Type 0 where
  wayland x11 : SessionKind

unfoldable pub id_prefix : SessionKind → Text
id_prefix wayland = chars "wayland"
id_prefix x11 = chars "x11"

unfoldable pub xdg_value : SessionKind → Text
xdg_value wayland = chars "wayland"
xdg_value x11 = chars "x11"

pub record SessionDirectory : Type 0 where
  pub path : Text
  pub kind : SessionKind

-- A `SessionId` is the string that it wraps.
abbrev pub SessionId : Type 0
SessionId = Text

unfoldable pub from_file_stem : SessionKind → Text → SessionId
unfolding id_prefix
from_file_stem kind stem = id_prefix kind ++ chars ":" ++ stem

pub record SessionInfo : Type 0 where
  pub id : SessionId
  pub name : Text
  pub kind : SessionKind

pub record CatalogEntry : Type 0 where
  pub info : SessionInfo
  pub command : List Text
  pub environment : List Text

pub record SessionCatalog : Type 0 where
  pub entries : List (SessionId × CatalogEntry)

-- `SessionCatalog::sessions`, `len` and `is_empty`.
unfoldable pub sessions : SessionCatalog → List SessionInfo
sessions c = map (λ e. e.1.info) c.entries

unfoldable pub len : SessionCatalog → ℕ
len c = length c.entries

unfoldable pub has_none : SessionCatalog → Bool
has_none c = is_empty c.entries

pub data SessionLookupError : Type 0 where
  not_present : SessionLookupError

-- `SessionCatalog::command`.
unfoldable pub command : SessionCatalog → SessionId → Result SessionCommand SessionLookupError
unfolding get new_command
command c id = ok_or (get id c.entries) not_present >=> λ entry.
    map_err (λ _. not_present) (new_command entry.command entry.environment)

pub data RejectionReason : Type 0 where
  invalid_file_name duplicate invalid_desktop_entry missing_desktop_entry_group : RejectionReason
  invalid_boolean hidden no_display unsupported_type missing_name missing_exec : RejectionReason
  invalid_exec try_exec_unavailable invalid_environment : RejectionReason

-- A path is a directory and the name of a file in it, which is a list of bytes.
pub record FilePath : Type 0 where
  pub directory : Text
  pub file_name : Text

pub record Rejection : Type 0 where
  pub path : FilePath
  pub id : Option SessionId
  pub reason : RejectionReason

pub record DiscoveryReport : Type 0 where
  pub catalog : SessionCatalog
  pub rejections : List Rejection
