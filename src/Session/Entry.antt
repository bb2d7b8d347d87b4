-- ===== src/Session/Entry.antt =====
-- crates/fomalhaut-session/src/discovery.rs: what one desktop file must hold (`load_entry`).
-- The crate freedesktop_desktop_entry is a parameter: a file is the entry that it parses to, if any,
-- with the values that the crate's accessors return. So is the file system, as `executable`.
pub mod Environment
use fomalhaut.Common.{
  ℕ, suc, Bool, true, false, not, ◌&&◌, ◌||◌, Option, none, some, List, [], ◌∷◌, ◌++◌, Result, ok,
  err, ok_or, map_err, ◌>=>◌, ◌==◌, if◌then◌else◌, is_empty, any, all, contains,
}
use fomalhaut.Core.Types.{Text}
use fomalhaut.Session.Exec.{parse_exec}
use fomalhaut.Session.Texts.{chars, text_eq, split, join, is_control, is_whitespace}
use fomalhaut.Session.Catalog.{
  SessionKind, xdg_value, SessionDirectory, SessionId, CatalogEntry, FilePath, RejectionReason,
  invalid_desktop_entry, missing_desktop_entry_group, invalid_boolean, hidden, no_display,
  unsupported_type, missing_name, missing_exec, invalid_exec, try_exec_unavailable,
  invalid_environment,
}

-- `entry.groups.desktop_entry().is_some()`, `desktop_entry(key)`, `type_()`, `name(locales)`, `exec()`
-- and `try_exec()`.
pub record DesktopEntry : Type 0 where
  pub has_group : Bool
  pub desktop_entry : Text → Option Text
  pub type_name : Option Text
  pub name : List Text → Option Text
  pub exec : Option Text
  pub try_exec : Option Text

-- `DesktopEntry::from_path`, which takes the locales, and the test `executable` on a path and on a
-- path in a directory.
pub record Files : Type 0 where
  pub from_path : FilePath → List Text → Option DesktopEntry
  pub executable : Text → Bool
  pub executable_in : Text → Text → Bool

unfoldable pub strict_bool_value : Option Text → Result (Option Bool) RejectionReason
unfolding text_eq
strict_bool_value none = ok none
strict_bool_value (some value) =
    if text_eq value (chars "true")
    then ok (some true)
    else if text_eq value (chars "false")
    then ok (some false)
    else err invalid_boolean

unfoldable pub strict_bool : DesktopEntry → Text → Result (Option Bool) RejectionReason
unfolding strict_bool_value
strict_bool entry key = strict_bool_value (entry.desktop_entry key)

-- `unwrap_or(false)`.
abbrev pub is_set : Option Bool → Bool
is_set (some b) = b
is_set none = false

abbrev pub reject_if : Bool → RejectionReason → Result (Unit {0}) RejectionReason
reject_if b reason = if b then err reason else ok tt

-- `Path::is_absolute`.
abbrev pub is_absolute : Text → Bool
is_absolute [] = false
is_absolute (c ∷ cs) = c == b'/'

-- `Path::components` of a relative path: empty parts and `.` vanish, but for a leading `.`.
abbrev pub counts : Text → ℕ → ℕ
counts part n = if is_empty part || text_eq part (b'.' ∷ []) then n else suc n

abbrev pub count_parts : List Text → ℕ
count_parts [] = 0
count_parts (part ∷ parts) = counts part (count_parts parts)

abbrev pub first_part : List Text → ℕ
first_part [] = 0
first_part (part ∷ parts) =
    if text_eq part (b'.' ∷ []) then suc (count_parts parts) else counts part (count_parts parts)

unfoldable pub component_count : Text → ℕ
unfolding text_eq split
component_count path = first_part (split b'/' path)

abbrev pub available : Bool → Result (Unit {0}) RejectionReason
available b = reject_if (not b) try_exec_unavailable

unfoldable pub validate_try_exec :
    Files → Option Text → List Text → Result (Unit {0}) RejectionReason
unfolding component_count
validate_try_exec files none search_paths = ok tt
validate_try_exec files (some value) search_paths =
    if is_empty value || any (λ c. c == 0 || c == 10 || c == 13) value
    then err try_exec_unavailable
    else if is_absolute value
    then available (files.executable value)
    else if not (component_count value == 1)
    then err try_exec_unavailable
    else available (any (λ directory. files.executable_in directory value) search_paths)

unfoldable pub valid_environment_value : Text → Bool
unfolding is_control
valid_environment_value value = not (is_empty value) && not (any is_control value)

unfoldable pub valid_desktop_name : Text → Bool
unfolding valid_environment_value
valid_desktop_name value =
    valid_environment_value value && not (any (λ c. c == b':' || c == b'=') value)

-- `filter(|name| !name.is_empty())`.
abbrev pub filter_filled : List Text → List Text
filter_filled [] = []
filter_filled (t ∷ ts) = if is_empty t then filter_filled ts else t ∷ filter_filled ts

unfoldable pub current_desktop : List Text → Result (List Text) RejectionReason
unfolding valid_desktop_name join
current_desktop names =
    if is_empty names || any (λ name. not (valid_desktop_name name)) names
    then err invalid_environment
    else ok ((chars "XDG_CURRENT_DESKTOP=" ++ join (b':' ∷ []) names) ∷ [])

abbrev pub desktop_names : Option Text → Result (List Text) RejectionReason
desktop_names none = ok []
desktop_names (some names) = current_desktop (filter_filled (split b';' names))

unfoldable pub session_environment :
    DesktopEntry → Text → SessionKind → Result (List Text) RejectionReason
unfolding valid_environment_value current_desktop split xdg_value
session_environment entry stem kind =
    if not (valid_environment_value stem)
    then err invalid_environment
    else desktop_names (entry.desktop_entry (chars "DesktopNames")) >=> λ names. ok (
        (chars "XDG_SESSION_DESKTOP=" ++ stem)
        ∷ (chars "DESKTOP_SESSION=" ++ stem)
        ∷ (chars "XDG_SESSION_TYPE=" ++ xdg_value kind)
        ∷ names)

abbrev pub has_other_type : Option Text → Bool
has_other_type none = false
has_other_type (some kind) = not (text_eq kind (chars "Application"))

-- `filter(|name| !name.trim().is_empty())`.
abbrev pub filter_name : Option Text → Option Text
filter_name none = none
filter_name (some name) = if all is_whitespace name then none else some name

pub record DiscoveryConfig : Type 0 where
  pub directories : List SessionDirectory
  pub locales : List Text
  pub executable_search_paths : List Text

unfoldable pub load_entry :
    Files
    → FilePath
    → SessionId
    → Text
    → SessionKind
    → DiscoveryConfig
    → Result CatalogEntry RejectionReason
unfolding strict_bool text_eq is_whitespace parse_exec validate_try_exec session_environment
load_entry files path id stem kind config =
    ok_or (files.from_path path config.locales) invalid_desktop_entry >=> λ entry.
    reject_if (not entry.has_group) missing_desktop_entry_group >=> λ _.
    strict_bool entry (chars "Hidden") >=> λ flag. reject_if (is_set flag) hidden >=> λ _.
    strict_bool entry (chars "NoDisplay") >=> λ flag. reject_if (is_set flag) no_display >=> λ _.
    reject_if (has_other_type entry.type_name) unsupported_type >=> λ _.
    ok_or (filter_name (entry.name config.locales)) missing_name >=> λ name.
    ok_or entry.exec missing_exec >=> λ exec.
    map_err (λ _. invalid_exec) (parse_exec exec) >=> λ command.
    validate_try_exec files entry.try_exec config.executable_search_paths >=> λ _.
    session_environment entry stem kind >=> λ environment. ok (record {
      info = record { id = id; name = name; kind = kind };
      command = command;
      environment = environment;
    })
