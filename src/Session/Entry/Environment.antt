-- ===== src/Session/Entry/Environment.antt =====
-- What a desktop file that loads gives (crates/fomalhaut-session/src/discovery.rs, `load_entry`).
use fomalhaut.Common.{
  ℕ, Bool, true, false, not, ◌||◌, Option, none, some, List, [], ◌∷◌, ◌++◌, ok, ok_or, map_err,
  >=>-eq-ok, map_err-eq-ok, ok-injective, is_empty, any, All, ◌≡◌, refl, subst, Bool-cases, inl,
  inr, arith,
}
use fomalhaut.Core.Types.{Text}
use fomalhaut.Session.Exec.{parse_exec}
use fomalhaut.Session.Exec.Accepted.{IsExecutable, parse_exec-IsExecutable}
use fomalhaut.Session.Texts.{chars, split, join, is_control}
use fomalhaut.Session.Catalog.{
  SessionKind, xdg_value, wayland, x11, SessionId, CatalogEntry, FilePath, invalid_desktop_entry,
  missing_desktop_entry_group, hidden, no_display, unsupported_type, missing_name, missing_exec,
  invalid_exec,
}
use fomalhaut.Session.Entry.{
  DesktopEntry, Files, DiscoveryConfig, valid_environment_value, valid_desktop_name, filter_filled,
  current_desktop, reject_if, is_set, strict_bool, has_other_type, filter_name, validate_try_exec,
  desktop_names, session_environment, load_entry,
}

-- No character of the variable is a control character.
abbrev pub IsPrintable : Text → Type 0
IsPrintable t = any is_control t ≡ false

any-append :
    (p : ℕ → Bool) (t u : Text) → any p t ≡ false → any p u ≡ false → any p (t ++ u) ≡ false
any-append p [] u h i = i
any-append p (c ∷ cs) u h i = ground (arith, any-append p cs u)

valid_environment_value-IsPrintable : (t : Text) → valid_environment_value t ≡ true → IsPrintable t
unfolding valid_environment_value
valid_environment_value-IsPrintable t h = ground arith

valid_desktop_name-IsPrintable : (t : Text) → valid_desktop_name t ≡ true → IsPrintable t
unfolding valid_desktop_name
valid_desktop_name-IsPrintable t h = ground (arith, valid_environment_value-IsPrintable t)

join-IsPrintable :
    (sep : Text) (names : List Text)
    → IsPrintable sep
    → any (λ name. not (valid_desktop_name name)) names ≡ false
    → IsPrintable (join sep names)
unfolding join
join-IsPrintable sep [] p h = refl
join-IsPrintable sep (t ∷ []) p h = ground (arith, valid_desktop_name-IsPrintable t)
join-IsPrintable sep (t ∷ u ∷ ts) p h =
    any-append is_control (t ++ sep) (join sep (u ∷ ts))
      (any-append is_control t sep (ground (arith, valid_desktop_name-IsPrintable t)) p)
      (join-IsPrintable sep (u ∷ ts) p (ground arith))

current_desktop-IsPrintable :
    (names : List Text) (env : List Text) → current_desktop names ≡ ok env → All IsPrintable env
unfolding current_desktop is_control
current_desktop-IsPrintable names env h =
    elim (Bool-cases (is_empty names || any (λ name. not (valid_desktop_name name)) names)) [
      | inl e ↦ cc (rw e at h)
      | inr n ↦ subst (All IsPrintable) (ok-injective (rw n at h)) (
        any-append is_control (chars "XDG_CURRENT_DESKTOP=") (join (b':' ∷ []) names) refl
            (join-IsPrintable (b':' ∷ []) names refl (ground arith)),
        tt,
      )
    ]

desktop_names-IsPrintable :
    (names : Option Text) (env : List Text) → desktop_names names ≡ ok env → All IsPrintable env
desktop_names-IsPrintable none env h = subst (All IsPrintable) (ok-injective h) tt
desktop_names-IsPrintable (some t) env h =
    current_desktop-IsPrintable (filter_filled (split b';' t)) env h

kind-IsPrintable : (kind : SessionKind) → IsPrintable (xdg_value kind)
unfolding xdg_value is_control
kind-IsPrintable wayland = refl
kind-IsPrintable x11 = refl

session_environment-IsPrintable :
    (entry : DesktopEntry) (stem : Text) (kind : SessionKind) (env : List Text)
    → session_environment entry stem kind ≡ ok env
    → All IsPrintable env
unfolding session_environment is_control xdg_value
session_environment-IsPrintable entry stem kind env h =
    elim (Bool-cases (valid_environment_value stem)) [
      | inl v ↦
          let (names, e, r) =
            >=>-eq-ok (desktop_names (entry.desktop_entry (chars "DesktopNames"))) _ (rw v at h) in
          subst (All IsPrintable) (ok-injective r) (
            any-append is_control (chars "XDG_SESSION_DESKTOP=") stem refl
                (valid_environment_value-IsPrintable stem v),
            (
              any-append is_control (chars "DESKTOP_SESSION=") stem refl
                  (valid_environment_value-IsPrintable stem v),
              (
                any-append is_control (chars "XDG_SESSION_TYPE=") (xdg_value kind) refl
                    (kind-IsPrintable kind),
                desktop_names-IsPrintable (entry.desktop_entry (chars "DesktopNames")) names e,
              ),
            ),
          )
      | inr n ↦ cc (rw n at h)
    ]

pub record IsLoaded (id : SessionId) (kind : SessionKind) (entry : CatalogEntry) : Type 0 where
  pub loaded_id : entry.info.id ≡ id
  pub loaded_kind : entry.info.kind ≡ kind
  pub executable : IsExecutable entry.command
  pub printable : All IsPrintable entry.environment

pub load_entry-IsLoaded :
    (files : Files) (path : FilePath) (id : SessionId) (stem : Text) (kind : SessionKind)
    (config : DiscoveryConfig) (entry : CatalogEntry)
    → load_entry files path id stem kind config ≡ ok entry
    → IsLoaded id kind entry
unfolding load_entry
load_entry-IsLoaded files path id stem kind config entry h =
    let (e, _, h) =
      >=>-eq-ok (ok_or (files.from_path path config.locales) invalid_desktop_entry) _ h in
    let (_, _, h) = >=>-eq-ok (reject_if (not e.has_group) missing_desktop_entry_group) _ h in
    let (f, _, h) = >=>-eq-ok (strict_bool e (chars "Hidden")) _ h in
    let (_, _, h) = >=>-eq-ok (reject_if (is_set f) hidden) _ h in
    let (f, _, h) = >=>-eq-ok (strict_bool e (chars "NoDisplay")) _ h in
    let (_, _, h) = >=>-eq-ok (reject_if (is_set f) no_display) _ h in
    let (_, _, h) = >=>-eq-ok (reject_if (has_other_type e.type_name) unsupported_type) _ h in
    let (_, _, h) = >=>-eq-ok (ok_or (filter_name (e.name config.locales)) missing_name) _ h in
    let (exec, _, h) = >=>-eq-ok (ok_or e.exec missing_exec) _ h in
    let (_, c, h) = >=>-eq-ok (map_err (λ _. invalid_exec) (parse_exec exec)) _ h in
    let (_, _, h) =
      >=>-eq-ok (validate_try_exec files e.try_exec config.executable_search_paths) _ h in
    let (env, v, h) = >=>-eq-ok (session_environment e stem kind) _ h in
    subst (IsLoaded id kind) (ok-injective h) (record {
      loaded_id = refl;
      loaded_kind = refl;
      executable =
          parse_exec-IsExecutable exec (map_err-eq-ok (λ _. invalid_exec) (parse_exec exec) c);
      printable = session_environment-IsPrintable e stem kind env v;
    })
