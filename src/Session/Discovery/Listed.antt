-- ===== src/Session/Discovery/Listed.antt =====
-- What the catalog of crates/fomalhaut-session/src/discovery.rs promises of each session in it.
use fomalhaut.Common.{
  Option, none, some, List, [], ◌∷◌, Result, ok, err, All, ◌≡◌, refl, sym, subst, ◌∙◌, Bool-cases,
  inl, inr,
}
use fomalhaut.Core.Types.{Text, new_command}
use fomalhaut.Session.Exec.Accepted.{IsExecutable}
use fomalhaut.Session.Texts.{text_eq, get}
use fomalhaut.Session.Texts.Maps.{text_eq→eq}
use fomalhaut.Session.Catalog.{
  SessionDirectory, SessionId, from_file_stem, CatalogEntry, RejectionReason, DiscoveryReport,
  SessionCatalog, command,
}
use fomalhaut.Session.Entry.{Files, DiscoveryConfig, load_entry}
use fomalhaut.Session.Entry.Environment.{IsPrintable, IsLoaded, load_entry-IsLoaded}
use fomalhaut.Session.Discovery.Names.{desktop_stem}
use fomalhaut.Session.Discovery.{ReadDir, discover}
use fomalhaut.Session.Discovery.Claims.{Claim, to_option, on_claim, winner, discover-winner}

record IsListed (id : SessionId) (entry : CatalogEntry) : Type 0 where
  listed_id : entry.info.id ≡ id
  listed_command : IsExecutable entry.command
  listed_environment : All IsPrintable entry.environment

-- A name stands for an entry that, if it is there, is sound.
abbrev Sound : SessionId → Option CatalogEntry → Type 0
Sound id none = Unit
Sound id (some entry) = IsListed id entry

to_option-Sound :
    (id k : SessionId) (d : SessionDirectory) (r : Result CatalogEntry RejectionReason)
    → k ≡ id
    → ((entry : CatalogEntry) → r ≡ ok entry → IsLoaded k d.kind entry)
    → Sound id (to_option r)
to_option-Sound id k d (ok entry) e h = record {
  listed_id = (h entry refl).loaded_id ∙ e;
  listed_command = (h entry refl).executable;
  listed_environment = (h entry refl).printable;
}
to_option-Sound id k d (err e) q h = tt

module _ (files : Files) (config : DiscoveryConfig) where
  on_claim-Sound :
      (id : SessionId) (c : Claim) (o : Option Text) (rest : Option CatalogEntry)
      → Sound id rest
      → Sound id (on_claim files config id c o rest)
  on_claim-Sound id c none rest h = h
  on_claim-Sound id c (some stem) rest h =
      let k = from_file_stem (c.0).kind stem in
      elim (Bool-cases (text_eq k id)) [
        | inl e ↦ rw e (
            to_option-Sound id k c.0 (load_entry files c.1 k stem (c.0).kind config)
              (text_eq→eq k id e) (load_entry-IsLoaded files c.1 k stem (c.0).kind config))
        | inr n ↦ rw n h
      ]

  winner-Sound : (id : SessionId) (cs : List Claim) → Sound id (winner files config id cs)
  winner-Sound id [] = tt
  winner-Sound id (c ∷ cs) =
      on_claim-Sound id c (desktop_stem c.1) (winner files config id cs) (winner-Sound id cs)

  command-get :
      (catalog : SessionCatalog) (id : SessionId) (entry : CatalogEntry)
      → get id catalog.entries ≡ some entry
      → IsExecutable entry.command
      → command catalog id
        ≡ ok (record { command = entry.command; environment = entry.environment })
  unfolding command new_command
  command-get catalog id entry h e = rw (h, e.splits) refl

  -- When discover succeeds and the catalog holds an entry under an identifier, the entry bears that
  -- identifier, its command has a program name that is not empty and holds no =, with no NUL in any
  -- argument, no environment variable holds a control character, and SessionCatalog::command
  -- returns that command and that environment.
  pub discover-command :
      (read_dir : Text → ReadDir) (report : DiscoveryReport) (id : SessionId) (entry : CatalogEntry)
      → discover files config read_dir ≡ ok report
      → get id report.catalog.entries ≡ some entry
      → (entry.info.id ≡ id)
        × IsExecutable entry.command
        × All IsPrintable entry.environment
        × (command report.catalog id
            ≡ ok (record { command = entry.command; environment = entry.environment }))
  discover-command read_dir report id entry h g =
      let (cs, _, w) = discover-winner files config read_dir report id h in
      let s = subst (Sound id) (sym w ∙ g) (winner-Sound id cs) in
      (
        s.listed_id,
        s.listed_command,
        s.listed_environment,
        command-get report.catalog id entry g s.listed_command,
      )
