-- ===== src/Session/Discovery/Count.antt =====
-- No file is dropped: crates/fomalhaut-session/src/discovery.rs lists each, or says why not.
use fomalhaut.Common.{
  ℕ, ◌+◌, Option, none, some, List, [], ◌∷◌, Result, ok, err, length, length-append, ◌≡◌, refl,
  subst, Bool-cases, inl, inr, arith,
}
use fomalhaut.Core.Types.{Text}
use fomalhaut.Session.Texts.{has, get}
use fomalhaut.Session.Texts.Maps.{length-insert}
use fomalhaut.Session.Catalog.{
  SessionDirectory, from_file_stem, CatalogEntry, FilePath, RejectionReason, DiscoveryReport, len,
}
use fomalhaut.Session.Entry.{Files, DiscoveryConfig, load_entry}
use fomalhaut.Session.Discovery.Names.{desktop_stem}
use fomalhaut.Session.Discovery.{
  ReadDir, Found, reject, loaded, claim, named, visit, initial, discover,
}
use fomalhaut.Session.Discovery.Claims.{
  Claim, claims, Inv, named-Inv, visit_claims, discover-claims,
}

abbrev total : Found → ℕ
total found = length found.entries + length found.rejections

reject-total :
    (path : FilePath) (id : Option Text) (reason : RejectionReason) (found : Found)
    → total (reject path id reason found) ≡ total found + 1
reject-total path id reason found =
    omega (
      arith,
      length-append found.rejections (record { path = path; id = id; reason = reason } ∷ []),
    )

loaded-total :
    (path : FilePath) (k : Text) (r : Result CatalogEntry RejectionReason) (found : Found)
    → get k found.entries ≡ none
    → total (loaded path k r found) ≡ total found + 1
loaded-total path k (ok e) found h = omega (arith, length-insert k e found.entries h)
loaded-total path k (err e) found h = reject-total path (some k) e found

module _ (files : Files) (config : DiscoveryConfig) where
  claim-total :
      (k stem : Text) (path : FilePath) (d : SessionDirectory) (found : Found)
      → Inv files config k found
      → total (claim files config path k stem d found) ≡ total found + 1
  claim-total k stem path d found h = elim (Bool-cases (has k found.seen)) [
    | inl e ↦ rw e (reject-total path (some k) RejectionReason.duplicate found)
    | inr n ↦ rw n (
        loaded-total path k (load_entry files path k stem d.kind config)
          (record found { seen = k ∷ found.seen }) (h n))
  ]

  named-total :
      (c : Claim) (o : Option Text) (found : Found)
      → ((id : Text) → Inv files config id found)
      → total (named files config c.1 o c.0 found) ≡ total found + 1
  named-total c none found h = reject-total c.1 none RejectionReason.invalid_file_name found
  named-total c (some stem) found h =
      claim-total (from_file_stem (c.0).kind stem) stem c.1 c.0 found
        (h (from_file_stem (c.0).kind stem))

  visit_claims-total :
      (cs : List Claim) (found : Found)
      → ((id : Text) → Inv files config id found)
      → total (visit_claims files config cs found) ≡ length cs + total found
  unfolding visit
  visit_claims-total [] found h = omega arith
  visit_claims-total (c ∷ cs) found h = omega (
    arith,
    visit_claims-total cs (visit files config c.0 c.1 found)
        (λ id. named-Inv files config id c (desktop_stem c.1) found (h id)),
    named-total c (desktop_stem c.1) found h,
  )

  -- When discover succeeds, the sessions listed and the files rejected are together as many as the
  -- files found in the directories.
  pub discover-total :
      (read_dir : Text → ReadDir) (report : DiscoveryReport)
      → discover files config read_dir ≡ ok report
      → (cs : List Claim) × (claims read_dir config.directories ≡ ok cs)
        × (len report.catalog + length report.rejections ≡ length cs)
  unfolding len get
  discover-total read_dir report h =
      let (cs, e, r) = discover-claims files config read_dir report h in
      (
        cs,
        e,
        subst (λ report. len report.catalog + length report.rejections ≡ length cs) r
            (omega (arith, visit_claims-total cs initial (λ id _. refl))),
      )
