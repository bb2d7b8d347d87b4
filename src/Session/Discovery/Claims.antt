-- ===== src/Session/Discovery/Claims.antt =====
-- Which file of crates/fomalhaut-session/src/discovery.rs gives a session: the first that claims its
-- identifier, and only if it loads.
use fomalhaut.Common.{
  false, Option, none, some, List, [], ◌∷◌, ◌++◌, map, Result, ok, err, ◌>=>◌, >=>-eq-ok,
  ok-injective, subst, if◌then◌else◌, ◌≡◌, refl, sym, ap, ◌∙◌, Bool-cases, inl, inr, arith,
}
use fomalhaut.Core.Types.{Text}
use fomalhaut.Session.Texts.{text_eq, has, get}
use fomalhaut.Session.Texts.Maps.{text_eq_refl, text_eq→eq, get-insert}
use fomalhaut.Session.Catalog.{
  SessionDirectory, SessionId, from_file_stem, CatalogEntry, FilePath, RejectionReason,
  DiscoveryReport,
}
use fomalhaut.Session.Entry.{Files, DiscoveryConfig, load_entry}
use fomalhaut.Session.Discovery.Names.{desktop_stem}
use fomalhaut.Session.Discovery.{
  DiscoveryError, ReadDir, read_directory, Found, loaded, claim, named, visit, visit_all,
  discover_from, initial, report_of, discover,
}

-- A file in a directory of a kind.
abbrev pub Claim : Type 0
Claim = SessionDirectory × FilePath

-- All files, in the order of the directories.
abbrev pub claims : (Text → ReadDir) → List SessionDirectory → Result (List Claim) DiscoveryError
claims read_dir [] = ok []
claims read_dir (d ∷ ds) = read_directory d.path (read_dir d.path) >=> λ paths.
    claims read_dir ds >=> λ cs. ok (map (λ path. (d, path)) paths ++ cs)

abbrev pub to_option : Result CatalogEntry RejectionReason → Option CatalogEntry
to_option (ok entry) = some entry
to_option (err e) = none

module _ (files : Files) (config : DiscoveryConfig) where
  abbrev pub on_claim : SessionId → Claim → Option Text → Option CatalogEntry → Option CatalogEntry
  on_claim id c none rest = rest
  on_claim id c (some stem) rest =
      if text_eq (from_file_stem (c.0).kind stem) id
      then to_option (load_entry files c.1 (from_file_stem (c.0).kind stem) stem (c.0).kind config)
      else rest

  -- What the first file that claims the identifier gives.
  abbrev pub winner : SessionId → List Claim → Option CatalogEntry
  winner id [] = none
  winner id (c ∷ cs) = on_claim id c (desktop_stem c.1) (winner id cs)

  abbrev pub visit_claims : List Claim → Found → Found
  visit_claims [] found = found
  visit_claims (c ∷ cs) found = visit_claims cs (visit files config c.0 c.1 found)

  visit_claims-append :
      (d : SessionDirectory) (paths : List FilePath) (cs : List Claim) (found : Found)
      → visit_claims (map (λ path. (d, path)) paths ++ cs) found
        ≡ visit_claims cs (visit_all files config d paths found)
  unfolding visit_all
  visit_claims-append d [] cs found = refl
  visit_claims-append d (p ∷ ps) cs found =
      visit_claims-append d ps cs (visit files config d p found)

  claims-append :
      (d : SessionDirectory) (paths : List FilePath) (r : Result (List Claim) DiscoveryError)
      (found : Found)
      → (r >=> λ cs. ok (visit_claims cs (visit_all files config d paths found))) ≡ (
          r >=> (λ cs. ok (map (λ path. (d, path)) paths ++ cs)) >=> λ cs.
          ok (visit_claims cs found))
  claims-append d paths (ok cs) found = ap ok (sym (visit_claims-append d paths cs found))
  claims-append d paths (err e) found = refl

  abbrev Split : (Text → ReadDir) → List SessionDirectory → Type 0
  Split read_dir ds =
      (found : Found)
      → discover_from files config read_dir ds found
        ≡ (claims read_dir ds >=> λ cs. ok (visit_claims cs found))

  discover_from-claims_next :
      (read_dir : Text → ReadDir) (d : SessionDirectory) (ds : List SessionDirectory)
      (r : Result (List FilePath) DiscoveryError) (found : Found)
      → Split read_dir ds
      → (r >=> λ paths.
          discover_from files config read_dir ds (visit_all files config d paths found))
        ≡ (r
            >=> (λ paths. claims read_dir ds >=> λ cs. ok (map (λ path. (d, path)) paths ++ cs))
            >=> λ cs. ok (visit_claims cs found))
  discover_from-claims_next read_dir d ds (ok paths) found h =
      h (visit_all files config d paths found) ∙ claims-append d paths (claims read_dir ds) found
  discover_from-claims_next read_dir d ds (err e) found h = refl

  pub discover_from-claims :
      (read_dir : Text → ReadDir) (ds : List SessionDirectory) → Split read_dir ds
  unfolding discover_from
  discover_from-claims read_dir [] found = refl
  discover_from-claims read_dir (d ∷ ds) found =
      discover_from-claims_next read_dir d ds (read_directory d.path (read_dir d.path)) found
        (discover_from-claims read_dir ds)

  abbrev pub Inv : SessionId → Found → Type 0
  Inv id found = has id found.seen ≡ false → get id found.entries ≡ none

  -- Once an identifier was seen, a round leaves its entry.
  abbrev answer : SessionId → Found → Option CatalogEntry → Option CatalogEntry
  answer id found rest = if has id found.seen then get id found.entries else rest

  loaded-answer :
      (id k : SessionId) (path : FilePath) (r : Result CatalogEntry RejectionReason) (found : Found)
      (rest : Option CatalogEntry)
      → has k found.seen ≡ false
      → Inv id found
      → answer id (loaded path k r (record found { seen = k ∷ found.seen })) rest
        ≡ answer id found (if text_eq k id then to_option r else rest)
  loaded-answer id k path (ok e) found rest u h =
      ground
        (arith, get-insert k id e found.entries, text_eq→eq k id, text_eq→eq id k, text_eq_refl k)
  loaded-answer id k path (err e) found rest u h =
      ground (arith, text_eq→eq k id, text_eq→eq id k, text_eq_refl k)

  loaded-Inv :
      (id k : SessionId) (path : FilePath) (r : Result CatalogEntry RejectionReason) (found : Found)
      → Inv id found
      → Inv id (loaded path k r (record found { seen = k ∷ found.seen }))
  loaded-Inv id k path (ok e) found h u =
      ground (arith, get-insert k id e found.entries, text_eq→eq k id, text_eq_refl id)
  loaded-Inv id k path (err e) found h u = ground arith

  claim-answer :
      (id k stem : Text) (path : FilePath) (d : SessionDirectory) (found : Found)
      (rest : Option CatalogEntry)
      → Inv id found
      → answer id (claim files config path k stem d found) rest
        ≡ answer id found
            (if text_eq k id then to_option (load_entry files path k stem d.kind config) else rest)
  claim-answer id k stem path d found rest h = elim (Bool-cases (has k found.seen)) [
    | inl e ↦ ground (arith, text_eq→eq k id)
    | inr n ↦
        rw n (loaded-answer id k path (load_entry files path k stem d.kind config) found rest n h)
  ]

  claim-Inv :
      (id k stem : Text) (path : FilePath) (d : SessionDirectory) (found : Found)
      → Inv id found
      → Inv id (claim files config path k stem d found)
  claim-Inv id k stem path d found h = elim (Bool-cases (has k found.seen)) [
    | inl e ↦ rw e h
    | inr n ↦ rw n (loaded-Inv id k path (load_entry files path k stem d.kind config) found h)
  ]

  named-answer :
      (id : SessionId) (c : Claim) (o : Option Text) (found : Found) (rest : Option CatalogEntry)
      → Inv id found
      → answer id (named files config c.1 o c.0 found) rest ≡ answer id found (on_claim id c o rest)
  named-answer id c none found rest h = refl
  named-answer id c (some stem) found rest h =
      claim-answer id (from_file_stem (c.0).kind stem) stem c.1 c.0 found rest h

  pub named-Inv :
      (id : SessionId) (c : Claim) (o : Option Text) (found : Found)
      → Inv id found
      → Inv id (named files config c.1 o c.0 found)
  named-Inv id c none found h = h
  named-Inv id c (some stem) found h =
      claim-Inv id (from_file_stem (c.0).kind stem) stem c.1 c.0 found h

  visit_claims-answer :
      (id : SessionId) (cs : List Claim) (found : Found)
      → Inv id found
      → get id (visit_claims cs found).entries ≡ answer id found (winner id cs)
  unfolding visit
  visit_claims-answer id [] found h = ground arith
  visit_claims-answer id (c ∷ cs) found h =
      visit_claims-answer id cs (visit files config c.0 c.1 found)
        (named-Inv id c (desktop_stem c.1) found h)
      ∙ named-answer id c (desktop_stem c.1) found (winner id cs) h

  report_chain :
      (r : Result (List Claim) DiscoveryError)
      → (r >=> (λ cs. ok (visit_claims cs initial)) >=> λ found. ok (report_of found))
        ≡ (r >=> λ cs. ok (report_of (visit_claims cs initial)))
  report_chain (ok cs) = refl
  report_chain (err e) = refl

  -- discover visits all files in order.
  pub discover-claims :
      (read_dir : Text → ReadDir) (report : DiscoveryReport)
      → discover files config read_dir ≡ ok report
      → (cs : List Claim) × (claims read_dir config.directories ≡ ok cs)
        × (report_of (visit_claims cs initial) ≡ report)
  unfolding discover
  discover-claims read_dir report h =
      let (cs, e, r) =
        >=>-eq-ok (claims read_dir config.directories)
          (λ cs. ok (report_of (visit_claims cs initial)))
          (sym (report_chain (claims read_dir config.directories))
            ∙ sym (
                ap (λ r. r >=> λ found. ok (report_of found))
                  (discover_from-claims read_dir config.directories initial))
            ∙ h) in
      (cs, e, ok-injective r)

  -- For every identifier, what discover lists under it is what the first file that claims it gives,
  -- over all files in the order of the directories: nothing if that file does not load or if no
  -- file claims it.
  pub discover-winner :
      (read_dir : Text → ReadDir) (report : DiscoveryReport) (id : SessionId)
      → discover files config read_dir ≡ ok report
      → (cs : List Claim) × (claims read_dir config.directories ≡ ok cs)
        × (get id report.catalog.entries ≡ winner id cs)
  unfolding get
  discover-winner read_dir report id h =
      let (cs, e, r) = discover-claims read_dir report h in
      (
        cs,
        e,
        subst (λ report. get id report.catalog.entries ≡ winner id cs) r
            (visit_claims-answer id cs initial (λ _. refl)),
      )
