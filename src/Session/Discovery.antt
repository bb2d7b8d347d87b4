-- ===== src/Session/Discovery.antt =====
-- crates/fomalhaut-session/src/discovery.rs: the directories in order, and the files in each.
-- What the file system holds is a parameter, and stands still while `discover` runs. A file name is
-- the list of its bytes.
pub mod Names
pub mod Claims
pub mod Count
pub mod Listed
use Prim.Native.Nat.{Ordering}
use fomalhaut.Common.{
  ℕ, Bool, true, false, ◌&&◌, Option, none, some, List, [], ◌∷◌, ◌++◌, Result, ok, err, ◌>=>◌,
  if◌then◌else◌, is_empty,
}
use fomalhaut.Core.Types.{Text}
use fomalhaut.Pam.Bytes.{Bytes}
use fomalhaut.Session.Texts.{text_eq, text_compare, has, insert, get}
use fomalhaut.Session.Catalog.{
  SessionDirectory, SessionId, from_file_stem, CatalogEntry, FilePath, RejectionReason,
  invalid_file_name, duplicate, Rejection, DiscoveryReport,
}
use fomalhaut.Session.Entry.{Files, DiscoveryConfig, load_entry}
use fomalhaut.Session.Discovery.Names.{desktop_stem, is_desktop}

pub data DiscoveryError : Type 0 where
  directory_error directory_entry_error : Text → DiscoveryError

-- An item of a directory that could be read: its name, and whether it is a plain file, where the
-- file type could be read.
pub record DirEntry : Type 0 where
  pub file_name : Bytes
  pub file_type : Option Bool

-- `fs::read_dir`: no item stands for an error while the directory is read.
pub data ReadDir : Type 0 where
  not_found unreadable : ReadDir
  opened : List (Option DirEntry) → ReadDir

abbrev pub keep : Bool → FilePath → List FilePath → List FilePath
keep is_file path paths = if is_file && is_desktop path.file_name then path ∷ paths else paths

abbrev pub read_type :
    Option Bool
    → FilePath
    → Result (List FilePath) DiscoveryError
    → Result (List FilePath) DiscoveryError
read_type none path rest = err (directory_entry_error path.directory)
read_type (some is_file) path rest = rest >=> λ paths. ok (keep is_file path paths)

unfoldable pub read_entries : Text → List (Option DirEntry) → Result (List FilePath) DiscoveryError
unfolding is_desktop
read_entries directory [] = ok []
read_entries directory (none ∷ es) = err (directory_entry_error directory)
read_entries directory (some e ∷ es) =
    read_type e.file_type (record { directory = directory; file_name = e.file_name })
      (read_entries directory es)

-- The order of paths in one directory is the order of the bytes of their names.
unfoldable pub insert_path : FilePath → List FilePath → List FilePath
unfolding text_compare
insert_path p [] = p ∷ []
insert_path p (q ∷ qs) = elim (text_compare p.file_name q.file_name) [
  | Ordering.lt ↦ p ∷ q ∷ qs
  | Ordering.eq ↦ p ∷ q ∷ qs
  | Ordering.gt ↦ q ∷ insert_path p qs
]

unfoldable pub sort : List FilePath → List FilePath
unfolding insert_path
sort [] = []
sort (p ∷ ps) = insert_path p (sort ps)

unfoldable pub read_directory : Text → ReadDir → Result (List FilePath) DiscoveryError
unfolding read_entries sort
read_directory path not_found = ok []
read_directory path unreadable = err (directory_error path)
read_directory path (opened es) = read_entries path es >=> λ paths. ok (sort paths)

-- The locals of `discover`; `seen` is a set.
pub record Found : Type 0 where
  pub entries : List (SessionId × CatalogEntry)
  pub seen : List SessionId
  pub rejections : List Rejection

abbrev pub reject : FilePath → Option SessionId → RejectionReason → Found → Found
reject path id reason found = record found {
  rejections = found.rejections ++ record { path = path; id = id; reason = reason } ∷ [];
}

-- The `match` on what `load_entry` returned.
abbrev pub loaded : FilePath → SessionId → Result CatalogEntry RejectionReason → Found → Found
loaded path id (ok entry) found = record found { entries = insert id entry found.entries }
loaded path id (err reason) found = reject path (some id) reason found

abbrev pub initial : Found
initial = record { entries = []; seen = []; rejections = [] }

abbrev pub report_of : Found → DiscoveryReport
report_of found = record {
  catalog = record { entries = found.entries };
  rejections = found.rejections;
}

module _ (files : Files) (config : DiscoveryConfig) where
  abbrev pub claim : FilePath → SessionId → Text → SessionDirectory → Found → Found
  claim path id stem directory found =
      if has id found.seen
      then reject path (some id) duplicate found
      else loaded path id (load_entry files path id stem directory.kind config)
          (record found { seen = id ∷ found.seen })

  abbrev pub named : FilePath → Option Text → SessionDirectory → Found → Found
  named path none directory found = reject path none invalid_file_name found
  named path (some stem) directory found =
      claim path (from_file_stem directory.kind stem) stem directory found

  -- One round of the inner loop.
  unfoldable pub visit : SessionDirectory → FilePath → Found → Found
  unfolding desktop_stem text_eq insert load_entry from_file_stem
  visit directory path found = named path (desktop_stem path) directory found

  unfoldable pub visit_all : SessionDirectory → List FilePath → Found → Found
  unfolding visit
  visit_all directory [] found = found
  visit_all directory (path ∷ paths) found = visit_all directory paths (visit directory path found)

  module _ (read_dir : Text → ReadDir) where
    unfoldable pub discover_from : List SessionDirectory → Found → Result Found DiscoveryError
    unfolding read_directory visit_all
    discover_from [] found = ok found
    discover_from (d ∷ ds) found = read_directory d.path (read_dir d.path) >=> λ paths.
        discover_from ds (visit_all d paths found)

    unfoldable pub discover : Result DiscoveryReport DiscoveryError
    unfolding discover_from
    discover = discover_from config.directories initial >=> λ found. ok (report_of found)
