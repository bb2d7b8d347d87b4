-- ===== src/Examples/Sessions.antt =====
-- Session directories.
use fomalhaut.Common.{◌+◌, true, false, none, some, List, [], ◌∷◌, ok, length, All, ◌≡◌, refl}
use fomalhaut.Core.Types.{Text}
use fomalhaut.Session.Texts.{chars, get, text_eq}
use fomalhaut.Session.Exec.Accepted.{IsExecutable}
use fomalhaut.Session.Catalog.{
  wayland, SessionId, CatalogEntry, duplicate, invalid_file_name, DiscoveryReport, command, len,
}
use fomalhaut.Session.Entry.{DesktopEntry, Files, DiscoveryConfig}
use fomalhaut.Session.Entry.Environment.{IsPrintable}
use fomalhaut.Session.Discovery.{ReadDir, opened, discover}
use fomalhaut.Session.Discovery.Claims.{Claim, claims, winner, discover-winner}
use fomalhaut.Session.Discovery.Count.{discover-total}
use fomalhaut.Session.Discovery.Listed.{discover-command}

abbrev sway : DesktopEntry
sway = record {
  has_group = true;
  desktop_entry = λ _. none;
  type_name = some (chars "Application");
  name = λ _. some (chars "Sway");
  exec = some (chars "sway");
  try_exec = none;
}

abbrev files : Files
files = record { from_path = λ _ _. some sway; executable = λ _. true; executable_in = λ _ _. true }

-- Two directories that hold the same files.
abbrev config : DiscoveryConfig
config = record {
  directories =
      record { path = chars "/a"; kind = wayland }
      ∷ record { path = chars "/b"; kind = wayland }
      ∷ [];
  locales = [];
  executable_search_paths = [];
}

abbrev read_dir : Text → ReadDir
read_dir _ = opened (
    some (record { file_name = chars "sway.desktop"; file_type = some true })
    ∷ some (record { file_name = chars "README"; file_type = some true })
    ∷ some (record { file_name = 255 ∷ chars ".desktop"; file_type = some true })
    ∷ some (record { file_name = chars "d.desktop"; file_type = some false })
    ∷ [])

abbrev sway_id : SessionId
sway_id = chars "wayland:sway"

abbrev sway_entry : CatalogEntry
sway_entry = record {
  info = record { id = sway_id; name = chars "Sway"; kind = wayland };
  command = chars "sway" ∷ [];
  environment =
      chars "XDG_SESSION_DESKTOP=sway"
      ∷ chars "DESKTOP_SESSION=sway"
      ∷ chars "XDG_SESSION_TYPE=wayland"
      ∷ [];
}

-- The name that is not UTF-8 is refused, and so is the second claim.
abbrev report : DiscoveryReport
report = record {
  catalog = record { entries = (sway_id, sway_entry) ∷ [] };
  rejections =
      record {
        path = record { directory = chars "/a"; file_name = 255 ∷ chars ".desktop" };
        id = none;
        reason = invalid_file_name;
      }
      ∷ record {
        path = record { directory = chars "/b"; file_name = chars "sway.desktop" };
        id = some sway_id;
        reason = duplicate;
      }
      ∷ record {
        path = record { directory = chars "/b"; file_name = 255 ∷ chars ".desktop" };
        id = none;
        reason = invalid_file_name;
      }
      ∷ [];
}

discover_two : discover files config read_dir ≡ ok report
unfolding discover
discover_two = refl

discover-winner_example :
    (cs : List Claim) × (claims read_dir config.directories ≡ ok cs)
    × (get sway_id report.catalog.entries ≡ winner files config sway_id cs)
discover-winner_example = discover-winner files config read_dir report sway_id discover_two

discover-total_example :
    (cs : List Claim) × (claims read_dir config.directories ≡ ok cs)
    × (len report.catalog + length report.rejections ≡ length cs)
discover-total_example = discover-total files config read_dir report discover_two

discover-command_example :
    (sway_entry.info.id ≡ sway_id)
    × IsExecutable sway_entry.command
    × All IsPrintable sway_entry.environment
    × (command report.catalog sway_id
        ≡ ok (record { command = sway_entry.command; environment = sway_entry.environment }))
unfolding get text_eq
discover-command_example =
    discover-command files config read_dir report sway_id sway_entry discover_two refl
