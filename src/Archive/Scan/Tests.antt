-- ===== src/Archive/Scan/Tests.antt =====
-- A run of the scan of an archive, and its theorem at concrete entries.
use forza_motorsport_linux.Base.{
  ℕ, ◌≡◌, refl, Text, none, some, List, [], ◌∷◌, true, ok, err, message, codes, sorted_by,
  insert_by, text_leb,
}
use forza_motorsport_linux.Archive.{
  ArchivePolicy, is_reg, is_lnk, regular, hardlink, kind_eq, safe_root, validated_policy,
  member_kind, link_kind,
}
use forza_motorsport_linux.Archive.Tests.{checking}
use forza_motorsport_linux.Archive.Graph.{link_text}
use forza_motorsport_linux.Archive.Graph.Hardlinks.{IsValidated}
use forza_motorsport_linux.Archive.Scan.{
  Entry, ArchiveScan, read_blocks, content_digest, add_digest, scan_entry, scan_entries,
  scan_archive,
}
use forza_motorsport_linux.Archive.Scan.Safe.{IsSafeGraph, scan_archive-IsSafeGraph}

-- A test by `refl` names this on its `unfolding` line, so that the scan computes.
scanning : Unit {0}
unfolding checking sorted_by insert_by text_leb safe_root validated_policy member_kind link_kind
    link_text read_blocks content_digest add_digest scan_entry scan_entries scan_archive
scanning = tt

abbrev first_bytes : List ℕ → Text
first_bytes bytes = bytes

abbrev policy : ArchivePolicy
policy = record {
  expected_root = codes "r";
  max_members = 4;
  max_total_size = 10;
  allow_contained_links = true;
}

abbrev hard_entry : Entry
hard_entry = record {
  info = record { name = codes "r/h"; type = is_lnk; size = 0; mode = 420; linkname = codes "r/a" };
  content = none;
}

abbrev file_entry : Entry
file_entry = record {
  info = record { name = codes "r/a"; type = is_reg; size = 3; mode = 420; linkname = [] };
  content = some ((1 ∷ 2 ∷ []) ∷ (3 ∷ []) ∷ []);
}

abbrev scanned : ArchiveScan
scanned = record {
  graph = record {
    root = codes "r";
    members =
        record { path = codes "r/a"; kind = regular; size = 3; mode = 420; link_target = none }
        ∷ record {
          path = codes "r/h";
          kind = hardlink;
          size = 0;
          mode = 420;
          link_target = some (codes "r/a");
        }
        ∷ [];
    total_regular_size = 3;
  };
  regular_sha256 = (codes "r/a", 1 ∷ 2 ∷ 3 ∷ []) ∷ [];
  resolved_links = (codes "r/h", codes "r/a") ∷ [];
}

archive_accepted : scan_archive 4 first_bytes policy (hard_entry ∷ file_entry ∷ []) ≡ ok scanned
unfolding scanning
archive_accepted = refl

repeated_refused :
    scan_archive 4 first_bytes policy (file_entry ∷ file_entry ∷ [])
    ≡ err (message "duplicate archive member")
unfolding scanning
repeated_refused = refl

outside_refused :
    scan_archive 4 first_bytes (record policy { expected_root = codes "s" }) (file_entry ∷ [])
    ≡ err (message "archive member is outside the expected root")
unfolding scanning
outside_refused = refl

scan_archive-IsSafeGraph_example :
    IsSafeGraph policy scanned.graph × IsValidated scanned.graph scanned.resolved_links
scan_archive-IsSafeGraph_example =
    scan_archive-IsSafeGraph 4 first_bytes policy (hard_entry ∷ file_entry ∷ []) scanned
      archive_accepted
