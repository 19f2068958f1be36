-- ===== src/Archive/Tests.antt =====
-- Runs of the archive checks, and their theorems at concrete data.
use forza_motorsport_linux.Base.{
  ◌≡◌, ◌≢◌, refl, equality, true, false, Text, codes, some, none, [], ◌∷◌, map, ok, err, message,
  arith, list_eq, nat_eq, split, join, onto_first, starts_with, contains, recursion_error, Raises,
}
use forza_motorsport_linux.Paths.{
  normpath, dirname, join_paths, encoded_size, normal_parts, normal_stack, push_component,
  reverse_onto, initial_slashes,
}
use forza_motorsport_linux.Archive.{
  ArchiveMember, ArchiveGraph, regular, symlink, hardlink, kind_eq, is_safe_root, is_short,
  is_inside, normalized_member_name, safe_relative_path,
}
use forza_motorsport_linux.Archive.Graph.{
  Links, find_member, find_link, resolved_link, resolve_member, resolve_links, validate_graph,
  check_parents, parents, is_absent_or_directory, is_link, is_missing, is_file, visit, visit_all,
  ultimate_hardlink_target, source_of, link_path,
}
use forza_motorsport_linux.Archive.Graph.Acyclic.{visit_all-NoOverflow}
use forza_motorsport_linux.Archive.Graph.Contained.{
  IsContained, normalized_member_name-IsContained, safe_relative_path-IsContained,
  resolved_link-IsContained,
}
use forza_motorsport_linux.Archive.Graph.Hardlinks.{
  IsValidated, LeadsInside, validate_graph-Resolved, validate_graph-IsValidated, IsRegularEnd,
  ultimate_hardlink_target-IsRegularEnd,
}

-- A test by `refl` names this on its `unfolding` line, so that the archive checks compute.
unfoldable pub checking : Unit {0}
unfolding equality starts_with join split onto_first kind_eq normpath normal_parts normal_stack
    push_component reverse_onto initial_slashes dirname join_paths encoded_size is_short is_inside
    is_safe_root normalized_member_name safe_relative_path resolved_link resolve_member
    resolve_links validate_graph check_parents parents is_absent_or_directory is_link is_missing
    is_file visit visit_all find_member find_link link_path
checking = tt

normal_dots :
    map normpath (codes "a/./b/../c//d" ∷ codes "../../x" ∷ codes "//a/.." ∷ codes "" ∷ [])
    ≡ codes "a/c/d" ∷ codes "../../x" ∷ codes "//" ∷ codes "." ∷ []
unfolding checking
normal_dots = refl

abbrev root : Text
root = codes "r"

abbrev file : ArchiveMember
file = record { path = codes "r/a"; kind = regular; size = 3; mode = 420; link_target = none }

abbrev hard : ArchiveMember
hard = record {
  path = codes "r/h";
  kind = hardlink;
  size = 0;
  mode = 420;
  link_target = some (codes "r/k");
}

abbrev second : ArchiveMember
second = record {
  path = codes "r/k";
  kind = hardlink;
  size = 0;
  mode = 420;
  link_target = some (codes "r/a");
}

abbrev soft : ArchiveMember
soft = record {
  path = codes "r/s";
  kind = symlink;
  size = 0;
  mode = 511;
  link_target = some (codes "./h");
}

abbrev graph : ArchiveGraph
graph = record { root = root; members = file ∷ hard ∷ second ∷ soft ∷ []; total_regular_size = 3 }

abbrev table : Links
table = (codes "r/h", codes "r/k") ∷ (codes "r/k", codes "r/a") ∷ (codes "r/s", codes "r/h") ∷ []

graph_accepted : validate_graph 4 graph true ≡ ok table
unfolding checking
graph_accepted = refl

-- A link that leads to itself over another, and one that leaves the archive.
abbrev looping : ArchiveGraph
looping = record {
  root = root;
  members = hard ∷ record second { link_target = some (codes "r/h") } ∷ [];
  total_regular_size = 0;
}

cycle_refused : validate_graph 4 looping true ≡ err (message "archive link cycle")
unfolding checking
cycle_refused = refl

escape_refused :
    resolved_link (record soft { link_target = some (codes "../etc") }) root
    ≡ err (message "archive link target escapes expected root")
unfolding checking
escape_refused = refl

dotted_name_refused :
    normalized_member_name (codes "r/../x") [] ≡ err (message "unsafe archive member name")
unfolding checking
dotted_name_refused = refl

soft_resolved : resolved_link soft root ≡ ok (codes "r/h")
unfolding checking
soft_resolved = refl

name_accepted :
    normalized_member_name (codes "r/a") (codes "r" ∷ [])
    ≡ ok (codes "r/a", codes "r/a" ∷ codes "r" ∷ [])
unfolding checking
name_accepted = refl

path_accepted : safe_relative_path (codes "bin/x") ≡ ok (codes "bin/x")
unfolding checking
path_accepted = refl

root_safe : is_safe_root root ≡ true
unfolding checking
root_safe = refl

hard_found : find_member (codes "r/h") graph.members ≡ some hard
unfolding checking
hard_found = refl

table-IsValidated : IsValidated graph table
table-IsValidated = validate_graph-Resolved 4 graph true table graph_accepted

ultimate_hardlink_target-IsRegularEnd_example :
    IsRegularEnd
      (λ fuel. ultimate_hardlink_target fuel graph.members table (codes "r/h"))
      graph.members
ultimate_hardlink_target-IsRegularEnd_example =
    ultimate_hardlink_target-IsRegularEnd graph table table-IsValidated (codes "r/h") hard
      hard_found refl

validate_graph-IsValidated_example : IsValidated graph table × LeadsInside graph table
validate_graph-IsValidated_example =
    validate_graph-IsValidated 4 graph true table root_safe graph_accepted

visit_all-NoOverflow_example :
    Raises (λ e. e ≢ recursion_error) (visit_all 4 table (map source_of table) [])
visit_all-NoOverflow_example = visit_all-NoOverflow table 4 (map source_of table) [] (omega arith)

resolved_link-IsContained_example :
    (is_inside root (codes "r/h") ≡ true) × IsContained (codes "r/h")
resolved_link-IsContained_example =
    resolved_link-IsContained soft root (codes "r/h") root_safe soft_resolved

normalized_member_name-IsContained_example :
    (◌≡◌ {A = Text} (codes "r/a") (codes "r/a"))
    × (contains (codes "r" ∷ []) (codes "r/a") ≡ false)
    × (codes "r/a" ∷ codes "r" ∷ [] ≡ codes "r/a" ∷ codes "r" ∷ [])
    × IsContained (codes "r/a")
normalized_member_name-IsContained_example =
    normalized_member_name-IsContained (codes "r/a") (codes "r" ∷ []) (codes "r/a")
      (codes "r/a" ∷ codes "r" ∷ []) name_accepted

safe_relative_path-IsContained_example :
    (codes "bin/x" ≡ codes "bin/x") × IsContained (codes "bin/x")
safe_relative_path-IsContained_example =
    safe_relative_path-IsContained (codes "bin/x") (codes "bin/x") path_accepted
