-- ===== src/Archive/Graph.antt =====
-- forza_bootstrap/artifacts.py: `_resolved_link`, `_validate_graph`, `_archive_relative` and
-- `_ultimate_hardlink_target`. The dict `indexed` is the list of the members, and the dict `resolved` a
-- list of pairs in the order of insertion; of a path that is repeated, the last is what is found.
pub mod Acyclic
pub mod Contained
pub mod Hardlinks
use forza_motorsport_linux.Base.{
  ℕ, zero, suc, Text, Bool, true, false, ◌&&◌, ◌||◌, not, Option, none, some, List, [], ◌∷◌, ◌++◌,
  Result, ok, err, raise, raise_if, key_error, recursion_error, ◌>>=◌, ◌>>◌, ◌==◌, nat_eq, list_eq,
  contains, any_of, length, drop, split, starts_with, map, if◌then◌else◌,
}
use forza_motorsport_linux.Paths.{slash, normpath, dirname, join_paths, is_control}
use forza_motorsport_linux.Archive.{
  ArchiveMember, ArchiveGraph, MemberKind, directory, regular, symlink, hardlink, kind_eq, is_short,
  is_inside,
}

-- The text of a link target, checked.
unfoldable pub link_text : Option Text → Result Text
link_text none = raise "archive link target is invalid"
link_text (some target) = do
  raise_if (target == [] || contains target 0) "archive link target is invalid"
  raise_if (starts_with target (slash ∷ [])) "absolute archive link target is forbidden"
  raise_if (any_of is_control target) "archive link target is invalid"
  raise_if (not (is_short target)) "archive link target is invalid"
  ok target

unfoldable pub link_path : MemberKind → Text → Text → Text
link_path hardlink path target = normpath target
link_path _ path target = normpath (join_paths (dirname path) target)

unfoldable pub resolved_link : ArchiveMember → Text → Result Text
unfolding link_text
resolved_link member root = do
  target ← link_text member.link_target
  let resolved = link_path member.kind member.path target
  raise_if (not (is_inside root resolved)) "archive link target escapes expected root"
  ok resolved

-- A dict that is filled in order: what is found later has replaced what came before.
unfoldable pub last_of : {A : Type 0} → Option A → Bool → A → Option A
last_of (some later) same a = some later
last_of none same a = if same then some a else none

-- indexed.get(path)
unfoldable pub find_member : Text → List ArchiveMember → Option ArchiveMember
unfolding last_of
find_member path [] = none
find_member path (member ∷ members) =
    last_of (find_member path members) (member.path == path) member

abbrev pub Links : Type 0
Links = List (Text × Text)

-- resolved.get(path)
unfoldable pub find_link : Text → Links → Option Text
unfolding last_of
find_link path [] = none
find_link path ((source, target) ∷ links) = last_of (find_link path links) (source == path) target

unfoldable pub is_absent_or_directory : Option ArchiveMember → Bool
is_absent_or_directory none = true
is_absent_or_directory (some member) = member.kind == directory

-- The values of `parent` in the `while` loop: the directories above a path, up to the root of the
-- archive. A relative path of n characters has at most n of them.
unfoldable pub parents : ℕ → Text → Text → List Text
parents zero root path = []
parents (suc fuel) root path =
    let parent = dirname path in
    let rest = parents fuel root parent in
    if parent == [] || parent == root then [] else parent ∷ rest

unfoldable pub check_parents : List ArchiveMember → Text → List ArchiveMember → Result (Unit {0})
unfolding is_absent_or_directory
check_parents indexed root [] = ok tt
check_parents indexed root (member ∷ members) = do
  raise_if
      (any_of (λ parent. not (is_absent_or_directory (find_member parent indexed)))
        (parents (length member.path) root member.path))
      "archive member has a non-directory parent"
  check_parents indexed root members

unfoldable pub is_link : MemberKind → Bool
is_link symlink = true
is_link hardlink = true
is_link _ = false

unfoldable pub is_missing : Option ArchiveMember → Bool
is_missing none = true
is_missing (some member) = false

unfoldable pub is_file : Option ArchiveMember → Bool
is_file none = false
is_file (some member) = member.kind == regular || member.kind == hardlink

-- The body of the second loop, for a link.
unfoldable pub resolve_member : List ArchiveMember → Text → Bool → ArchiveMember → Result Text
resolve_member indexed root allowed member = do
  raise_if (not allowed) "bundle archive accepts regular files and directories only"
  target ← resolved_link member root
  raise_if (is_missing (find_member target indexed)) "undeclared archive link target"
  raise_if (member.kind == hardlink && not (is_file (find_member target indexed)))
      "archive hardlink target is not regular"
  ok target

unfoldable pub resolve_links : List ArchiveMember → Text → Bool → List ArchiveMember → Result Links
resolve_links indexed root allowed [] = ok []
resolve_links indexed root allowed (member ∷ members) =
    let rest = resolve_links indexed root allowed members in
    elim (is_link member.kind) [
      | false ↦ rest
      | true ↦ do
        target ← resolve_member indexed root allowed member
        links ← rest
        ok ((member.path, target) ∷ links)
    ]

-- `visit`: the set `visited` after the call. The first argument is the number of nested calls
-- that the interpreter still allows.
unfoldable pub visit : ℕ → Links → Text → List Text → List Text → Result (List Text)
visit zero links path visiting visited = err recursion_error
visit (suc depth) links path visiting visited =
    let target = find_link path links in
    elim (contains visited path) [
      | true ↦ ok visited
      | false ↦ elim (contains visiting path) [
        | true ↦ raise "archive link cycle"
        | false ↦ elim target [
          | none ↦ ok (path ∷ visited)
          | some next ↦ elim (find_link next links) [
            | none ↦ ok (path ∷ visited)
            | some _ ↦
                visit depth links next (path ∷ visiting) visited >>= λ after. ok (path ∷ after)
          ]
        ]
      ]
    ]

-- for path in resolved: visit(path)
unfoldable pub visit_all : ℕ → Links → List Text → List Text → Result (List Text)
visit_all depth links [] visited = ok visited
visit_all depth links (path ∷ paths) visited =
    visit depth links path [] visited >>= visit_all depth links paths

abbrev pub source_of : Text × Text → Text
source_of (source, target) = source

unfoldable pub validate_graph : ℕ → ArchiveGraph → Bool → Result Links
validate_graph depth graph allowed = do
  raise_if (not (is_absent_or_directory (find_member graph.root graph.members)))
      "archive root must be a directory"
  check_parents graph.members graph.root graph.members
  links ← resolve_links graph.members graph.root allowed graph.members
  _ ← visit_all depth links (map source_of links) []
  ok links

-- path[len(root) + 1 :].split("/"), and () for the root
unfoldable pub archive_relative : Text → Text → List Text
archive_relative path root =
    if path == root then [] else split slash (drop (suc (length root)) path)

-- The kind of `indexed[path]`, or KeyError.
unfoldable pub kind_at : Text → List ArchiveMember → Result MemberKind
kind_at path members = elim (find_member path members) [
  | none ↦ err (key_error "indexed")
  | some member ↦ ok member.kind
]

unfoldable pub link_at : Text → Links → Result Text
link_at path links = elim (find_link path links) [
  | none ↦ err (key_error "resolved")
  | some target ↦ ok target
]

-- The `while` loop of `_ultimate_hardlink_target`, on fuel: `none` is a loop that has not ended.
unfoldable pub follow_hardlinks : ℕ → List ArchiveMember → Links → Text → Option (Result Text)
follow_hardlinks zero members links target = none
follow_hardlinks (suc fuel) members links target = elim (kind_at target members) [
  | err e ↦ some (err e)
  | ok kind ↦ elim (kind == hardlink) [
    | false ↦ some (ok target)
    | true ↦ elim (link_at target links) [
      | err e ↦ some (err e)
      | ok next ↦ follow_hardlinks fuel members links next
    ]
  ]
]

unfoldable pub ultimate_hardlink_target :
    ℕ → List ArchiveMember → Links → Text → Option (Result Text)
unfolding follow_hardlinks kind_at link_at
ultimate_hardlink_target fuel members links path = elim (link_at path links) [
  | err e ↦ some (err e)
  | ok target ↦ follow_hardlinks fuel members links target
]
