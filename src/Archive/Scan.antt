-- ===== src/Archive/Scan.antt =====
-- forza_bootstrap/artifacts.py: `_scan_archive` as `inspect_tar` calls it, with no directory to
-- extract into and no earlier scan. An entry is what `tarfile` gives for a member, with the blocks
-- that are read of its content; `sha256` is that of `hashlib`.
pub mod Safe
pub mod Tests
use forza_motorsport_linux.Base.{
  ℕ, ◌+◌, Text, Bool, true, false, ◌&&◌, ◌||◌, not, Option, none, some, List, [], ◌∷◌, ◌++◌, Result,
  ok, raise, raise_if, ◌>>=◌, ◌>>◌, ◌==◌, nat_eq, leb, ltb, length, sorted_by, if◌then◌else◌,
}
use forza_motorsport_linux.Archive.{
  TarInfo, MemberKind, regular, symlink, hardlink, directory, kind_eq, ArchiveMember, ArchiveGraph,
  ArchivePolicy, validated_policy, normalized_member_name, member_kind, is_inside,
}
use forza_motorsport_linux.Archive.Graph.{Links, is_link, validate_graph}

pub record Entry : Type 0 where
  pub info : TarInfo
  pub content : Option (List (List ℕ))

-- _ArchiveScan
pub record ArchiveScan : Type 0 where
  pub graph : ArchiveGraph
  pub regular_sha256 : List (Text × Text)
  pub resolved_links : Links

-- The local variables of the loop.
pub record Progress : Type 0 where
  pub members : List ArchiveMember
  pub regular_sha256 : List (Text × Text)
  pub seen : List Text
  pub total : ℕ

abbrev pub nothing_scanned : Progress
nothing_scanned = record { members = []; regular_sha256 = []; seen = []; total = 0 }

-- while block := extracted.read(_READ_SIZE)
unfoldable pub read_blocks : ℕ → ℕ → List ℕ → List (List ℕ) → Result (List ℕ)
read_blocks size limit read [] = ok read
read_blocks size limit read ([] ∷ blocks) = ok read
read_blocks size limit read ((b ∷ block) ∷ blocks) = do
  let longer = read ++ (b ∷ block)
  raise_if (ltb size (length longer) || ltb limit (length longer))
      "archive exceeds expanded size limit"
  read_blocks size limit longer blocks

unfoldable pub content_digest : (List ℕ → Text) → ℕ → ℕ → Option (List (List ℕ)) → Result Text
unfolding read_blocks
content_digest sha256 size limit none = raise "archive stream is invalid"
content_digest sha256 size limit (some blocks) = do
  read ← read_blocks size limit [] blocks
  raise_if (not (length read == size)) "archive stream is invalid"
  ok (sha256 read)

unfoldable pub add_digest :
    (List ℕ → Text) → ArchivePolicy → Text → ℕ → Entry → Progress → Result (List (Text × Text))
unfolding content_digest
add_digest sha256 policy name size entry p =
    content_digest sha256 size policy.max_total_size entry.content >>= λ digest.
    ok (p.regular_sha256 ++ ((name, digest) ∷ []))

-- The body of the loop.
unfoldable pub scan_entry : (List ℕ → Text) → ArchivePolicy → Entry → Progress → Result Progress
unfolding add_digest
scan_entry sha256 policy entry p = do
  raise_if (leb policy.max_members (length p.members)) "archive has too many members"
  named ← normalized_member_name entry.info.name p.seen
  raise_if (not (is_inside policy.expected_root named.0))
      "archive member is outside the expected root"
  kind ← member_kind entry.info.type policy.allow_contained_links
  raise_if (not (leb entry.info.mode 0o777)) "archive member mode is unsafe"
  raise_if (not (kind == regular) && not (entry.info.size == 0))
      "non-regular archive member declares data"
  let size = if kind == regular then entry.info.size else 0
  let total = p.total + size
  raise_if (kind == regular && ltb policy.max_total_size total)
      "archive exceeds expanded size limit"
  digests ←
      if kind == regular then add_digest sha256 policy named.0 size entry p else ok p.regular_sha256
  ok (record {
    members =
        p.members
        ++ (record {
          path = named.0;
          kind = kind;
          size = size;
          mode = entry.info.mode;
          link_target = if is_link kind then some entry.info.linkname else none;
        }
            ∷ []);
    regular_sha256 = digests;
    seen = named.1;
    total = total;
  })

unfoldable pub scan_entries :
    (List ℕ → Text) → ArchivePolicy → List Entry → Progress → Result Progress
scan_entries sha256 policy [] p = ok p
scan_entries sha256 policy (entry ∷ entries) p =
    scan_entry sha256 policy entry p >>= scan_entries sha256 policy entries

abbrev pub graph_of : ArchivePolicy → Progress → ArchiveGraph
graph_of policy p = record {
  root = policy.expected_root;
  members = sorted_by (λ member. member.path) p.members;
  total_regular_size = p.total;
}

-- The first argument is the number of nested calls that the interpreter still allows.
unfoldable pub scan_archive : ℕ → (List ℕ → Text) → ArchivePolicy → List Entry → Result ArchiveScan
scan_archive depth sha256 policy entries = do
  checked ← validated_policy policy
  p ← scan_entries sha256 checked entries nothing_scanned
  raise_if (length p.members == 0) "archive has no members"
  links ← validate_graph depth (graph_of checked p) checked.allow_contained_links
  ok (record {
    graph = graph_of checked p;
    regular_sha256 = p.regular_sha256;
    resolved_links = links;
  })
