-- ===== src/Archive/Scan/Safe.antt =====
-- What a scan that is accepted guarantees: `_scan_archive` of forza_bootstrap/artifacts.py.
use forza_motorsport_linux.Base.{
  ℕ, ◌+◌, ◌≤◌, ◌<◌, ◌≡◌, refl, sym, ◌∙◌, Text, Bool, true, false, not, ◌&&◌, List, [], ◌∷◌, ◌++◌,
  ok, raise_if, arith, ◌==◌, nat_eq, leb, ltb, length, length-append, All, All-append, sorted_by,
  insert_by, length-sorted_by, All-sorted_by, Ensures, Ensures-ok, Ensures-bind, refuse_if-ok,
  if◌then◌else◌,
}
use forza_motorsport_linux.Archive.{
  regular, kind_eq, ArchiveMember, ArchiveGraph, ArchivePolicy, validated_policy, safe_root,
  normalized_member_name, member_kind, is_inside,
}
use forza_motorsport_linux.Archive.Graph.{validate_graph}
use forza_motorsport_linux.Archive.Graph.Contained.{IsContained, normalized_member_name-IsContained}
use forza_motorsport_linux.Archive.Graph.Hardlinks.{IsValidated, validate_graph-Resolved}
use forza_motorsport_linux.Archive.Scan.{
  Entry, ArchiveScan, Progress, nothing_scanned, add_digest, scan_entry, scan_entries, graph_of,
  scan_archive,
}

abbrev pub IsSafeMember : Text → ArchiveMember → Type 0
IsSafeMember root member =
    (is_inside root member.path ≡ true) × IsContained member.path × (member.mode ≤ 0o777)

unfoldable pub total_size : List ArchiveMember → ℕ
total_size [] = 0
total_size (member ∷ members) = member.size + total_size members

pub record IsSafeGraph (policy : ArchivePolicy) (graph : ArchiveGraph) : Type 0 where
  pub root : graph.root ≡ policy.expected_root
  pub members : All (IsSafeMember policy.expected_root) graph.members
  pub count : length graph.members ≤ policy.max_members
  pub size : graph.total_regular_size ≤ policy.max_total_size
  pub sum : graph.total_regular_size ≡ total_size graph.members

total_size-append : (a b : List ArchiveMember) → total_size (a ++ b) ≡ total_size a + total_size b
unfolding total_size
total_size-append [] b = omega arith
total_size-append (m ∷ a) b = omega (arith, total_size-append a b)

total_size-insert_by :
    (m : ArchiveMember) (members : List ArchiveMember)
    → total_size (insert_by (λ member. member.path) m members) ≡ m.size + total_size members
unfolding total_size insert_by
total_size-insert_by m [] = omega arith
total_size-insert_by m (n ∷ members) = ground (arith, total_size-insert_by m members)

total_size-sorted_by :
    (members : List ArchiveMember)
    → total_size (sorted_by (λ member. member.path) members) ≡ total_size members
unfolding total_size sorted_by
total_size-sorted_by [] = refl
total_size-sorted_by (m ∷ members) = omega (
  arith,
  total_size-insert_by m (sorted_by (λ member. member.path) members),
  total_size-sorted_by members,
)

record IsSafe (policy : ArchivePolicy) (p : Progress) : Type 0 where
  pub members : All (IsSafeMember policy.expected_root) p.members
  pub count : length p.members ≤ policy.max_members
  pub size : p.total ≤ policy.max_total_size
  pub sum : p.total ≡ total_size p.members

added-IsSafe :
    (policy : ArchivePolicy) (p : Progress) (m : ArchiveMember) (digests : List (Text × Text))
    (seen : List Text)
    → IsSafe policy p
    → length p.members < policy.max_members
    → IsSafeMember policy.expected_root m
    → p.total + m.size ≤ policy.max_total_size
    → IsSafe policy (record {
      members = p.members ++ (m ∷ []);
      regular_sha256 = digests;
      seen = seen;
      total = p.total + m.size;
    })
unfolding total_size
added-IsSafe policy p m digests seen v room safe small = record {
  members = All-append (IsSafeMember policy.expected_root) p.members (m ∷ []) v.members (safe, tt);
  count = omega (arith, length-append p.members (m ∷ []), room);
  size = small;
  sum = omega (arith, total_size-append p.members (m ∷ []), v.sum);
}

small-size :
    (is_regular : Bool) (total size limit : ℕ)
    → total ≤ limit
    → (is_regular && ltb limit (total + (if is_regular then size else 0))) ≡ false
    → total + (if is_regular then size else 0) ≤ limit
small-size true total size limit h s = ground arith
small-size false total size limit h s = omega arith

module _ (sha256 : List ℕ → Text) (policy : ArchivePolicy) where
  scan_entry-IsSafe :
      (entry : Entry) (p : Progress)
      → IsSafe policy p
      → Ensures (IsSafe policy) (scan_entry sha256 policy entry p)
  unfolding scan_entry
  scan_entry-IsSafe entry p v =
      let info = entry.info in
      let full = leb policy.max_members (length p.members) in
      Ensures-bind (raise_if full _) _ λ _ room.
        Ensures-bind (normalized_member_name info.name p.seen) _ λ named en.
          let outside = not (is_inside policy.expected_root named.0) in
          Ensures-bind (raise_if outside _) _ λ _ inside.
            Ensures-bind (member_kind info.type policy.allow_contained_links) _ λ kind _.
              let unsafe = not (leb info.mode 0o777) in
              Ensures-bind (raise_if unsafe _) _ λ _ mode.
                Ensures-bind (raise_if (not (kind == regular) && not (info.size == 0)) _) _ λ _ _.
                  let size = if kind == regular then info.size else 0 in
                  let over = kind == regular && ltb policy.max_total_size (p.total + size) in
                  Ensures-bind (raise_if over _) _ λ _ small.
                    Ensures-bind
                      (if kind == regular
                        then add_digest sha256 policy named.0 size entry p
                        else ok p.regular_sha256)
                      _
                      λ digests _.
                        let (_, _, _, contained) =
                          normalized_member_name-IsContained info.name p.seen named.0 named.1 en in
                        let r : full ≡ false = refuse_if-ok full _ _ room in
                        let i : outside ≡ false = refuse_if-ok outside _ _ inside in
                        let m : unsafe ≡ false = refuse_if-ok unsafe _ _ mode in
                        let s : over ≡ false = refuse_if-ok over _ _ small in
                        Ensures-ok _ (
                          added-IsSafe policy p _ digests named.1 v (ground arith)
                            (ground arith, contained, ground arith)
                            (small-size (kind == regular) (p.total) info.size policy.max_total_size
                              v.size s))

  scan_entries-IsSafe :
      (entries : List Entry) (p : Progress)
      → IsSafe policy p
      → Ensures (IsSafe policy) (scan_entries sha256 policy entries p)
  unfolding scan_entries
  scan_entries-IsSafe [] p v = Ensures-ok p v
  scan_entries-IsSafe (entry ∷ entries) p v =
      Ensures-bind (scan_entry sha256 policy entry p) _
        λ next e. scan_entries-IsSafe entries next ((scan_entry-IsSafe entry p v).at next e)

nothing_scanned-IsSafe : (policy : ArchivePolicy) → IsSafe policy nothing_scanned
unfolding total_size
nothing_scanned-IsSafe policy = record {
  members = tt;
  count = omega arith;
  size = omega arith;
  sum = refl;
}

graph_of-IsSafeGraph :
    (policy : ArchivePolicy) (p : Progress)
    → IsSafe policy p
    → IsSafeGraph policy (graph_of policy p)
graph_of-IsSafeGraph policy p v = record {
  root = refl;
  members =
      All-sorted_by (λ (m : ArchiveMember). m.path) (IsSafeMember policy.expected_root) p.members
        v.members;
  count = omega (arith, length-sorted_by (λ (m : ArchiveMember). m.path) p.members, v.count);
  size = v.size;
  sum = v.sum ∙ sym (total_size-sorted_by p.members);
}

validated_policy-eq :
    (policy : ArchivePolicy) → Ensures (λ checked. checked ≡ policy) (validated_policy policy)
unfolding validated_policy
validated_policy-eq policy =
    Ensures-bind (safe_root policy.expected_root) _
      λ _ _. Ensures-bind (raise_if (policy.max_members == 0) _) _ λ _ _. Ensures-ok policy refl

-- An archive that is accepted has members below the expected root only, with safe components and
-- permission bits only; their number and the sum of their sizes, which is recorded, are within the
-- policy's limits; and its links are validated: each has a declared target inside the root, a hard
-- link one that is a regular file or a hard link, and following links ends.
pub scan_archive-IsSafeGraph :
    (depth : ℕ) (sha256 : List ℕ → Text) (policy : ArchivePolicy) (entries : List Entry)
    (scan : ArchiveScan)
    → scan_archive depth sha256 policy entries ≡ ok scan
    → IsSafeGraph policy scan.graph × IsValidated scan.graph scan.resolved_links
unfolding scan_archive
scan_archive-IsSafeGraph depth sha256 policy entries scan h = outcome.at scan h
  where
    outcome :
        Ensures
          (λ s. IsSafeGraph policy s.graph × IsValidated s.graph s.resolved_links)
          (scan_archive depth sha256 policy entries)
    outcome = Ensures-bind (validated_policy policy) _ λ checked ec.
        rw ((validated_policy-eq policy).at checked ec) (
          Ensures-bind (scan_entries sha256 policy entries nothing_scanned) _ λ p ep.
            Ensures-bind (raise_if (length p.members == 0) _) _ λ _ _.
              Ensures-bind (validate_graph depth (graph_of policy p) policy.allow_contained_links) _
                λ links el. Ensures-ok _ (
                  graph_of-IsSafeGraph policy p (
                      (scan_entries-IsSafe sha256 policy entries nothing_scanned
                          (nothing_scanned-IsSafe policy)).at
                        p ep),
                  validate_graph-Resolved depth (graph_of policy p) policy.allow_contained_links
                      links el,
                ))
