-- ===== src/Archive/Graph/Hardlinks.antt =====
-- A graph that `_validate_graph` (forza_bootstrap/artifacts.py) accepts: its links end, and the loop
-- of `_ultimate_hardlink_target` ends at a regular member.
use forza_motorsport_linux.Base.{
  ℕ, zero, suc, ◌≤◌, ◌≡◌, refl, sym, ap, subst, ◌∙◌, ◌⊎◌, inl, inr, Text, Bool, if◌then◌else◌, true,
  false, false≢true, not, ◌&&◌, Option, none, some, List, [], ◌∷◌, map, Result, ok, arith, Ensures,
  Ensures-ok, Ensures-bind, refuse_if-ok, raise_if, All, ◌==◌, ==_iff, nat_eq, list_eq, Bool-cases,
  Option-cases, split,
}
use mathlib.Core.Option.{none-ne-some, some-injective}
use forza_motorsport_linux.Paths.{slash}
use forza_motorsport_linux.Paths.Normal.{first_or}
use forza_motorsport_linux.Archive.{
  ArchiveMember, ArchiveGraph, regular, hardlink, kind_eq, is_safe_root,
}
use forza_motorsport_linux.Archive.Graph.Contained.{
  IsContained, first-is_inside, IsSafeRoot-part, resolved_link-IsContained,
}
use forza_motorsport_linux.Archive.Graph.{
  Links, last_of, find_member, find_link, is_link, is_missing, is_file, resolved_link,
  resolve_member, resolve_links, check_parents, is_absent_or_directory, visit_all, source_of,
  validate_graph, kind_at, link_at, follow_hardlinks, ultimate_hardlink_target,
}
use forza_motorsport_linux.Archive.Graph.Acyclic.{Ends, stop, hop, visit_all-All-Ends}

-- What the table of links says of a link member: where it leads.
pub record IsResolved (members : List ArchiveMember) (root : Text) (m : ArchiveMember)
    (target : Text) : Type 0 where
  pub link : resolved_link m root ≡ ok target
  pub declared : is_missing (find_member target members) ≡ false
  pub file : m.kind ≡ hardlink → is_file (find_member target members) ≡ true

resolve_member-IsResolved :
    (members : List ArchiveMember) (root : Text) (allowed : Bool) (m : ArchiveMember)
    → Ensures (IsResolved members root m) (resolve_member members root allowed m)
unfolding resolve_member
resolve_member-IsResolved members root allowed m = Ensures-bind (raise_if (not allowed) _) _ λ _ _.
    Ensures-bind (resolved_link m root) _ λ target e.
      Ensures-bind (raise_if (is_missing (find_member target members)) _) _ λ _ declared.
        Ensures-bind (raise_if (m.kind == hardlink && not (is_file (find_member target members))) _)
          _
          λ _ file. Ensures-ok target (record {
            link = e;
            declared = refuse_if-ok _ _ _ declared;
            file = λ h. ground (arith, refuse_if-ok _ _ _ file);
          })

module _ (indexed : List ArchiveMember) (root : Text) (allowed : Bool) where
  abbrev Complete : List ArchiveMember → Links → Type 0
  Complete members links =
      (path : Text) (m : ArchiveMember)
      → find_member path members ≡ some m
      → is_link m.kind ≡ true
      → (target : Text) × (find_link path links ≡ some target) × IsResolved indexed root m target

  -- The table has only paths of members.
  abbrev Absent : List ArchiveMember → Links → Type 0
  Absent members links =
      (path : Text) → find_member path members ≡ none → find_link path links ≡ none

  absent_rest :
      (path : Text) (member : ArchiveMember) (members : List ArchiveMember)
      → find_member path (member ∷ members) ≡ none
      → (find_member path members ≡ none) × ((member.path == path) ≡ false)
  unfolding find_member last_of
  absent_rest path member members h = elim (Option-cases (find_member path members)) [
    | inl e ↦ (e, ground (arith, e, h))
    | inr (later, e) ↦
        absurd (none-ne-some later (sym h ∙ ap (λ o. last_of o (member.path == path) member) e))
  ]

  Absent-link :
      (member : ArchiveMember) (members : List ArchiveMember) (target : Text) (links : Links)
      → Absent members links
      → Absent (member ∷ members) ((member.path, target) ∷ links)
  unfolding find_link last_of
  Absent-link member members target links absent path h =
      let (e, n) = absent_rest path member members h in rw (absent path e, n) refl

  Complete-link :
      (member : ArchiveMember) (members : List ArchiveMember) (target : Text) (links : Links)
      → IsResolved indexed root member target
      → Absent members links
      → Complete members links
      → Complete (member ∷ members) ((member.path, target) ∷ links)
  unfolding find_member find_link last_of
  Complete-link member members target links resolved absent complete path m e h =
      elim (Option-cases (find_member path members)) [
        | inr (later, f) ↦
            let this : later ≡ m =
              some-injective later m
                (sym (ap (λ o. last_of o (member.path == path) member) f) ∙ e) in
            let (t, found, r) = complete path m (f ∙ ap some this) h in
            (t, ap (λ o. last_of o (member.path == path) target) found, r)
        | inl f ↦
            let last : (if member.path == path then some member else none) ≡ some m =
              sym (ap (λ o. last_of o (member.path == path) member) f) ∙ e in
            elim (Bool-cases (member.path == path)) [
              | inl same ↦
                  let this : member ≡ m =
                    some-injective member m
                      (sym (ap (λ (b : Bool). if b then some member else none) same) ∙ last) in
                  (
                    target,
                    ap (λ o. last_of o (member.path == path) target) (absent path f)
                        ∙ ap (λ (b : Bool). if b then some target else none) same,
                    subst (λ k. IsResolved indexed root k target) this resolved,
                  )
              | inr other ↦ absurd (
                  none-ne-some m
                    (sym (ap (λ (b : Bool). if b then some member else none) other) ∙ last))
            ]
      ]

  Complete-other :
      (member : ArchiveMember) (members : List ArchiveMember) (links : Links)
      → is_link member.kind ≡ false
      → Complete members links
      → Complete (member ∷ members) links
  unfolding find_member last_of
  Complete-other member members links plain complete path m e h =
      elim (Option-cases (find_member path members)) [
        | inr (later, f) ↦
            let this : later ≡ m =
              some-injective later m
                (sym (ap (λ o. last_of o (member.path == path) member) f) ∙ e) in
            complete path m (f ∙ ap some this) h
        | inl f ↦
            let last : (if member.path == path then some member else none) ≡ some m =
              sym (ap (λ o. last_of o (member.path == path) member) f) ∙ e in
            elim (Bool-cases (member.path == path)) [
              | inl same ↦
                  let this : member ≡ m =
                    some-injective member m
                      (sym (ap (λ (b : Bool). if b then some member else none) same) ∙ last) in
                  absurd
                    (false≢true (sym plain ∙ (ap (λ (k : ArchiveMember). is_link k.kind) this ∙ h)))
              | inr other ↦ absurd (
                  none-ne-some m
                    (sym (ap (λ (b : Bool). if b then some member else none) other) ∙ last))
            ]
      ]

  resolve_links-Complete :
      (members : List ArchiveMember)
      → Ensures
          (λ links. Absent members links × Complete members links)
          (resolve_links indexed root allowed members)
  unfolding resolve_links find_member find_link
  resolve_links-Complete [] = Ensures-ok [] ((λ path h. refl), (λ path m e h. cc))
  resolve_links-Complete (member ∷ members) = elim (Bool-cases (is_link member.kind)) [
    | inl linked ↦
        rw (linked, resolve_links)
          (Ensures-bind (resolve_member indexed root allowed member) _ λ target e.
            Ensures-bind (resolve_links indexed root allowed members) _ λ links f.
              let (absent, complete) = (resolve_links-Complete members).at links f in
              Ensures-ok ((member.path, target) ∷ links) (
                Absent-link member members target links absent,
                Complete-link member members target links
                    ((resolve_member-IsResolved indexed root allowed member).at target e) absent
                    complete,
              ))
    | inr plain ↦
        rw (plain, resolve_links)
          (record {
            at = λ links f.
                let (absent, complete) = (resolve_links-Complete members).at links f in
                (
                  (λ path h. absent path (absent_rest path member members h).0),
                  Complete-other member members links plain complete,
                );
          })
  ]

-- What validation establishes of a graph and of the table of its links.
pub record IsValidated (graph : ArchiveGraph) (links : Links) : Type 0 where
  pub complete :
      (path : Text) (m : ArchiveMember)
      → find_member path graph.members ≡ some m
      → is_link m.kind ≡ true
      → (target : Text) × (find_link path links ≡ some target)
        × IsResolved graph.members graph.root m target
  pub ends : All (Ends links) (map source_of links)

pub validate_graph-Resolved :
    (depth : ℕ) (graph : ArchiveGraph) (allowed : Bool) (links : Links)
    → validate_graph depth graph allowed ≡ ok links
    → IsValidated graph links
unfolding validate_graph
validate_graph-Resolved depth graph allowed links h = outcome.at links h
  where
    outcome : Ensures (IsValidated graph) (validate_graph depth graph allowed)
    outcome =
        Ensures-bind
          (raise_if (not (is_absent_or_directory (find_member graph.root graph.members))) _) _
          λ _ _. Ensures-bind (check_parents graph.members graph.root graph.members) _ λ _ _.
            Ensures-bind (resolve_links graph.members graph.root allowed graph.members) _ λ table e.
              Ensures-bind (visit_all depth table (map source_of table) []) _ λ visited v.
                Ensures-ok table (record {
                  complete =
                      ((resolve_links-Complete graph.members graph.root allowed graph.members).at
                        table e).1;
                  ends = visit_all-All-Ends table depth (map source_of table) visited v;
                })

-- Where a link of the table leads: its first component is the root, and every component names an
-- entry of its directory.
abbrev pub LeadsInside : ArchiveGraph → Links → Type 0
LeadsInside graph links =
    (path : Text) (m : ArchiveMember)
    → find_member path graph.members ≡ some m
    → is_link m.kind ≡ true
    → (target : Text) × (find_link path links ≡ some target)
      × (first_or [] (split slash target) ≡ graph.root)
      × IsContained target

-- A graph whose root is safe passes validation only if each link member has a declared target, each
-- hard link one that is a regular file or a hard link, following links always ends, and the target of
-- each link has the root as its first component and no empty, `.` or `..` component.
pub validate_graph-IsValidated :
    (depth : ℕ) (graph : ArchiveGraph) (allowed : Bool) (links : Links)
    → is_safe_root graph.root ≡ true
    → validate_graph depth graph allowed ≡ ok links
    → IsValidated graph links × LeadsInside graph links
validate_graph-IsValidated depth graph allowed links safe h =
    let valid = validate_graph-Resolved depth graph allowed links h in
    (
      valid,
      λ path m found linked.
          let (target, listed, resolved) = valid.complete path m found linked in
          let (inside, contained) =
            resolved_link-IsContained m graph.root target safe resolved.link in
          let flat = (IsSafeRoot-part graph.root safe).1 in
          (target, listed, first-is_inside graph.root target flat inside, contained),
    )

Ends-of_link :
    (table links : Links) (path target : Text)
    → All (Ends table) (map source_of links)
    → find_link path links ≡ some target
    → Ends table path
unfolding find_link last_of
Ends-of_link table [] path target h e = cc
Ends-of_link table ((source, t) ∷ links) path target h e =
    elim (Option-cases (find_link path links)) [
      | inr (later, f) ↦ Ends-of_link table links path later h.1 f
      | inl f ↦
          let last : (if source == path then some t else none) ≡ some target =
            sym (ap (λ o. last_of o (source == path) t) f) ∙ e in
          elim (Bool-cases (source == path)) [
            | inl same ↦ subst (Ends table) ((==_iff source path).0 same) h.0
            | inr other ↦ absurd (
                none-ne-some target
                  (sym (ap (λ (b : Bool). if b then some t else none) other) ∙ last))
          ]
    ]

-- The end of a walk along hard links: from some amount of fuel on, the loop returns a regular
-- member.
abbrev pub IsRegularEnd : (ℕ → Option (Result Text)) → List ArchiveMember → Type 0
IsRegularEnd walk members =
    (enough : ℕ) × (target : Text) × (m : ArchiveMember) × ((fuel : ℕ)
      → enough ≤ fuel
      → walk fuel ≡ some (ok target))
    × (find_member target members ≡ some m)
    × (m.kind ≡ regular)

module _ (graph : ArchiveGraph) (links : Links) (valid : IsValidated graph links) where
  follow_regular :
      (path : Text) (m : ArchiveMember)
      → find_member path graph.members ≡ some m
      → m.kind ≡ regular
      → (fuel : ℕ) → 1 ≤ fuel
      → follow_hardlinks fuel graph.members links path ≡ some (ok path)
  unfolding follow_hardlinks kind_at kind_eq
  follow_regular path m found kind zero h = elim h [ ]
  follow_regular path m found kind (suc fuel) h = ground arith

  follow_hardlink :
      (path next : Text) (m : ArchiveMember)
      → find_member path graph.members ≡ some m
      → m.kind ≡ hardlink
      → find_link path links ≡ some next
      → (fuel : ℕ)
      → follow_hardlinks (suc fuel) graph.members links path
        ≡ follow_hardlinks fuel graph.members links next
  unfolding follow_hardlinks kind_at link_at kind_eq
  follow_hardlink path next m found kind linked fuel = ground arith

  file_kind :
      (path : Text)
      → is_file (find_member path graph.members) ≡ true
      → (m : ArchiveMember) × (find_member path graph.members ≡ some m)
        × ((m.kind ≡ regular) ⊎ (m.kind ≡ hardlink))
  unfolding is_file
  file_kind path h = elim (Option-cases (find_member path graph.members)) [
    | inl e ↦ absurd (false≢true (ap is_file (sym e) ∙ h))
    | inr (m, e) ↦ (m, e, ground arith)
  ]

  follow-IsRegularEnd :
      {path : Text}
      → Ends links path
      → is_file (find_member path graph.members) ≡ true
      → IsRegularEnd (λ fuel. follow_hardlinks fuel graph.members links path) graph.members
  follow-IsRegularEnd {path} (stop e) file =
      let (m, found, kind) = file_kind path file in
      elim kind [
        | inl r ↦ (1, path, m, follow_regular path m found r, found, r)
        | inr l ↦
            let (t, f, _) = valid.complete path m found (ap is_link l ∙ unfold is_link in refl) in
            absurd (none-ne-some t (sym e ∙ f))
      ]
  follow-IsRegularEnd {path} (hop next e rest) file =
      let (m, found, kind) = file_kind path file in
      elim kind [
        | inl r ↦ (1, path, m, follow_regular path m found r, found, r)
        | inr l ↦
            let (t, f, resolved) =
              valid.complete path m found (ap is_link l ∙ unfold is_link in refl) in
            let same : t ≡ next = some-injective t next (sym f ∙ e) in
            let (enough, target, r, walk, at, regular_) =
              follow-IsRegularEnd rest (
                subst (λ u. is_file (find_member u graph.members) ≡ true) same (resolved.file l)) in
            (suc enough, target, r, longer path next m found l e enough target walk, at, regular_)
      ]
    where
      longer :
          (path next : Text) (m : ArchiveMember)
          → find_member path graph.members ≡ some m
          → m.kind ≡ hardlink
          → find_link path links ≡ some next
          → (enough : ℕ) (target : Text)
          → ((fuel : ℕ)
              → enough ≤ fuel
              → follow_hardlinks fuel graph.members links next ≡ some (ok target))
          → (fuel : ℕ) → suc enough ≤ fuel
          → follow_hardlinks fuel graph.members links path ≡ some (ok target)
      longer path next m found l e enough target walk zero h = elim h [ ]
      longer path next m found l e enough target walk (suc fuel) h =
          follow_hardlink path next m found l e fuel ∙ walk fuel (omega arith)

  Ends-next :
      {path : Text} (target : Text)
      → Ends links path
      → find_link path links ≡ some target
      → Ends links target
  Ends-next target (stop e) f = absurd (none-ne-some target (sym e ∙ f))
  Ends-next target (hop next e rest) f =
      subst (Ends links) (some-injective next target (sym e ∙ f)) rest

  ultimate-follow :
      (path target : Text)
      → find_link path links ≡ some target
      → (fuel : ℕ)
      → ultimate_hardlink_target fuel graph.members links path
        ≡ follow_hardlinks fuel graph.members links target
  unfolding ultimate_hardlink_target link_at
  ultimate-follow path target f fuel = rw (f, ultimate_hardlink_target, link_at)

  -- In a validated graph the loop of `_ultimate_hardlink_target` ends for every hard link, raises
  -- no KeyError, and returns a member that is a regular file.
  pub ultimate_hardlink_target-IsRegularEnd :
      (path : Text) (m : ArchiveMember)
      → find_member path graph.members ≡ some m
      → m.kind ≡ hardlink
      → IsRegularEnd (λ fuel. ultimate_hardlink_target fuel graph.members links path) graph.members
  ultimate_hardlink_target-IsRegularEnd path m found kind =
      let (t, f, resolved) =
        valid.complete path m found (ap is_link kind ∙ unfold is_link in refl) in
      let (enough, target, r, walk, at, regular_) =
        follow-IsRegularEnd (Ends-next t (Ends-of_link links links path t valid.ends f) f)
          (resolved.file kind) in
      (enough, target, r, λ fuel h. ultimate-follow path t f fuel ∙ walk fuel h, at, regular_)
