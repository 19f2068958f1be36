-- ===== src/Archive/Graph/Acyclic.antt =====
-- `_validate_graph` (forza_bootstrap/artifacts.py) leaves no cycle among the links, and its search
-- needs no more nested calls than there are links.
use forza_motorsport_linux.Base.{
  ℕ, zero, suc, ◌≤◌, ◌<◌, ◌≡◌, ◌≢◌, refl, sym, ap, ◌∙◌, Text, true, false, none, some, List, [],
  ◌∷◌, ok, Error, recursion_error, arith, Ensures, Ensures-ok, Ensures-err, Ensures-bind, Raises,
  Raises-ok, Raises-err, Raises-bind, All, All-map, length, ◌==◌, ==_iff, nat_eq, list_eq, contains,
  Bool-cases, Option-cases, inl, inr, if◌then◌else◌,
}
use mathlib.Core.Option.{none-ne-some}
use forza_motorsport_linux.Archive.Graph.{Links, last_of, find_link, visit, visit_all}

-- Following the links from a path comes to an end.
pub data Ends (links : Links) : Text → Type 0 where
  stop : {path : Text} → find_link path links ≡ none → Ends links path
  hop :
      {path : Text} (next : Text)
      → find_link path links ≡ some next
      → Ends links next
      → Ends links path

module _ (links : Links) where
  abbrev Settled : List Text → Type 0
  Settled visited = All (Ends links) visited

  Ends-of_contains :
      (visited : List Text) (path : Text)
      → Settled visited
      → contains visited path ≡ true
      → Ends links path
  Ends-of_contains [] path h c = absurd (ne c)
    where
      ne : false ≢ true
      ne e = cc
  Ends-of_contains (v ∷ visited) path h c = elim (Bool-cases (path == v)) [
    | inl e ↦ rw ((==_iff path v).0 e) h.0
    | inr e ↦ Ends-of_contains visited path h.1 (ground arith)
  ]

  -- What a call of `visit` gives back: paths that end, the visited one and all earlier ones.
  abbrev Visited : Text → List Text → List Text → Type 0
  Visited path visited after =
      Settled after
      × (contains after path ≡ true)
      × ((p : Text) → contains visited p ≡ true → contains after p ≡ true)

  visit-Visited :
      (depth : ℕ) (path : Text) (visiting visited : List Text)
      → Settled visited
      → Ensures (Visited path visited) (visit depth links path visiting visited)
  unfolding visit
  visit-Visited zero path visiting visited h = Ensures-err _
  visit-Visited (suc depth) path visiting visited h = elim (Bool-cases (contains visited path)) [
    | inl old ↦ rw (old, visit) (Ensures-ok visited (h, old, λ p c. c))
    | inr fresh ↦
        rw (fresh, visit)
          (elim (Bool-cases (contains visiting path)) [
            | inl cycle ↦ rw cycle (Ensures-err _)
            | inr open_ ↦ rw open_ (elim (Option-cases (find_link path links)) [
              | inl none_ ↦ rw none_ (added visited (stop none_) h (λ p c. c))
              | inr (next, e) ↦ rw e (elim (Option-cases (find_link next links)) [
                | inl end_ ↦ rw end_ (added visited (hop next e (stop end_)) h (λ p c. c))
                | inr (further, f) ↦ rw f (
                    Ensures-bind (visit depth links next (path ∷ visiting) visited) _ λ after r.
                      let (settled, member, kept) =
                        (visit-Visited depth next (path ∷ visiting) visited h).at after r in
                      added after (hop next e (Ends-of_contains after next settled member)) settled
                        kept)
              ])
            ])
          ])
  ]
    where
      added :
          (after : List Text)
          → Ends links path
          → Settled after
          → ((p : Text) → contains visited p ≡ true → contains after p ≡ true)
          → Ensures (Visited path visited) (ok (path ∷ after))
      added after e settled kept =
          Ensures-ok (path ∷ after) ((e, settled), ground arith, λ p c. ground (arith, kept p c))

  visit_all-Ends :
      (depth : ℕ) (paths visited : List Text)
      → Settled visited
      → Ensures
          (λ after.
            Settled after
            × All (λ p. contains after p ≡ true) paths
            × ((p : Text) → contains visited p ≡ true → contains after p ≡ true))
          (visit_all depth links paths visited)
  unfolding visit_all
  visit_all-Ends depth [] visited h = Ensures-ok visited (h, tt, λ p c. c)
  visit_all-Ends depth (path ∷ paths) visited h =
      Ensures-bind (visit depth links path [] visited) _ λ middle r.
        let (settled, member, kept) = (visit-Visited depth path [] visited h).at middle r in
        record {
          at = λ after q.
              let (settled', members, kept') =
                (visit_all-Ends depth paths middle settled).at after q in
              (settled', (kept' path member, members), λ p c. kept' p (kept p c));
        }

  -- The links whose sources are not being visited.
  abbrev free : List Text → Links → ℕ
  free visiting [] = 0
  free visiting ((source, target) ∷ rest) =
      if contains visiting source then free visiting rest else suc (free visiting rest)

  free-cons-le :
      (path : Text) (visiting : List Text) (rest : Links)
      → free (path ∷ visiting) rest ≤ free visiting rest
  free-cons-le path visiting [] = omega arith
  free-cons-le path visiting ((s, t) ∷ rest) = ground (arith, free-cons-le path visiting rest)

  free-cons-lt :
      (path : Text) (visiting : List Text) (rest : Links)
      → find_link path rest ≢ none
      → contains visiting path ≡ false
      → free (path ∷ visiting) rest < free visiting rest
  unfolding find_link last_of
  free-cons-lt path visiting [] h c = absurd (h refl)
  free-cons-lt path visiting ((s, t) ∷ rest) h c = elim (Option-cases (find_link path rest)) [
    | inr (later, e) ↦
        let found : find_link path rest ≢ none = λ n. none-ne-some later (sym n ∙ e) in
        ground (arith, free-cons-lt path visiting rest found c, free-cons-le path visiting rest)
    | inl e ↦
        let same : (s == path) ≡ true = elim (Bool-cases (s == path)) [
          | inl y ↦ y
          | inr n ↦ absurd (h (ap (λ o. last_of o (s == path) t) e ∙ ap (λ b. last_of none b t) n))
        ] in
        ground (arith, same, free-cons-le path visiting rest)
  ]

  abbrev NoOverflow : Error → Type 0
  NoOverflow e = e ≢ recursion_error

  visit-NoOverflow :
      (depth : ℕ) (path : Text) (visiting visited : List Text)
      → free visiting links < depth
      → Raises NoOverflow (visit depth links path visiting visited)
  unfolding visit
  visit-NoOverflow zero path visiting visited h = elim h [ ]
  visit-NoOverflow (suc depth) path visiting visited h = elim (Bool-cases (contains visited path)) [
    | inl old ↦ rw (old, visit) (Raises-ok visited)
    | inr fresh ↦
        rw (fresh, visit)
          (elim (Bool-cases (contains visiting path)) [
            | inl cycle ↦ rw cycle (Raises-err _ (λ e. cc))
            | inr open_ ↦ rw open_ (elim (Option-cases (find_link path links)) [
              | inl none_ ↦ rw none_ (Raises-ok _)
              | inr (next, e) ↦ rw e (elim (Option-cases (find_link next links)) [
                | inl end_ ↦ rw end_ (Raises-ok _)
                | inr (further, f) ↦ rw f (
                    Raises-bind (visit depth links next (path ∷ visiting) visited) _
                      (visit-NoOverflow depth next (path ∷ visiting) visited
                        (omega (arith, free-cons-lt path visiting links (λ n. cc) open_)))
                      λ after _. Raises-ok (path ∷ after))
              ])
            ])
          ])
  ]

  free-nil : (rest : Links) → free [] rest ≡ length rest
  free-nil [] = refl
  free-nil ((s, t) ∷ rest) = ap suc (free-nil rest)

  -- With more nested calls allowed than there are links, the search never reaches the limit.
  pub visit_all-NoOverflow :
      (depth : ℕ) (paths visited : List Text)
      → length links < depth
      → Raises NoOverflow (visit_all depth links paths visited)
  unfolding visit_all
  visit_all-NoOverflow depth [] visited h = Raises-ok visited
  visit_all-NoOverflow depth (path ∷ paths) visited h =
      Raises-bind (visit depth links path [] visited) _
        (visit-NoOverflow depth path [] visited (omega (arith, free-nil links)))
        λ after _. visit_all-NoOverflow depth paths after h

  -- If the search over some paths succeeds, the links from each of them come to an end.
  pub visit_all-All-Ends :
      (depth : ℕ) (paths after : List Text)
      → visit_all depth links paths [] ≡ ok after
      → All (Ends links) paths
  visit_all-All-Ends depth paths after h =
      let (settled, members, _) = (visit_all-Ends depth paths [] tt).at after h in
      All-map (λ p. contains after p ≡ true) (Ends links) paths
        (λ p c. Ends-of_contains after p settled c) members
