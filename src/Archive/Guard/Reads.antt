-- ===== src/Archive/Guard/Reads.antt =====
-- Any sequence of reads through `_TarGuard` (forza_bootstrap/artifacts.py): its loops end, and the
-- guard stays bounded.
use forza_motorsport_linux.Base.{
  ℕ, option_eq, zero, suc, ◌+◌, ◌≤◌, ◌≡◌, refl, Option, some, List, [], ◌∷◌, inl, inr, ◌⊎◌, Error,
  Result, ok, err, raise, nat_eq, list_eq, ltb, length, drop, length-drop, arith, Ensures,
  Ensures-ok, Ensures-err, Bool-cases, Result-cases,
}
use forza_motorsport_linux.Archive.{ArchivePolicy}
use forza_motorsport_linux.Archive.Guard.{
  TarGuard, new_guard, maximum_bytes, amount_of, consume_round, consume_rounds, consume, read,
  reads,
}
use forza_motorsport_linux.Archive.Guard.Bounds.{
  IsBounded, consume_round-IsBounded, amount-positive,
}

module _ (policy : ArchivePolicy) where
  -- The outcome is there, so the loop ended, and a guard that comes out is bounded.
  abbrev pub IsGuarded : Option (Result TarGuard) → Type 0
  IsGuarded outcome = (r : Result TarGuard) × (outcome ≡ some r) × Ensures (IsBounded policy) r

  consume_rounds-IsGuarded :
      (fuel : ℕ) (bytes : List ℕ) (g : TarGuard)
      → IsBounded policy g
      → length bytes ≤ fuel
      → IsGuarded (consume_rounds fuel policy bytes g)
  unfolding consume_rounds
  consume_rounds-IsGuarded fuel [] g v h = (ok g, refl, Ensures-ok g v)
  consume_rounds-IsGuarded zero (b ∷ bytes) g v h = elim h [ ]
  consume_rounds-IsGuarded (suc fuel) (b ∷ bytes) g v h =
      let amount = amount_of (b ∷ bytes) g in
      elim (Result-cases (consume_round policy (b ∷ bytes) g)) [
        | inl (e, raised) ↦ rw (raised, consume_rounds) (err e, refl, Ensures-err e)
        | inr (next, done) ↦
            rw (done, consume_rounds)
              (consume_rounds-IsGuarded fuel (drop amount (b ∷ bytes)) next
                ((consume_round-IsBounded policy (b ∷ bytes) g v).at next done)
                (omega (arith, length-drop amount (b ∷ bytes), amount-positive b bytes g v.header)))
      ]

  consume-IsGuarded :
      (bytes : List ℕ) (g : TarGuard) → IsBounded policy g → IsGuarded (consume policy bytes g)
  unfolding consume
  consume-IsGuarded bytes g v =
      elim (Bool-cases (ltb (maximum_bytes policy) (g.consumed + length bytes))) [
        | inl over ↦ rw over (raise _, refl, Ensures-err _)
        | inr within ↦ rw within (
            consume_rounds-IsGuarded (length bytes) bytes
              (record g { consumed = g.consumed + length bytes })
              (record {
                consumed = ground arith;
                header = v.header;
                payload = v.payload;
                long_name = v.long_name;
                total = v.total;
                count = v.count;
                depth = v.depth;
              })
              (omega arith))
      ]

  IsGuarded-cases :
      {outcome : Option (Result TarGuard)}
      → IsGuarded outcome
      → ((e : Error) × (outcome ≡ some (err e)))
        ⊎ ((next : TarGuard) × (outcome ≡ some (ok next)) × IsBounded policy next)
  IsGuarded-cases (err e, eq, bounded) = inl (e, eq)
  IsGuarded-cases (ok next, eq, bounded) = inr (next, eq, bounded.at next refl)

  read-IsGuarded :
      (bytes : List ℕ) (g : TarGuard) → IsBounded policy g → IsGuarded (read policy bytes g)
  unfolding read
  read-IsGuarded bytes g v = elim (IsGuarded-cases (consume-IsGuarded bytes g v)) [
    | inl (e, raised) ↦ rw (raised, read) (err e, refl, Ensures-err e)
    | inr (next, done, w) ↦
        rw (done, read)
          (
            ok (record next { position = next.position + length bytes }),
            refl,
            Ensures-ok _ (record {
              consumed = w.consumed;
              header = w.header;
              payload = w.payload;
              long_name = w.long_name;
              total = w.total;
              count = w.count;
              depth = w.depth;
            }),
          )
  ]

  reads-IsGuarded_from :
      (chunks : List (List ℕ)) (g : TarGuard)
      → IsBounded policy g
      → IsGuarded (reads policy chunks g)
  unfolding reads
  reads-IsGuarded_from [] g v = (ok g, refl, Ensures-ok g v)
  reads-IsGuarded_from (bytes ∷ chunks) g v = elim (IsGuarded-cases (read-IsGuarded bytes g v)) [
    | inl (e, raised) ↦ rw (raised, reads) (err e, refl, Ensures-err e)
    | inr (next, done, w) ↦ rw (done, reads) (reads-IsGuarded_from chunks next w)
  ]

  new_guard-IsBounded : IsBounded policy new_guard
  new_guard-IsBounded = record {
    consumed = omega arith;
    header = omega arith;
    payload = omega arith;
    long_name = tt;
    total = omega arith;
    count = omega arith;
    depth = omega arith;
  }

  -- Whatever sequence of reads the source gives, the loop of each read ends; and as long as none
  -- raises, the bytes consumed stay within the policy's limit, the buffered header is shorter than a
  -- block, a payload or a long name is at most 64 KiB, and the number, total size and depth of
  -- extensions stay within their limits.
  pub reads-IsGuarded : (chunks : List (List ℕ)) → IsGuarded (reads policy chunks new_guard)
  reads-IsGuarded chunks = reads-IsGuarded_from chunks new_guard new_guard-IsBounded
