-- ===== src/Archive/Guard/Bounds.antt =====
-- What `_TarGuard` (forza_bootstrap/artifacts.py) holds in memory stays within fixed limits, and its
-- loop ends, whatever bytes the source gives.
use forza_motorsport_linux.Base.{
  ℕ, codes, copies, ◌-◌, ◌/◌, option_eq, suc, ◌+◌, ◌*◌, ◌≤◌, ◌<◌, ◌≡◌, false, not, ◌||◌, Option,
  none, some, List, [], ◌∷◌, ◌++◌, inl, inr, Result, raise_if, ◌>>=◌, ◌==◌, nat_eq, list_eq,
  contains, ltb, length, take, length-append, length-take, arith, Ensures, Ensures-ok, Ensures-bind,
  Ensures-if, refuse_if-ok, Option-cases,
}
use forza_motorsport_linux.Archive.{ArchivePolicy}
use forza_motorsport_linux.Archive.Header.{
  until_zero, slice, tar_number, valid_tar_checksum, validate_raw_tar_name,
}
use forza_motorsport_linux.Archive.Guard.{
  TarGuard, has_part, block_size, max_extension_size, max_extension_total, max_extension_depth,
  maximum_bytes, extension_types, cleared, finish_extension, finish_if_done, type_flag,
  begin_extension, begin_data, name_member, consume_member, consume_header, min, take_data,
  fill_header, amount_of, consume_round,
}

abbrev pub IsShortName : Option (List ℕ) → Type 0
IsShortName none = Unit
IsShortName (some name) = length name ≤ max_extension_size

pub record IsBounded (policy : ArchivePolicy) (g : TarGuard) : Type 0 where
  pub consumed : g.consumed ≤ maximum_bytes policy
  pub header : length g.header < block_size
  pub payload : length g.payload + g.payload_remaining ≤ max_extension_size
  pub long_name : IsShortName g.long_name
  pub total : g.extension_total ≤ max_extension_total
  pub count : g.extension_count ≤ policy.max_members
  pub depth : g.extension_depth ≤ max_extension_depth

length-until_zero : (bytes : List ℕ) → length (until_zero bytes) ≤ length bytes
unfolding until_zero
length-until_zero [] = omega arith
length-until_zero (b ∷ bytes) = ground (arith, length-until_zero bytes)

min-le_left : (a b : ℕ) → min a b ≤ a
min-le_left a b = ground arith

min-le_right : (a b : ℕ) → min a b ≤ b
min-le_right a b = ground arith

amount-fits :
    (bytes : List ℕ) (g : TarGuard)
    → ltb 0 g.data_remaining ≡ false
    → length g.header < block_size
    → length g.header + amount_of bytes g ≤ block_size
unfolding amount_of
amount-fits bytes g idle h =
    rw idle (omega (arith, min-le_left (block_size - length g.header) (length bytes)))

pub amount-positive :
    (b : ℕ) (bytes : List ℕ) (g : TarGuard)
    → length g.header < block_size
    → 0 < amount_of (b ∷ bytes) g
unfolding amount_of
amount-positive b bytes g h = ground arith

Ensures-chain {ℓ κ ν} :
    {A : Type ℓ} {B : Type κ} {P : A → Type ν} {Q : B → Type ν} (m : Result A) (rest : A → Result B)
    → Ensures P m
    → ((a : A) → P a → Ensures Q (rest a))
    → Ensures Q (m >>= rest)
Ensures-chain m rest h k = Ensures-bind m rest λ a e. k a (h.at a e)

module _ (policy : ArchivePolicy) where
  cleared-IsBounded : (g : TarGuard) → IsBounded policy g → IsBounded policy (cleared g)
  cleared-IsBounded g v = record {
    consumed = v.consumed;
    header = v.header;
    payload = omega arith;
    long_name = v.long_name;
    total = v.total;
    count = v.count;
    depth = v.depth;
  }

  finish_extension-IsBounded :
      (g : TarGuard) → IsBounded policy g → Ensures (IsBounded policy) (finish_extension g)
  unfolding finish_extension
  finish_extension-IsBounded g v = elim (Option-cases g.extension_kind) [
    | inl e ↦ rw e (Ensures-ok (cleared g) (cleared-IsBounded g v))
    | inr (kind, e) ↦ rw e (
        Ensures-if (contains (b'x' ∷ b'g' ∷ b'X' ∷ []) kind) _ _
          (λ _.
            Ensures-bind
              (raise_if
                (has_part (codes "GNU.sparse.") g.payload
                  || has_part (codes "SCHILY.realsize") g.payload)
                _)
              _ λ _ _. Ensures-ok (cleared g) (cleared-IsBounded g v))
          (λ _.
            Ensures-if (kind == b'L') _ _
              (λ _.
                Ensures-ok (record (cleared g) { long_name = some (until_zero g.payload) })
                  (record {
                    consumed = v.consumed;
                    header = v.header;
                    payload = omega arith;
                    long_name = omega (arith, length-until_zero g.payload, v.payload);
                    total = v.total;
                    count = v.count;
                    depth = v.depth;
                  }))
              (λ _. Ensures-ok (cleared g) (cleared-IsBounded g v))))
  ]

  finish_if_done-IsBounded :
      (g : TarGuard) → IsBounded policy g → Ensures (IsBounded policy) (finish_if_done g)
  unfolding finish_if_done
  finish_if_done-IsBounded g v =
      Ensures-if (g.data_remaining == 0) _ _ (λ _. finish_extension-IsBounded g v)
        (λ _. Ensures-ok g v)

  take_data-IsBounded :
      (amount : ℕ) (bytes : List ℕ) (g : TarGuard)
      → IsBounded policy g
      → IsBounded policy (take_data amount bytes g)
  unfolding take_data
  take_data-IsBounded amount bytes g v = elim (Option-cases g.extension_kind) [
    | inl e ↦ rw e (record {
      consumed = v.consumed;
      header = v.header;
      payload = v.payload;
      long_name = v.long_name;
      total = v.total;
      count = v.count;
      depth = v.depth;
    })
    | inr (kind, e) ↦ rw e (record {
      consumed = v.consumed;
      header = v.header;
      payload = omega (
        arith,
        min-le_left g.payload_remaining amount,
        length-append g.payload (take (min g.payload_remaining amount) bytes),
        length-take (min g.payload_remaining amount) bytes,
        v.payload,
      );
      long_name = v.long_name;
      total = v.total;
      count = v.count;
      depth = v.depth;
    })
  ]

  begin_extension-IsBounded :
      (typeflag size padded : ℕ) (g : TarGuard)
      → IsBounded policy g
      → Ensures (IsBounded policy) (begin_extension policy typeflag size padded g)
  unfolding begin_extension
  begin_extension-IsBounded typeflag size padded g v =
      let big =
        ltb max_extension_size size
        || ltb max_extension_total (g.extension_total + size)
        || ltb policy.max_members (suc g.extension_count) in
      let deep = ltb max_extension_depth (suc g.extension_depth) in
      Ensures-bind (raise_if big _) _ λ _ small. Ensures-bind (raise_if deep _) _ λ _ shallow.
        let s : big ≡ false = refuse_if-ok big _ _ small in
        let d : deep ≡ false = refuse_if-ok deep _ _ shallow in
        Ensures-ok _ (record {
          consumed = v.consumed;
          header = v.header;
          payload = ground arith;
          long_name = v.long_name;
          total = ground arith;
          count = ground arith;
          depth = ground arith;
        })

  begin_data-IsBounded :
      (typeflag size : ℕ) (g : TarGuard)
      → IsBounded policy g
      → Ensures (IsBounded policy) (begin_data policy typeflag size g)
  unfolding begin_data
  begin_data-IsBounded typeflag size g v =
      let padded = (size + block_size - 1) / block_size * block_size in
      Ensures-chain _ finish_if_done
        (Ensures-if (contains extension_types typeflag) _ _
          (λ _. begin_extension-IsBounded typeflag size padded g v)
          (λ _. Ensures-ok _ (record {
            consumed = v.consumed;
            header = v.header;
            payload = v.payload;
            long_name = v.long_name;
            total = v.total;
            count = v.count;
            depth = omega arith;
          })))
        finish_if_done-IsBounded

  name_member-IsBounded :
      (header : List ℕ) (typeflag : ℕ) (g : TarGuard)
      → IsBounded policy g
      → Ensures (IsBounded policy) (name_member header typeflag g)
  unfolding name_member
  name_member-IsBounded header typeflag g v =
      Ensures-if (contains extension_types typeflag) _ _ (λ _. Ensures-ok g v)
        (λ _. Ensures-bind (validate_raw_tar_name header typeflag g.long_name) _ λ _ _.
          Ensures-ok _ (record {
            consumed = v.consumed;
            header = v.header;
            payload = v.payload;
            long_name = tt;
            total = v.total;
            count = v.count;
            depth = v.depth;
          }))

  consume_header-IsBounded :
      (header : List ℕ) (g : TarGuard)
      → IsBounded policy g
      → Ensures (IsBounded policy) (consume_header policy header g)
  unfolding consume_header consume_member
  consume_header-IsBounded header g v =
      Ensures-if (header == copies block_size 0) _ _
        (λ _. Ensures-ok _ (record {
          consumed = v.consumed;
          header = v.header;
          payload = v.payload;
          long_name = v.long_name;
          total = v.total;
          count = v.count;
          depth = v.depth;
        }))
        (λ _. Ensures-bind (raise_if (not (g.zero_blocks == 0) || g.terminated) _) _ λ _ _.
          Ensures-bind (valid_tar_checksum header) _ λ valid _.
            Ensures-bind (raise_if (not valid) _) _ λ _ _.
              Ensures-bind (raise_if (type_flag header == b'S') _) _ λ _ _.
                Ensures-chain (name_member header (type_flag header) g) _
                  (name_member-IsBounded header (type_flag header) g v)
                  λ named bounded.
                    Ensures-bind (tar_number (slice 124 136 header)) _
                      λ size _. begin_data-IsBounded (type_flag header) size named bounded)

  fill_header-IsBounded :
      (amount : ℕ) (bytes : List ℕ) (g : TarGuard)
      → IsBounded policy g
      → length g.header + amount ≤ block_size
      → Ensures (IsBounded policy) (fill_header policy amount bytes g)
  unfolding fill_header
  fill_header-IsBounded amount bytes g v fits =
      let header = g.header ++ take amount bytes in
      Ensures-if (length header == block_size) _ _
        (λ _.
          consume_header-IsBounded header (record g { header = [] })
            (record {
              consumed = v.consumed;
              header = omega arith;
              payload = v.payload;
              long_name = v.long_name;
              total = v.total;
              count = v.count;
              depth = v.depth;
            }))
        (λ partial. Ensures-ok _ (record {
          consumed = v.consumed;
          payload = v.payload;
          long_name = v.long_name;
          total = v.total;
          count = v.count;
          depth = v.depth;
          header =
              grind (arith, length-append g.header (take amount bytes), length-take amount bytes);
        }))

  pub consume_round-IsBounded :
      (bytes : List ℕ) (g : TarGuard)
      → IsBounded policy g
      → Ensures (IsBounded policy) (consume_round policy bytes g)
  unfolding consume_round
  consume_round-IsBounded bytes g v =
      Ensures-if (ltb 0 g.data_remaining) _ _
        (λ _.
          finish_if_done-IsBounded (take_data (amount_of bytes g) bytes g)
            (take_data-IsBounded (amount_of bytes g) bytes g v))
        (λ idle.
          fill_header-IsBounded (amount_of bytes g) bytes g v (amount-fits bytes g idle v.header))
