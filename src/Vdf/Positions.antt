-- ===== src/Vdf/Positions.antt =====
-- `_parse_vdf` does not look at where a token stands.
use forza_motorsport_linux.Base.{
  ℕ, Text, ◌||◌, Option, none, some, List, [], ◌∷◌, map, ◌≡◌, refl, ap, ◌==◌, nat_eq, list_eq, ltb,
  length, Result, ok, err, Bool-cases, Result-cases, length-map, inl, inr,
}
use forza_motorsport_linux.Vdf.Tokens.{Kind, Token, open_brace, close_brace, string}
use forza_motorsport_linux.Vdf.Entries.{
  Value, text, object, Entries, empty, entry, has_key, set_entry, Frame, Parser, return_to, call,
  read_key, read_value, take_token, close, parse_entries, start_parser,
}

unfoldable pub strip : Token → Token
strip t = record t { start = 0; end = 0 }

unfoldable mutual
  pub strip_value : Value → Value
  strip_value (text t) = text (strip t)
  strip_value (object es) = object (strip_entries es)

  pub strip_entries : Entries → Entries
  strip_entries empty = empty
  strip_entries (entry k v rest) = entry (strip k) (strip_value v) (strip_entries rest)

strip_frame : Frame → Frame
strip_frame f = record { result = strip_entries f.result; key = strip f.key }

strip_key : Option Token → Option Token
strip_key none = none
strip_key (some k) = some (strip k)

strip_parser : Parser → Parser
strip_parser p = record {
  frames = map strip_frame p.frames;
  result = strip_entries p.result;
  key = strip_key p.key;
}

abbrev pub on_result {ℓ κ} : {A : Type ℓ} {B : Type κ} → (A → B) → Result A → Result B
on_result f (ok a) = ok (f a)
on_result f (err e) = err e

pub has_key-strip : (key : Text) (es : Entries) → has_key key (strip_entries es) ≡ has_key key es
unfolding has_key strip_entries strip
has_key-strip key empty = refl
has_key-strip key (entry k v rest) = ap (λ b. key == k.value || b) (has_key-strip key rest)

set_entry-strip :
    (es : Entries) (k : Token) (v : Value)
    → set_entry (strip_entries es) (strip k) (strip_value v) ≡ strip_entries (set_entry es k v)
unfolding set_entry strip_entries
set_entry-strip empty k v = refl
set_entry-strip (entry l w rest) k v =
    ap (entry (strip l) (strip_value w)) (set_entry-strip rest k v)

length-strip : (frames : List Frame) → length (map strip_frame frames) ≡ length frames
length-strip frames = length-map strip_frame frames

return_to-strip :
    (frames : List Frame) (es : Entries)
    → return_to (map strip_frame frames) (strip_entries es)
      ≡ on_result strip_parser (return_to frames es)
unfolding return_to strip_parser strip_frame strip_key strip_value strip_entries
return_to-strip [] es = refl
return_to-strip (f ∷ frames) es = rw (set_entry-strip f.result f.key (object es)) refl

call-strip :
    (limit : ℕ) (p : Parser) (k : Token)
    → call limit (strip_parser p) (strip k) ≡ on_result strip_parser (call limit p k)
unfolding call strip_parser strip_frame strip_key strip_entries
call-strip limit p k =
    rw (length-map strip_frame p.frames)
      (elim (Bool-cases (ltb (length p.frames) limit)) [ inl y ↦ rw y refl | inr n ↦ rw n refl ])

read_key-strip :
    (kind : Kind) (p : Parser) (t : Token)
    → read_key kind (strip_parser p) (strip t) ≡ on_result strip_parser (read_key kind p t)
unfolding read_key strip_parser strip_key
read_key-strip close_brace p t = return_to-strip p.frames p.result
read_key-strip open_brace p t = refl
read_key-strip string p t = refl

read_value-strip :
    (limit : ℕ) (kind : Kind) (p : Parser) (k t : Token)
    → read_value limit kind (strip_parser p) (strip k) (strip t)
      ≡ on_result strip_parser (read_value limit kind p k t)
unfolding read_value strip_parser strip_key strip_value
read_value-strip limit open_brace p k t = call-strip limit p k
read_value-strip limit string p k t = rw (set_entry-strip p.result k (text t)) refl
read_value-strip limit close_brace p k t = refl

take_token-strip :
    (limit : ℕ) (key : Option Token) (p : Parser) (t : Token)
    → take_token limit (strip_key key) (strip_parser p) (strip t)
      ≡ on_result strip_parser (take_token limit key p t)
unfolding take_token strip_key strip strip_parser
take_token-strip limit none p t = read_key-strip t.kind p t
take_token-strip limit (some k) p t =
    rw (has_key-strip k.value p.result) (elim (Bool-cases (has_key k.value p.result)) [
      | inl y ↦ rw y refl
      | inr n ↦ rw n (read_value-strip limit t.kind p k t)
    ])

close-strip :
    (frames : List Frame) (key : Option Token) (es : Entries)
    → close (map strip_frame frames) (strip_key key) (strip_entries es)
      ≡ on_result strip_entries (close frames key es)
unfolding close strip_key
close-strip [] none es = refl
close-strip [] (some k) es = refl
close-strip (f ∷ frames) key es = refl

run-strip :
    (limit : ℕ) (tokens : List Token) (p : Parser)
    → parse_entries limit (strip_parser p) (map strip tokens)
      ≡ on_result strip_entries (parse_entries limit p tokens)
unfolding parse_entries strip_parser
run-strip limit [] p = close-strip p.frames p.key p.result
run-strip limit (t ∷ tokens) p =
    rw (take_token-strip limit p.key p t) (elim (Result-cases (take_token limit p.key p t)) [
      | inl (e, h) ↦ rw h refl
      | inr (q, h) ↦ rw h (run-strip limit tokens q)
    ])

-- Parsing tokens moved to other positions gives the entries moved to other positions.
pub parse_entries-strip :
    (limit : ℕ) (tokens : List Token)
    → parse_entries limit start_parser (map strip tokens)
      ≡ on_result strip_entries (parse_entries limit start_parser tokens)
unfolding strip_parser strip_entries strip_key
parse_entries-strip limit tokens = run-strip limit tokens start_parser
