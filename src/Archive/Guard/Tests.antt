-- ===== src/Archive/Guard/Tests.antt =====
-- Runs of the guard of tar streams.
use forza_motorsport_linux.Base.{
  arith, ◌≡◌, ◌++◌, refl, equality, [], ◌∷◌, copies, true, ok, err, message, codes,
}
use forza_motorsport_linux.Archive.{ArchivePolicy}
use forza_motorsport_linux.Archive.Header.{
  tar_number, octal_number, strip, strip_left, from_digits, digits_of,
}
use forza_motorsport_linux.Archive.Guard.{reads, new_guard}
use forza_motorsport_linux.Archive.Header.Numbers.{octal_field, tar_number-octal_field}
use forza_motorsport_linux.Archive.Guard.Reads.{IsGuarded, reads-IsGuarded}

abbrev policy : ArchivePolicy
policy = record {
  expected_root = codes "r";
  max_members = 4;
  max_total_size = 1000;
  allow_contained_links = true;
}

-- "0000644\0", a number in base 256, and a field that is no number
octal_read : tar_number (codes "0000644" ++ (0 ∷ [])) ≡ ok 420
unfolding equality tar_number octal_number strip strip_left from_digits digits_of
octal_read = refl

binary_read : tar_number (0x80 ∷ 1 ∷ 2 ∷ []) ≡ ok 258
unfolding equality tar_number octal_number strip strip_left from_digits digits_of
binary_read = refl

text_refused : tar_number (codes "00x0") ≡ err (message "archive stream is invalid")
unfolding equality tar_number octal_number strip strip_left from_digits digits_of
text_refused = refl

reads-IsGuarded_example :
    IsGuarded policy (reads policy (copies 600 0 ∷ copies 424 0 ∷ []) new_guard)
reads-IsGuarded_example = reads-IsGuarded policy (copies 600 0 ∷ copies 424 0 ∷ [])

tar_number-octal_field_example : tar_number (octal_field 7 420) ≡ ok 420
tar_number-octal_field_example = tar_number-octal_field 6 420 (omega arith)
