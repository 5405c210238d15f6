-- ===== src/Version/Apk/Tests.antt =====
-- Runs of internal/version/apk/apk.go on concrete versions.
use pkgwatch.Base.{◌∷◌, [], ◌≡◌, refl, lt, pos, negsuc, arith}
use pkgwatch.Base.Text.{codes, text_compare, Lacks, split, cut_last}
use pkgwatch.Version.{ok}
use pkgwatch.Version.Apk.{
  Version, parse, compare_numbers, parse_suffixes, parse_suffix, split_revision, split_letter,
  check_parts,
}
use pkgwatch.Version.Apk.Parsed.{parse_suffixes-Lacks}

abbrev busybox : Version
busybox = record {
  numbers = codes "1" ∷ codes "36" ∷ codes "01" ∷ [];
  letter = b'a';
  suffixes = record { rank = pos 3; num = pos 2 } ∷ [];
  revision = pos 7;
  raw = codes "1.36.01a_rc2-r7";
}

parse-busybox : parse (codes "1.36.01a_rc2-r7") ≡ ok busybox
unfolding parse parse_suffixes parse_suffix split_revision split_letter check_parts split
parse-busybox = refl

-- A sign is accepted in a revision.
parse_signed_revision :
    parse (codes "1-r+5")
    ≡ ok (record {
      numbers = codes "1" ∷ [];
      letter = 0;
      suffixes = [];
      revision = pos 5;
      raw = codes "1-r+5";
    })
unfolding parse parse_suffixes parse_suffix split_revision split_letter check_parts split
parse_signed_revision = refl

two_suffixes :
    parse_suffixes 20 (codes "1.0_rc1_p") []
    ≡ ok (
      record { rank = pos 3; num = pos 1 } ∷ record { rank = pos 9; num = negsuc 0 } ∷ [],
      codes "1.0",
    )
unfolding parse_suffixes parse_suffix cut_last
two_suffixes = refl

parse_suffixes-Lacks_example : Lacks b'_' (codes "1.0")
parse_suffixes-Lacks_example =
    parse_suffixes-Lacks 20 (codes "1.0_rc1_p") [] _ (codes "1.0") (omega arith) two_suffixes

trailing_zero :
    compare_numbers (codes "1" ∷ codes "0" ∷ []) (codes "1" ∷ codes "0" ∷ codes "0" ∷ []) ≡ lt
unfolding compare_numbers text_compare
trailing_zero = refl
