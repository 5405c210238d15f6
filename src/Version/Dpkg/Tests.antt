-- ===== src/Version/Dpkg/Tests.antt =====
-- Runs of internal/version/dpkg/dpkg.go on concrete versions.
use pkgwatch.Base.{◌∷◌, [], ◌++◌, ◌≡◌, refl, lt, eq, lex, compare, pos, true, inl, arith}
use pkgwatch.Base.Text.{codes, text_compare}
use pkgwatch.Version.{ok}
use pkgwatch.Version.Dpkg.{Version, parse, compare_fragment, less, to_string}
use pkgwatch.Version.Dpkg.Fragment.{run_compare, drop_run, rest, fragment-deb_version}
use pkgwatch.Version.Dpkg.Fragment.Numbers.{number}
use pkgwatch.Version.Dpkg.Order.{less-tilde}
use pkgwatch.Version.Dpkg.RoundTrip.{IsCanonical, parse-to_string, to_string-parse}

parse_full :
    parse (codes "2:1.09-3")
    ≡ ok (record { epoch = pos 2; upstream = codes "1.09"; revision = codes "3" })
unfolding parse
parse_full = refl

compare_tilde : compare_fragment (codes "1.0~rc1") (codes "1.0") ≡ lt
unfolding compare_fragment text_compare
compare_tilde = refl

compare_zeros : compare_fragment (codes "1.09") (codes "1.9") ≡ eq
unfolding compare_fragment text_compare
compare_zeros = refl

abbrev openssl : Version
openssl = record { epoch = pos 1; upstream = codes "3.0.11"; revision = codes "1~deb12" }

openssl-IsCanonical : IsCanonical openssl
openssl-IsCanonical = record {
  number = 1;
  epoch = refl;
  in_range = omega arith;
  printable = omega arith;
  starts = omega arith;
  no_hyphen = omega arith;
  split = inl (cc);
  no_colon = inl (omega arith);
}

parse-to_string_example : parse (to_string openssl) ≡ ok openssl
parse-to_string_example = parse-to_string openssl openssl-IsCanonical

parse_hyphens :
    parse (codes "1.0-rc-2")
    ≡ ok (record { epoch = pos 0; upstream = codes "1.0-rc"; revision = codes "2" })
unfolding parse
parse_hyphens = refl

to_string-parse_example :
    to_string (record { epoch = pos 0; upstream = codes "1.0-rc"; revision = codes "2" })
    ≡ codes "1.0-rc-2"
to_string-parse_example = to_string-parse (codes "1.0-rc-2") (omega arith) parse_hyphens

less-tilde_example :
    less
      (record { epoch = pos 0; upstream = codes "1.0" ++ b'~' ∷ codes "rc1"; revision = codes "9" })
      (record { epoch = pos 0; upstream = codes "1.0"; revision = [] })
    ≡ true
less-tilde_example = less-tilde (pos 0) (codes "1.0") (codes "rc1") (codes "9") []

fragment-deb_version_example :
    compare_fragment (codes "1.2a") (codes "1.2b")
    ≡ lex (run_compare (codes "1.2a") (codes "1.2b")) (
        lex
          (compare (number (drop_run (codes "1.2a"))) (number (drop_run (codes "1.2b"))))
          (compare_fragment (rest (codes "1.2a")) (rest (codes "1.2b"))))
fragment-deb_version_example = fragment-deb_version (codes "1.2a") (codes "1.2b")

-- An epoch of 0 is not printed, and what is printed then reads back as another version.
reads_back_otherwise :
    (parse (codes "0:1:2") ≡ ok (record { epoch = pos 0; upstream = codes "1:2"; revision = [] }))
    × (parse (to_string (record { epoch = pos 0; upstream = codes "1:2"; revision = [] }))
        ≡ ok (record { epoch = pos 1; upstream = codes "2"; revision = [] }))
unfolding parse to_string
reads_back_otherwise = (refl, refl)
