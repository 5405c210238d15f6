-- ===== src/Version/Apk/Parsed.antt =====
-- What `Parse` of internal/version/apk/apk.go returns.
use mathlib.Core.Path.{subst}
use pkgwatch.Base.{
  ℕ, zero, suc, ◌<◌, false, not, List, [], ◌∷◌, ◌++◌, none, some, ◌≡◌, refl, inl, inr, All, any,
  arith, Option-cases, length, length-append,
}
use pkgwatch.Base.Text.{Text, is_digit, is_empty, split, Lacks, cut_last}
use pkgwatch.Base.Text.Laws.{Lacks_of_cut_last, cut_last_sound}
use pkgwatch.Base.Text.Decimal.{IsDigits}
use pkgwatch.Version.{ok, ◌>>=◌, refuse_if, on_ok, refuse_if-eq-ok, ok_inj}
use pkgwatch.Version.Apk.{
  Version, Suffix, check_parts, parse, parse_suffixes, parse_suffix, split_revision, split_letter,
}
use pkgwatch.Version.Apk.Order.{IsComponent, IsValid}

check_parts_sound : (ps : List Text) → check_parts ps ≡ ok tt → All IsComponent ps
unfolding check_parts
check_parts_sound [] h = tt
check_parts_sound ([] ∷ ps) h = cc
check_parts_sound ((c ∷ p) ∷ ps) h =
    on_ok (refuse_if (any (λ d. not (is_digit d)) (c ∷ p)) _) _ h
      λ _ valid rest. (digits_of (c ∷ p) (refuse_if-eq-ok _ _ valid), check_parts_sound ps rest)
  where
    digits_of : (s : Text) → any (λ d. not (is_digit d)) s ≡ false → IsDigits s
    digits_of [] e = tt
    digits_of (d ∷ s) e = ground (arith, digits_of s)

shorter : (s b t : Text) → s ≡ b ++ b'_' ∷ t → length b < length s
shorter s b t e = rw e (omega (arith, length-append b (b'_' ∷ t)))

step :
    (f : ℕ) (s : Text) (xs ys : List Suffix) (rest : Text) (p : Text × Text)
    → cut_last b'_' s ≡ some p
    → parse_suffixes (suc f) s xs ≡ ok (ys, rest)
    → (parse_suffix p.1 >>= λ x. parse_suffixes f p.0 (x ∷ xs)) ≡ ok (ys, rest)
unfolding parse_suffixes
step f s xs ys rest p found e = rw (found, parse_suffixes) at e

stop :
    (f : ℕ) (s : Text) (xs ys : List Suffix) (rest : Text)
    → cut_last b'_' s ≡ none
    → parse_suffixes (suc f) s xs ≡ ok (ys, rest)
    → s ≡ rest
unfolding parse_suffixes
stop f s xs ys rest none_left e = ground arith

-- The loop over the suffixes ends because no underscore is left, not for want of fuel.
pub parse_suffixes-Lacks :
    (f : ℕ) (s : Text) (xs ys : List Suffix) (rest : Text)
    → length s < f
    → parse_suffixes f s xs ≡ ok (ys, rest)
    → Lacks b'_' rest
parse_suffixes-Lacks zero s xs ys rest h e = elim h [ ]
parse_suffixes-Lacks (suc f) s xs ys rest h e = elim (Option-cases (cut_last b'_' s)) [
  | inl none_left ↦
      subst (Lacks b'_') (stop f s xs ys rest none_left e) (Lacks_of_cut_last b'_' s none_left)
  | inr (p, found) ↦ on_ok (parse_suffix p.1) _ (step f s xs ys rest p found e) λ suffix _ k.
      parse_suffixes-Lacks f p.0 (suffix ∷ xs) ys rest
        (omega (arith, shorter s p.0 p.1 (cut_last_sound b'_' s p.0 p.1 found).0)) k
]

-- What `Parse` returns keeps the text, and its components are digits.
pub parse-IsValid : (s : Text) {v : Version} → parse s ≡ ok v → IsValid v × (v.raw ≡ s)
unfolding parse
parse-IsValid s {v} h = on_ok (refuse_if (is_empty s) _) _ h λ _ _ h1.
    on_ok (split_revision s) _ h1 λ r _ h2.
      on_ok (parse_suffixes (suc (length r.1)) r.1 []) _ h2 λ t _ h3.
        on_ok (split_letter t.1) _ h3 λ l _ h4. on_ok (refuse_if (is_empty l.1) _) _ h4 λ _ _ h5.
          on_ok (check_parts (split b'.' l.1)) _ h5 λ _ parts h6.
            subst (λ w. IsValid w × (w.raw ≡ s)) (ok_inj h6)
              (record { components = check_parts_sound _ parts }, refl)
