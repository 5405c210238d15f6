-- ===== src/Version/Dpkg/RoundTrip.antt =====
-- `Parse` and `String` of internal/version/dpkg/dpkg.go.
use mathlib.Core.List.{cons-ne-nil}
use pkgwatch.Base.{
  ℕ, zero, suc, ◌≤◌, ◌<◌, false, [], ◌∷◌, ◌++◌, ◌≡◌, refl, sym, ◌∙◌, ◌⊎◌, inl, inr, ◌≢◌, ℤ, pos,
  arith, any, All, All-append, Option-cases, if◌then◌else◌, append-nil, append_assoc,
}
use pkgwatch.Base.Text.{Text, is_empty, cut_last, itoa, Lacks, max_int}
use pkgwatch.Base.Text.Laws.{cut_at, cut-none, cut_last_at, cut_last-none, cut_last_sound}
use pkgwatch.Base.Text.Decimal.{IsDigit, IsDigits, atoi-itoa, itoa-IsDigits}
use pkgwatch.Version.{Result, ok, ◌>>=◌, ◌>>◌}
use pkgwatch.Version.Dpkg.{
  Version, split_epoch, split_revision, check_upstream, parse, to_string, format_int, is_invalid,
}

-- `Parse` behind the tests on the whole text.
parse_parts : Text → Result Version
unfolding split_epoch split_revision check_upstream
parse_parts s = do
  e ← split_epoch s
  u ← split_revision e.1
  check_upstream u.0
  ok (record { epoch = e.0; upstream = u.0; revision = u.1 })

abbrev IsPrintable : Text → Type 0
IsPrintable = All (λ c. (b' ' < c) × (c ≤ b'~'))

abbrev StartsWithDigit : Text → Type 0
StartsWithDigit [] = ⊥
StartsWithDigit (c ∷ s) = IsDigit c

-- A version that its print spells in full: an epoch of 0 is not printed, so that the first colon of
-- the print must not be one of the upstream version or the revision; a hyphen of the upstream
-- version is the last one only if no revision follows.
pub record IsCanonical (v : Version) : Type 0 where
  pub number : ℕ
  pub epoch : v.epoch ≡ pos number
  pub in_range : number ≤ max_int
  pub printable : IsPrintable v.upstream × IsPrintable v.revision
  pub starts : StartsWithDigit v.upstream
  pub no_hyphen : Lacks b'-' v.revision
  pub split : (v.revision ≢ []) ⊎ Lacks b'-' v.upstream
  pub no_colon : (number ≢ 0) ⊎ (Lacks b':' v.upstream × Lacks b':' v.revision)

printable-valid : (s : Text) → IsPrintable s → any is_invalid s ≡ false
printable-valid [] h = refl
printable-valid (c ∷ s) h = ground (arith, printable-valid s h.1)

digits-IsPrintable : (s : Text) → IsDigits s → IsPrintable s
digits-IsPrintable [] h = tt
digits-IsPrintable (c ∷ s) h = ((omega arith, omega arith), digits-IsPrintable s h.1)

digits-Lacks : (s : Text) → IsDigits s → Lacks b':' s
digits-Lacks [] h = tt
digits-Lacks (c ∷ s) h = (omega arith, digits-Lacks s h.1)

-- The upstream version and the revision as `String` writes them.
abbrev tail_of : Text → Text → Text
tail_of u r = u ++ (if is_empty r then [] else b'-' ∷ r)

split-tail :
    (u r : Text) → Lacks b'-' r → (r ≢ []) ⊎ Lacks b'-' u → split_revision (tail_of u r) ≡ ok (u, r)
unfolding split_revision
split-tail u [] h (inl k) = absurd (k refl)
split-tail u [] h (inr k) = ground (arith, append-nil u, cut_last-none b'-' u k)
split-tail u (c ∷ r) h k = rw (cut_last_at b'-' u (c ∷ r) h, split_revision)

split-epoch_written :
    (n : ℕ) (s : Text) → n ≤ max_int → split_epoch (itoa n ++ b':' ∷ s) ≡ ok (pos n, s)
unfolding split_epoch
split-epoch_written n s h =
    ground (arith, cut_at b':' (itoa n) s (digits-Lacks (itoa n) (itoa-IsDigits n)), atoi-itoa n h)

split-no_epoch : (s : Text) → Lacks b':' s → split_epoch s ≡ ok (pos 0, s)
unfolding split_epoch
split-no_epoch s h = rw (cut-none b':' s h, split_epoch)

-- `Parse` on a text whose parts are known.
parse_of_parts :
    (s rest u r : Text) (e : ℤ)
    → s ≢ []
    → IsPrintable s
    → split_epoch s ≡ ok (e, rest)
    → split_revision rest ≡ ok (u, r)
    → StartsWithDigit u
    → parse s ≡ ok (record { epoch = e; upstream = u; revision = r })
parse_of_parts [] rest u r e n p he hr d = absurd (n refl)
parse_of_parts (c ∷ s) rest [] r e n p he hr d = absurd d
parse_of_parts (c ∷ s) rest (k ∷ u) r e n p he hr d =
    unfold parse check_upstream in ground (arith, printable-valid (c ∷ s) p)

tail-IsPrintable : (u r : Text) → IsPrintable u → IsPrintable r → IsPrintable (tail_of u r)
tail-IsPrintable u [] hu hr = All-append _ u [] hu tt
tail-IsPrintable u (c ∷ r) hu hr = All-append _ u (b'-' ∷ c ∷ r) hu (omega arith, hr)

tail-Lacks : (u r : Text) → Lacks b':' u → Lacks b':' r → Lacks b':' (tail_of u r)
tail-Lacks u [] hu hr = All-append _ u [] hu tt
tail-Lacks u (c ∷ r) hu hr = All-append _ u (b'-' ∷ c ∷ r) hu (omega arith, hr)

tail-ne-nil : (u r : Text) → StartsWithDigit u → tail_of u r ≢ []
tail-ne-nil [] r d = absurd d
tail-ne-nil (c ∷ u) r d = cons-ne-nil c _

string_zero : (v : Version) → v.epoch ≡ pos 0 → to_string v ≡ tail_of v.upstream v.revision
unfolding to_string
string_zero v e = rw e

string_pos :
    (v : Version) (n : ℕ)
    → v.epoch ≡ pos (suc n)
    → to_string v ≡ itoa (suc n) ++ b':' ∷ tail_of v.upstream v.revision
unfolding to_string format_int
string_pos v n e =
    ground (arith, append_assoc (itoa (suc n)) (b':' ∷ []) (tail_of v.upstream v.revision))

append-ne-nil : (s : Text) (c : ℕ) (t : Text) → s ++ c ∷ t ≢ []
append-ne-nil [] c t = cons-ne-nil c t
append-ne-nil (d ∷ s) c t = cons-ne-nil d _

no_colon_of_zero : (n : ℕ) {A : Type 0} → n ≡ 0 → (n ≢ 0) ⊎ A → A
no_colon_of_zero n e (inl k) = absurd (k e)
no_colon_of_zero n e (inr a) = a

-- The print of a canonical version, with its epoch given apart.
read_back :
    (n : ℕ) (v : Version)
    → IsCanonical v
    → v.epoch ≡ pos n
    → n ≤ max_int
    → parse (to_string v) ≡ ok v
read_back zero v h e m =
    let (u, r) = no_colon_of_zero h.number (ground arith) h.no_colon in
    rw (string_zero v e) (
      parse_of_parts _ (tail_of v.upstream v.revision) v.upstream v.revision (pos 0)
        (tail-ne-nil v.upstream v.revision h.starts)
        (tail-IsPrintable v.upstream v.revision h.printable.0 h.printable.1)
        (split-no_epoch _ (tail-Lacks v.upstream v.revision u r))
        (split-tail v.upstream v.revision h.no_hyphen h.split) h.starts
      ∙ (λ i. ok (record v { epoch = sym e i })))
read_back (suc n) v h e m = rw (string_pos v n e) (
    parse_of_parts _ (tail_of v.upstream v.revision) v.upstream v.revision (pos (suc n))
      (append-ne-nil (itoa (suc n)) b':' _)
      (All-append _ (itoa (suc n)) _ (digits-IsPrintable _ (itoa-IsDigits (suc n)))
        (omega arith, tail-IsPrintable v.upstream v.revision h.printable.0 h.printable.1))
      (split-epoch_written (suc n) _ m) (split-tail v.upstream v.revision h.no_hyphen h.split)
      h.starts
    ∙ (λ i. ok (record v { epoch = sym e i })))

-- Reading back the print of a canonical version gives the version.
pub parse-to_string : (v : Version) → IsCanonical v → parse (to_string v) ≡ ok v
parse-to_string v h = read_back h.number v h h.epoch h.in_range

-- A text with no colon is printed back exactly as it was written.
pub to_string-parse : (s : Text) {v : Version} → Lacks b':' s → parse s ≡ ok v → to_string v ≡ s
unfolding parse split_revision to_string
to_string-parse s {v} h e = elim (Option-cases (cut_last b'-' s)) [
  | inl none_found ↦ ground (arith, split-no_epoch s h, append-nil s)
  | inr (p, found) ↦ ground (arith, split-no_epoch s h, cut_last_sound b'-' s p.0 p.1 found)
]
