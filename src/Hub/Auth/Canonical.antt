-- ===== src/Hub/Auth/Canonical.antt =====
-- `canonical` of internal/device/device.go: what a signature is tied to.
use pkgwatch.Base.{
  ℕ, suc, [], ◌∷◌, ◌++◌, Option, some, ℤ, pos, negsuc, ◌≡◌, sym, ◌∙◌, ap, ◌≢◌, arith, All-append,
  append_assoc,
}
use mathlib.Core.Path.{subst}
use pkgwatch.Base.Text.{Text, Lacks, cut, cut_last, itoa}
use pkgwatch.Base.Text.Laws.{cut_at, cut_last_at}
use pkgwatch.Base.Text.Decimal.{IsDigit, IsDigits, itoa-IsDigits, itoa_inj}
use pkgwatch.Base.Select.Sorted.{All-imp}
use pkgwatch.Hub.Auth.{Crypto, to_upper, format_int, join, canonical}

format_int-Lacks : (ts : ℤ) → Lacks b'|' (format_int ts)
unfolding format_int
format_int-Lacks (pos n) =
    All-imp IsDigit (λ c. c ≢ b'|') (λ c h. λ e. absurd (omega (arith, e, h.0, h.1))) (itoa n)
      (itoa-IsDigits n)
format_int-Lacks (negsuc n) = (
  λ e. absurd (omega (arith, e)),
  All-imp IsDigit (λ c. c ≢ b'|') (λ c h. λ e. absurd (omega (arith, e, h.0, h.1))) (itoa (suc n))
      (itoa-IsDigits (suc n)),
)

both :
    {a b c d : Text}
    → ◌≡◌ {A = Option (Text × Text)} (some (a, b)) (some (c, d))
    → (a ≡ c) × (b ≡ d)
both e = (cc, cc)

-- The last field of two texts with the same separator.
last_field :
    (sep : ℕ) (b b' a a' : Text)
    → Lacks sep a
    → Lacks sep a'
    → b ++ sep ∷ a ≡ b' ++ sep ∷ a'
    → (b ≡ b') × (a ≡ a')
last_field sep b b' a a' h h' e =
    both (sym (cut_last_at sep b a h) ∙ ap (cut_last sep) e ∙ cut_last_at sep b' a' h')

first_field :
    (sep : ℕ) (b b' a a' : Text)
    → Lacks sep b
    → Lacks sep b'
    → b ++ sep ∷ a ≡ b' ++ sep ∷ a'
    → (b ≡ b') × (a ≡ a')
first_field sep b b' a a' h h' e =
    both (sym (cut_at sep b a h) ∙ ap (cut sep) e ∙ cut_at sep b' a' h')

-- A number is not the print of a negative one.
not_minus : (n : ℕ) (s : Text) → itoa n ≢ b'-' ∷ s
not_minus n s e = absurd (omega (arith, (subst IsDigits e (itoa-IsDigits n)).0.0))

format_int_inj : (m n : ℤ) → format_int m ≡ format_int n → m ≡ n
unfolding format_int
format_int_inj (pos m) (pos n) e = ap pos (itoa_inj m n e)
format_int_inj (pos m) (negsuc n) e = absurd (not_minus m _ e)
format_int_inj (negsuc m) (pos n) e = absurd (not_minus n _ (sym e))
format_int_inj (negsuc m) (negsuc n) e = ap negsuc (omega (arith, itoa_inj (suc m) (suc n) (cc)))

four :
    (a b c d : Text)
    → a ++ b'|' ∷ (b ++ b'|' ∷ (c ++ b'|' ∷ d)) ≡ ((a ++ b'|' ∷ b) ++ b'|' ∷ c) ++ b'|' ∷ d
four a b c d = ground (
  arith,
  append_assoc (a ++ b'|' ∷ b) (b'|' ∷ c) (b'|' ∷ d),
  append_assoc a (b'|' ∷ b) (b'|' ∷ (c ++ b'|' ∷ d)),
)

-- The method and the path, where a method has no slash and a path begins with one.
method_and_path :
    (m m' p p' : Text)
    → Lacks b'/' m
    → Lacks b'/' m'
    → m ++ b'|' ∷ b'/' ∷ p ≡ m' ++ b'|' ∷ b'/' ∷ p'
    → (m ≡ m') × (p ≡ p')
method_and_path m m' p p' h h' e =
    let (front, rest) =
      first_field b'/' (m ++ b'|' ∷ []) (m' ++ b'|' ∷ []) p p' (All-append _ m _ h (slash, tt))
        (All-append _ m' _ h' (slash, tt))
        (append_assoc m (b'|' ∷ []) (b'/' ∷ p)
          ∙ e
          ∙ sym (append_assoc m' (b'|' ∷ []) (b'/' ∷ p'))) in
    ((last_field b'|' m m' [] [] tt tt front).0, rest)
  where
    slash : ◌≢◌ {A = ℕ} b'|' b'/'
    slash k = absurd (omega (arith, k))

module _ (crypto : Crypto) (hex : (body : Text) → Lacks b'|' (crypto.sha256_hex body)) where
  -- The fields from the right.
  canonical_split :
      (method path body : Text) (ts : ℤ)
      → canonical crypto method path body ts
        ≡ ((to_upper method ++ b'|' ∷ path) ++ b'|' ∷ crypto.sha256_hex body)
          ++ b'|' ∷ format_int ts
  unfolding canonical join
  canonical_split method path body ts =
      four (to_upper method) path (crypto.sha256_hex body) (format_int ts)

  -- One signature speaks for one request. Two requests whose signed texts are equal have the same
  -- method up to the case of its letters, the same path, the same digest of the body and the same
  -- timestamp. Methods have no slash and paths begin with one, and a digest has no bar.
  pub canonical_inj :
      (m m' p p' b b' : Text) (ts ts' : ℤ)
      → Lacks b'/' (to_upper m)
      → Lacks b'/' (to_upper m')
      → canonical crypto m (b'/' ∷ p) b ts ≡ canonical crypto m' (b'/' ∷ p') b' ts'
      → (to_upper m ≡ to_upper m')
        × (p ≡ p')
        × (crypto.sha256_hex b ≡ crypto.sha256_hex b')
        × (ts ≡ ts')
  canonical_inj m m' p p' b b' ts ts' h h' e =
      let (front, time) =
        last_field b'|' _ _ _ _ (format_int-Lacks ts) (format_int-Lacks ts')
          (sym (canonical_split m (b'/' ∷ p) b ts) ∙ e ∙ canonical_split m' (b'/' ∷ p') b' ts') in
      let (start, digest) = last_field b'|' _ _ _ _ (hex b) (hex b') front in
      let (method, path) = method_and_path (to_upper m) (to_upper m') p p' h h' start in
      (method, path, digest, format_int_inj ts ts' time)
