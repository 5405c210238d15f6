-- ===== src/Version.antt =====
-- The comparators of internal/version: what a version parser returns, and one module per ecosystem.
pub mod Dpkg
pub mod Apk
pub mod Pep440
pub mod Npmver
use pkgwatch.Base.{ℕ, Bool, true, false, Option, none, some, ◌≡◌, refl, ◌⊎◌, inl, inr}

-- Why a version is refused: one constructor for each error that the parsers and the choice of a
-- comparator return.
pub data ParseError : Type 0 where
  empty_version invalid_character non_numeric_epoch empty_revision no_upstream : ParseError
  upstream_start not_a_revision invalid_revision invalid_suffix_number unknown_suffix : ParseError
  more_than_one_letter no_numeric_part empty_component non_numeric_component : ParseError
  not_a_version epoch_out_of_range release_out_of_range not_semver unknown_ecosystem : ParseError

-- `(v, err)`
pub data Result {ℓ} (V : Type ℓ) : Type ℓ where
  err : ParseError → Result V
  ok : V → Result V

-- `if err != nil { return err }`, and what is done otherwise.
infixl 5 ◌>>=◌ ◌>>◌
abbrev pub ◌>>=◌ {ℓ κ} : {V : Type ℓ} {W : Type κ} → Result V → (V → Result W) → Result W
◌>>=◌ step next = elim step [ err reason ↦ err reason | ok value ↦ next value ]

abbrev pub ◌>>◌ {κ} : {W : Type κ} → Result (Unit {0}) → Result W → Result W
◌>>◌ check next = elim check [ err reason ↦ err reason | ok passed ↦ next ]

-- `if bad { return err }`
abbrev pub refuse_if : Bool → ParseError → Result (Unit {0})
refuse_if bad reason = elim bad [ false ↦ ok tt | true ↦ err reason ]

-- `none` is the error of a called function, which the caller reports as its own.
abbrev pub or_error {ℓ} : {A : Type ℓ} → Option A → ParseError → Result A
or_error called reason = elim called [ some v ↦ ok v | none ↦ err reason ]

-- To go on from a successful step, with the parts kept shut.
pub on_ok {ℓ κ μ} :
    {A : Type ℓ} {B : Type κ} {C : Type μ} (m : Result A) (f : A → Result B) {b : B}
    → (m >>= f) ≡ ok b
    → ((a : A) → m ≡ ok a → f a ≡ ok b → C)
    → C
on_ok (ok a) f h k = k a refl h
on_ok (err e) f h k = absurd (cc)

pub refuse_if-eq-ok : (b : Bool) (e : ParseError) {u : Unit {0}} → refuse_if b e ≡ ok u → b ≡ false
refuse_if-eq-ok true e h = cc
refuse_if-eq-ok false e h = refl

pub ok_inj {ℓ} : {A : Type ℓ} {a b : A} → ok a ≡ ok b → a ≡ b
ok_inj e = cc

pub Result-cases {ℓ} :
    {A : Type ℓ} (r : Result A) → ((a : A) × (r ≡ ok a)) ⊎ ((e : ParseError) × (r ≡ err e))
Result-cases (ok a) = inl (a, refl)
Result-cases (err e) = inr (e, refl)
