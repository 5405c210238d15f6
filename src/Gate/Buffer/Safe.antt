-- ===== src/Gate/Buffer/Safe.antt =====
-- The publish buffer of internal/gate/gate.go is never the reason that nothing is left.
use pkgwatch.Base.{
  Bool, true, not, List, [], ◌∷◌, map, any, ◌≡◌, refl, arith, Bool-cases, inl, inr, ap,
}
use pkgwatch.Gate.{Verdict}
use pkgwatch.Gate.Buffer.{is_fallback, hold_back, apply_buffer}

module _ {Num : Type 0} where
  abbrev pub is_allowed : Verdict Num → Bool
  is_allowed v = not v.blocked

  is_fallback-hold_back : (v : Verdict Num) → is_fallback (hold_back v) ≡ is_fallback v
  unfolding is_fallback hold_back
  is_fallback-hold_back v = ground arith

  fallback_allowed : (v : Verdict Num) → is_fallback v ≡ true → is_allowed (hold_back v) ≡ true
  unfolding is_fallback hold_back
  fallback_allowed v h = ground arith

  hold_back_again : (v : Verdict Num) → hold_back (hold_back v) ≡ hold_back v
  unfolding hold_back
  hold_back_again v = ground arith

  any-map : (vs : List (Verdict Num)) → any is_fallback (map hold_back vs) ≡ any is_fallback vs
  any-map [] = refl
  any-map (v ∷ vs) = rw (is_fallback-hold_back v, any-map vs)

  map-again : (vs : List (Verdict Num)) → map hold_back (map hold_back vs) ≡ map hold_back vs
  map-again [] = refl
  map-again (v ∷ vs) = rw (hold_back_again v, map-again vs)

  some_left :
      (vs : List (Verdict Num))
      → any is_fallback vs ≡ true
      → any is_allowed (map hold_back vs) ≡ true
  some_left (v ∷ vs) h = ground (arith, fallback_allowed v, some_left vs)
  some_left [] h = cc

  -- If a list of verdicts allows any version, it still allows one after the buffer.
  pub any-apply_buffer :
      (vs : List (Verdict Num)) → any is_allowed vs ≡ true → any is_allowed (apply_buffer vs) ≡ true
  unfolding apply_buffer
  any-apply_buffer vs h = elim (Bool-cases (any is_fallback vs)) [
    | inl b ↦ rw b (some_left vs b)
    | inr b ↦ rw b h
  ]

  -- The buffer settles at once: applied again it changes nothing.
  pub apply_buffer-apply_buffer :
      (vs : List (Verdict Num)) → apply_buffer (apply_buffer vs) ≡ apply_buffer vs
  unfolding apply_buffer
  apply_buffer-apply_buffer vs = elim (Bool-cases (any is_fallback vs)) [
    | inl b ↦ rw (b, any-map vs, b, map-again vs)
    | inr b ↦ rw (b, b)
  ]

  hold_back-is_fallback : (v : Verdict Num) → is_fallback v ≡ true → hold_back v ≡ v
  unfolding is_fallback hold_back
  hold_back-is_fallback v h = ground arith

  -- One verdict is no list to fall back to: the buffer leaves it alone.
  pub apply_buffer_single : (v : Verdict Num) → apply_buffer (v ∷ []) ≡ v ∷ []
  unfolding apply_buffer
  apply_buffer_single v = elim (Bool-cases (is_fallback v)) [
    | inl b ↦ rw b (ap (λ x. x ∷ []) (hold_back-is_fallback v b))
    | inr b ↦ rw b
  ]
