-- ===== src/Gate/Tests.antt =====
-- Runs of internal/gate on a concrete bundle and request.
use pkgwatch.Base.{◌-ℤ◌, ℕ, ◌∷◌, [], ◌≡◌, refl, true, false, none, some, ◌↔◌, Any, pos, any, ◌⊎◌}
use pkgwatch.Base.Text.{codes, text_eq}
use pkgwatch.Match.Tests.{comparators, debian_fix, tenth_numbers, tenth_numbers-IsTotal}
use pkgwatch.Gate.{
  Request, Verdict, Gate, no_verdict, reason_cooldown, covers, decision, has_event,
  decision_withheld, decision_blocked, point_resolve,
}
use pkgwatch.Gate.Buffer.{apply_buffer}
use pkgwatch.Gate.Buffer.Safe.{is_allowed, any-apply_buffer}
use pkgwatch.Gate.Decide.{World, decide, package_of, is_override, is_uncovered}
use pkgwatch.Gate.Decide.Blocks.{IsSerious, Hits}
use pkgwatch.Gate.Decide.Outcome.{IsUncovered, decide_blocks_iff, decide_degraded_iff}
use pkgwatch.Gate.Record.{decision-has_event}

abbrev request : Request
request = record {
  session_id = codes "s1";
  ecosystem = codes "Debian:12";
  name = codes "openssl";
  version = codes "3.0.8-1";
  point = codes "download";
  published = none;
}

abbrev strict : Gate
strict = record {
  bundle_attached = true;
  covered = codes "Debian:12" ∷ [];
  block_tier = codes "medium";
  cooldown = pos 3600;
}

abbrev bundle : World ℕ
bundle = record {
  is_approved = λ _. some false;
  lookup = λ _ _. some (debian_fix ∷ []);
  fresh_summary = λ _ _. [];
  clock = λ _. pos 1000;
}

abbrev fresh : Verdict ℕ
fresh = record (no_verdict 0) { reason = reason_cooldown; warn = true }

abbrev held : Verdict ℕ
held = record fresh { blocked = true; warn = false }

decide_blocks_iff_example :
    ((decide tenth_numbers comparators false bundle strict request).blocked ≡ true)
    ↔ Any
        (λ adv.
          Hits tenth_numbers comparators (package_of request (pos 1000)) adv
          × IsSerious tenth_numbers strict adv)
        (debian_fix ∷ [])
unfolding is_uncovered covers text_eq ◌-ℤ◌
decide_blocks_iff_example =
    decide_blocks_iff tenth_numbers comparators false strict bundle request tenth_numbers-IsTotal
      (λ k. refl) (debian_fix ∷ []) (refl, refl, refl, refl) (refl, tt)

decide_degraded_iff_example :
    (((decide tenth_numbers comparators false bundle strict request).degraded ≡ true) ↔ (
      (is_override (some false) ≡ false)
      × ((true ≡ false) ⊎ IsUncovered strict request ⊎ (some (debian_fix ∷ []) ≡ none))))
    × ((decide tenth_numbers comparators false bundle strict request).degraded ≡ true
        → (decide tenth_numbers comparators false bundle strict request).blocked ≡ false)
decide_degraded_iff_example =
    decide_degraded_iff tenth_numbers comparators false strict bundle request

any-apply_buffer_example : any is_allowed (apply_buffer (fresh ∷ no_verdict 0 ∷ [])) ≡ true
any-apply_buffer_example = any-apply_buffer (fresh ∷ no_verdict 0 ∷ []) refl

decision-has_event_example :
    ((true ≡ true)
      ↔ ((decision request held ≡ decision_withheld) ⊎ (decision request held ≡ decision_blocked)))
    × ((has_event request held ≡ true)
        ↔ ((true ≡ true) × (text_eq request.point point_resolve ≡ false)))
decision-has_event_example = decision-has_event request held
