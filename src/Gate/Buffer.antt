-- ===== src/Gate/Buffer.antt =====
-- The publish buffer of internal/gate/gate.go: `applyBuffer`.
pub mod Safe
use pkgwatch.Base.{Bool, true, false, ◌&&◌, not, List, [], ◌∷◌, if◌then◌else◌, map, any, ◌≡◌}
use pkgwatch.Base.Text.{Text, text_eq}
use pkgwatch.Gate.{Verdict, reason_cooldown}

module _ {Num : Type 0} where
  -- A version that is neither refused nor fresh.
  unfoldable pub is_fallback : Verdict Num → Bool
  unfolding text_eq
  is_fallback v = not v.blocked && not (text_eq v.reason reason_cooldown)

  -- The body of the second loop.
  unfoldable pub hold_back : Verdict Num → Verdict Num
  unfolding text_eq
  hold_back v =
      if not v.blocked && text_eq v.reason reason_cooldown
      then record {
        blocked = true;
        reason = v.reason;
        advisory_id = v.advisory_id;
        summary = v.summary;
        tier = v.tier;
        score = v.score;
        fixed_in = v.fixed_in;
        warn = false;
        degraded = v.degraded;
      }
      else v

  -- `applyBuffer`
  unfoldable pub apply_buffer : List (Verdict Num) → List (Verdict Num)
  unfolding is_fallback hold_back
  apply_buffer verdicts = if any is_fallback verdicts then map hold_back verdicts else verdicts
