-- ===== src/Base/Regex.antt =====
-- Regular expressions of `regexp`, as far as the program writes them: leftmost-first, which is the
-- order of a backtracking search, anchored at both ends.
use pkgwatch.Base.{
  ℕ, zero, suc, ◌-◌, ◌+◌, Bool, false, ◌||◌, ◌&&◌, List, [], ◌∷◌, Option, none, some, ltb, ◌==◌,
  if◌then◌else◌, length,
}
use pkgwatch.Base.Text.{Text, is_digit}

pub data Regex : Type 0 where
  char : (ℕ → Bool) → Regex
  empty : Regex
  seq : Regex → Regex → Regex
  alt : Regex → Regex → Regex
  star : Regex → Regex
  group : ℕ → Regex → Regex

-- The texts of the groups that have matched, the latest first.
abbrev pub Captures : Type 0
Captures = List (ℕ × Text)

-- What follows a part of an expression.
abbrev Next : Type 0
Next = Text → Captures → Option Captures

abbrev or_else : Option Captures → Option Captures → Option Captures
or_else none b = b
or_else (some a) b = some a

-- What was read to come from `s` to `rest`.
abbrev consumed : ℕ → Text → Text
consumed zero s = []
consumed (suc n) [] = []
consumed (suc n) (c ∷ s) = c ∷ consumed n s

-- `r*`: as many rounds as the search finds, none of them empty.
unfoldable pub rounds :
    ℕ → (Text → Captures → Next → Option Captures) → Text → Captures → Next → Option Captures
rounds zero one s caps next = next s caps
rounds (suc f) one s caps next =
    elim (one s caps
      (λ s' caps'. if ltb (length s') (length s) then rounds f one s' caps' next else none)) [
        | some found ↦ some found
        | none ↦ next s caps
      ]

unfoldable pub run : Regex → Text → Captures → Next → Option Captures
unfolding rounds
run (char p) [] caps next = none
run (char p) (c ∷ s) caps next = if p c then next s caps else none
run empty s caps next = next s caps
run (seq a b) s caps next = run a s caps (λ s' caps'. run b s' caps' next)
run (alt a b) s caps next = elim (run a s caps next) [
  | some found ↦ some found
  | none ↦ run b s caps next
]
run (star a) s caps next = rounds (length s) (run a) s caps next
run (group n a) s caps next =
    run a s caps (λ s' caps'. next s' ((n, consumed (length s - length s') s) ∷ caps'))

abbrev at_end : Next
at_end [] caps = some caps
at_end (c ∷ s) caps = none

-- `^r$`
unfoldable pub match_whole : Regex → Text → Option Captures
unfolding run
match_whole r s = run r s [] at_end

-- The text of a group, "" where it took no part.
unfoldable pub capture : ℕ → Captures → Text
capture n [] = []
capture n ((m, s) ∷ caps) = if m == n then s else capture n caps

-- A letter under `(?i)`, which also folds the long s and the Kelvin sign.
abbrev pub folds : ℕ → ℕ → Bool
folds a c = c == a || (c + 32) == a || (a == b's' && c == 0x17f) || (a == b'k' && c == 0x212a)

abbrev pub maybe : Regex → Regex
maybe r = alt r empty

abbrev pub plus : Regex → Regex
plus r = seq r (star r)

abbrev pub digit_class : Regex
digit_class = char is_digit

-- A word under `(?i)`.
abbrev pub word : Text → Regex
word [] = empty
word (c ∷ s) = seq (char (folds c)) (word s)

-- One of some words, the first that leads to a match.
abbrev pub one_of : List Text → Regex
one_of [] = char (λ _. false)
one_of (w ∷ ws) = alt (word w) (one_of ws)
