-- ===== src/BinaryFrame/RoundTrip/Steps.antt =====
-- Runs of the parser over bytes that it takes as parts of a frame.
use deus_os_stm.Common.{
  ℕ, zero, suc, ◌+◌, ◌<◌, ◌≡◌, refl, sym, ap, subst, ◌∙◌, none, List, [], ◌∷◌, ◌++◌, length, take,
  set, arith,
}
use deus_os_stm.BinaryFrame.Parser.{Parser, FeedResult, feed}

-- The parser takes the bytes one by one as parts of a frame and ends in `q`.
abbrev pub Consumes : Parser → List ℕ → Parser → Type 0
Consumes p [] q = p ≡ q
Consumes p (b ∷ bytes) q = ((feed p b).0 ≡ FeedResult.consumed) × Consumes (feed p b).1 bytes q

pub Consumes-append :
    (p : Parser) (xs ys : List ℕ) (q r : Parser)
    → Consumes p xs q
    → Consumes q ys r
    → Consumes p (xs ++ ys) r
Consumes-append p [] ys q r h k = subst (λ u. Consumes u ys r) (sym h) k
Consumes-append p (x ∷ xs) ys q r h k = (h.0, Consumes-append (feed p x).1 xs ys q r h.1 k)

pub take-set :
    (arr done : List ℕ) (i b : ℕ)
    → i < length arr
    → take i arr ≡ done
    → take (suc i) (set arr i b) ≡ done ++ b ∷ []
take-set [] done i b h e = absurd (omega arith)
take-set (x ∷ arr) done zero b h e = ap (λ d. d ++ b ∷ []) e
take-set (x ∷ arr) done (suc i) b h e =
    ap (◌∷◌ x) (take-set arr (take i arr) i b (omega arith) refl) ∙ ap (λ d. d ++ b ∷ []) e

-- The same after one more byte.
pub take-set_next :
    (arr done : List ℕ) (i b : ℕ)
    → i < length arr
    → take i arr ≡ done
    → take (i + 1) (set arr i b) ≡ done ++ b ∷ []
take-set_next arr done i b h e =
    let next : i + 1 ≡ suc i = omega arith in
    ap (λ n. take n (set arr i b)) next ∙ take-set arr done i b h e

pub Consumes-step :
    (p : Parser) (b : ℕ) (bytes : List ℕ) (q r : Parser)
    → feed p b ≡ (FeedResult.consumed, q, none)
    → Consumes q bytes r
    → Consumes p (b ∷ bytes) r
Consumes-step p b bytes q r e h =
    (ap (λ x. x.0) e, subst (λ u. Consumes u bytes r) (sym (ap (λ x. x.1) e)) h)
