-- ===== src/Base/Decimal.antt =====
-- `to_string` on an unsigned number: decimal digits, and what follows them is found again.
use Prim.Native.Nat.{ℕ, zero, suc, ◌+◌, ◌-◌, ◌*◌, ◌/◌, ◌%◌, ◌<◌}
use Prim.Native.Char.{Char, code, len_utf8}
use Prim.Native.String.{String, ◌++◌, len}
use Prim.Native.String.append
use Prim.Native.String.len as len_clauses
use mathlib.Core.Path.{◌≡◌, refl, sym, ap, ◌∙◌}
use mathlib.Core.Logic.{inl, inr}
use mathlib.Core.Bool.{Bool, true, ◌&&◌}
use text.Mathlib.TextPositions.{len_utf8-pos}
use text.Mathlib.TextLemmas.{head-eq_of_cons-eq, tail-eq_of_cons-eq}
use native.Mathlib.Omega.{arith}
use agent_db.Base.Tests.{ltb, leb, Bool-cases, if◌then◌else◌}

abbrev pub digit : ℕ → Char
digit zero = "0"
digit (suc zero) = "1"
digit (suc (suc zero)) = "2"
digit (suc (suc (suc zero))) = "3"
digit (suc (suc (suc (suc zero)))) = "4"
digit (suc (suc (suc (suc (suc zero))))) = "5"
digit (suc (suc (suc (suc (suc (suc zero)))))) = "6"
digit (suc (suc (suc (suc (suc (suc (suc zero))))))) = "7"
digit (suc (suc (suc (suc (suc (suc (suc (suc zero)))))))) = "8"
digit _ = "9"

digit-code : (n : ℕ) → n < 10 → code (digit n) ≡ 48 + n
digit-code zero h = refl
digit-code (suc zero) h = refl
digit-code (suc (suc zero)) h = refl
digit-code (suc (suc (suc zero))) h = refl
digit-code (suc (suc (suc (suc zero)))) h = refl
digit-code (suc (suc (suc (suc (suc zero))))) h = refl
digit-code (suc (suc (suc (suc (suc (suc zero)))))) h = refl
digit-code (suc (suc (suc (suc (suc (suc (suc zero))))))) h = refl
digit-code (suc (suc (suc (suc (suc (suc (suc (suc zero)))))))) h = refl
digit-code (suc (suc (suc (suc (suc (suc (suc (suc (suc zero))))))))) h = refl
digit-code (suc (suc (suc (suc (suc (suc (suc (suc (suc (suc n)))))))))) h = absurd (omega arith)

-- The digits of `n` in front of a text, the last one first; `n` rounds are enough.
unfoldable pub decimal_onto : ℕ → ℕ → String → String
decimal_onto zero n rest = String.◌∷◌ (digit n) rest
decimal_onto (suc fuel) n rest =
    let more = decimal_onto fuel (n / 10) (String.◌∷◌ (digit (n % 10)) rest) in
    if ltb n 10 then String.◌∷◌ (digit n) rest else more

unfoldable pub decimal : ℕ → String
unfolding decimal_onto
decimal n = decimal_onto n n ""

-- The number that digits stand for, behind those read so far.
abbrev read_digits : ℕ → String → ℕ
read_digits acc String.[] = acc
read_digits acc (String.◌∷◌ c s) = read_digits (acc * 10 + (code c - 48)) s

read_digits-decimal_onto :
    (fuel n : ℕ) (rest : String)
    → (n < 10 + fuel)
    → read_digits 0 (decimal_onto fuel n rest) ≡ read_digits n rest
unfolding decimal_onto
read_digits-decimal_onto zero n rest h =
    ap (λ k. read_digits k rest) (omega (arith, digit-code n (omega arith)))
read_digits-decimal_onto (suc fuel) n rest h = elim (Bool-cases (ltb n 10)) [
  | inl e ↦ rw e (ap (λ k. read_digits k rest) (omega (arith, digit-code n (ground arith))))
  | inr e ↦ rw e (
      read_digits-decimal_onto fuel (n / 10) (String.◌∷◌ (digit (n % 10)) rest) (omega arith)
      ∙ ap (λ k. read_digits k rest) (omega (arith, digit-code (n % 10) (omega arith))))
]

pub decimal_injective : (m n : ℕ) → decimal m ≡ decimal n → m ≡ n
unfolding decimal
decimal_injective m n e =
    sym (read_digits-decimal_onto m m "" (omega arith))
    ∙ ap (read_digits 0) e
    ∙ read_digits-decimal_onto n n "" (omega arith)

-- Digits only.
abbrev pub all_digits : String → Bool
all_digits String.[] = true
all_digits (String.◌∷◌ c s) = (leb 48 (code c) && leb (code c) 57) && all_digits s

decimal_onto-all_digits :
    (fuel n : ℕ) (rest : String)
    → n < 10 + fuel
    → all_digits rest ≡ true
    → all_digits (decimal_onto fuel n rest) ≡ true
unfolding decimal_onto
decimal_onto-all_digits zero n rest h d = ground (arith, digit-code n)
decimal_onto-all_digits (suc fuel) n rest h d = elim (Bool-cases (ltb n 10)) [
  | inl e ↦ ground (arith, e, digit-code n)
  | inr e ↦ rw e (
      decimal_onto-all_digits fuel (n / 10) (String.◌∷◌ (digit (n % 10)) rest) (omega arith)
        (ground (arith, digit-code (n % 10))))
]

pub decimal-all_digits : (n : ℕ) → all_digits (decimal n) ≡ true
unfolding decimal
decimal-all_digits n = decimal_onto-all_digits n n "" (omega arith) refl

-- Digits end where the first other character stands.
pub digits_end :
    (s t x y : String)
    → all_digits s ≡ true
    → all_digits t ≡ true
    → s ++ (String.◌∷◌ ":" x) ≡ t ++ (String.◌∷◌ ":" y)
    → (s ≡ t) × (x ≡ y)
digits_end String.[] String.[] x y d e h =
    (refl, tail-eq_of_cons-eq (rw (append.nil, append.nil) at h))
digits_end String.[] (String.◌∷◌ c t) x y d e h =
    let same : ":" ≡ c = head-eq_of_cons-eq (rw (append.nil, append.cons) at h) in
    absurd (ground (arith, ap code same))
digits_end (String.◌∷◌ c s) String.[] x y d e h =
    let same : c ≡ ":" = head-eq_of_cons-eq (rw (append.nil, append.cons) at h) in
    absurd (ground (arith, ap code same))
digits_end (String.◌∷◌ c s) (String.◌∷◌ b t) x y d e h =
    let joined : String.◌∷◌ c (s ++ (String.◌∷◌ ":" x)) ≡ String.◌∷◌ b (t ++ (String.◌∷◌ ":" y)) =
      rw (append.cons, append.cons) at h in
    let (same, ends) =
      digits_end s t x y (ground arith) (ground arith) (tail-eq_of_cons-eq joined) in
    (cc (head-eq_of_cons-eq joined, same), ends)

len_zero : (c : Char) (s : String) → len (String.◌∷◌ c s) ≡ 0 → ⊥
len_zero c s e =
    let (k, wide) = len_utf8-pos c in
    let total : len_utf8 c + len s ≡ 0 = rw len_clauses.cons at e in omega (arith, wide, total)

-- Texts of one length end at the same place.
pub same_length_end : (s t x y : String) → len s ≡ len t → s ++ x ≡ t ++ y → (s ≡ t) × (x ≡ y)
same_length_end String.[] String.[] x y e h = (refl, rw (append.nil, append.nil) at h)
same_length_end String.[] (String.◌∷◌ c t) x y e h = absurd (len_zero c t (sym e ∙ len_clauses.nil))
same_length_end (String.◌∷◌ c s) String.[] x y e h = absurd (len_zero c s (e ∙ len_clauses.nil))
same_length_end (String.◌∷◌ c s) (String.◌∷◌ b t) x y e h =
    let joined : String.◌∷◌ c (s ++ x) ≡ String.◌∷◌ b (t ++ y) =
      rw (append.cons, append.cons) at h in
    let first : c ≡ b = head-eq_of_cons-eq joined in
    let lengths : len_utf8 c + len s ≡ len_utf8 b + len t =
      rw (len_clauses.cons, len_clauses.cons) at e in
    let (same, ends) =
      same_length_end s t x y (omega (arith, lengths, ap len_utf8 first))
        (tail-eq_of_cons-eq joined) in
    (cc (first, same), ends)
