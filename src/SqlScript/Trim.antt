-- ===== src/SqlScript/Trim.antt =====
-- `str::trim` on UTF-8: the encodings of Unicode's White_Space, dropped at both ends.
use agent_db.Base.{
  ℕ, zero, suc, Bool, ◌&&◌, ◌||◌, List, [], ◌∷◌, ◌++◌, ◌==◌, nat_eq, leb, if◌then◌else◌,
}

abbrev white_byte : ℕ → Bool
white_byte b = (leb 9 b && leb b 13) || b == 32

abbrev white_pair : ℕ → ℕ → Bool
white_pair a b = a == 0xc2 && (b == 0x85 || b == 0xa0)

abbrev white_triple : ℕ → ℕ → ℕ → Bool
white_triple a b c =
    (a == 0xe1 && b == 0x9a && c == 0x80)
    || (a == 0xe2
        && b == 0x80
        && ((leb 0x80 c && leb c 0x8a) || c == 0xa8 || c == 0xa9 || c == 0xaf))
    || (a == 0xe2 && b == 0x81 && c == 0x9f)
    || (a == 0xe3 && b == 0x80 && c == 0x80)

-- The bytes of the whitespace character that a text starts with, or 0.
unfoldable pub white_len : List ℕ → ℕ
white_len [] = 0
white_len (a ∷ []) = if white_byte a then 1 else 0
white_len (a ∷ b ∷ []) = if white_byte a then 1 else if white_pair a b then 2 else 0
white_len (a ∷ b ∷ c ∷ _) =
    if white_byte a then 1 else if white_pair a b then 2 else if white_triple a b c then 3 else 0

-- The same for a text that is read from its end.
unfoldable pub white_len_back : List ℕ → ℕ
white_len_back [] = 0
white_len_back (a ∷ []) = if white_byte a then 1 else 0
white_len_back (b ∷ a ∷ []) = if white_byte b then 1 else if white_pair a b then 2 else 0
white_len_back (c ∷ b ∷ a ∷ _) =
    if white_byte c then 1 else if white_pair b c then 2 else if white_triple a b c then 3 else 0

unfoldable pub trim_by : (List ℕ → ℕ) → (skip : ℕ) → List ℕ → List ℕ
trim_by white skip [] = []
trim_by white (suc skip) (b ∷ bytes) = trim_by white skip bytes
trim_by white zero (b ∷ bytes) = elim (white (b ∷ bytes)) [
  | zero ↦ b ∷ bytes
  | suc skip ↦ trim_by white skip bytes
]

abbrev pub reversed : List ℕ → List ℕ
reversed [] = []
reversed (b ∷ bytes) = reversed bytes ++ (b ∷ [])

unfoldable pub trim : List ℕ → List ℕ
unfolding white_len white_len_back trim_by
trim text = reversed (trim_by white_len_back 0 (reversed (trim_by white_len 0 text)))
