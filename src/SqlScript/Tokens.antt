-- ===== src/SqlScript/Tokens.antt =====
-- The tokens of a script, described by what they are written as, and what the splitter makes of them.
pub mod Lengths
pub mod Scripts
use agent_db.Base.{
  ℕ, zero, suc, ◌+◌, ◌-◌, ◌≤◌, ◌≡◌, ◌≢◌, refl, ap, sym, ◌∙◌, ◌⊎◌, inl, inr, min, Bool, true, false,
  not, ◌&&◌, ◌||◌, Option, none, some, List, [], ◌∷◌, ◌++◌, ◌==◌, nat_eq, all, take, drop, length,
  length-append, Bool-cases, if◌then◌else◌, arith,
}
use mathlib.Core.List.{append_assoc, append-nil}
use agent_db.SqlScript.{
  semicolon, quote_len, line_len, block_len, is_tag_byte, tag_end, starts_with, body_len, next_is,
  comment_len, dollar_len, advance, statement_of, split_from, split_statements_impl,
}

-- What `push_statement` makes of the statements of a script, in their order.
abbrev pub statements : List (List ℕ) → List (List ℕ)
statements [] = []
statements (piece ∷ pieces) = statement_of piece ++ statements pieces

-- What a quoted literal holds: a byte that stands for itself, its quote written twice, or a byte after
-- a backslash.
pub data Item : Type 0 where
  byte : ℕ → Item
  doubled : Item
  escaped : ℕ → Item

pub data Token : Type 0 where
  plain : ℕ → Token
  quoted : (quote : ℕ) → List Item → Token
  line_comment block_comment : List ℕ → Token
  dollar_quoted : (tag body : List ℕ) → Token

abbrev pub item_text : ℕ → List Item → List ℕ
item_text q [] = []
item_text q (Item.byte b ∷ items) = b ∷ item_text q items
item_text q (Item.doubled ∷ items) = q ∷ q ∷ item_text q items
item_text q (Item.escaped c ∷ items) = 92 ∷ c ∷ item_text q items

abbrev pub dollar_tag : List ℕ → List ℕ
dollar_tag tag = 36 ∷ (tag ++ (36 ∷ []))

abbrev pub first_byte : Token → ℕ
first_byte (Token.plain b) = b
first_byte (Token.quoted q _) = q
first_byte (Token.line_comment _) = 45
first_byte (Token.block_comment _) = 47
first_byte (Token.dollar_quoted _ _) = 36

abbrev pub later_bytes : Token → List ℕ
later_bytes (Token.plain _) = []
later_bytes (Token.quoted q items) = item_text q items ++ (q ∷ [])
later_bytes (Token.line_comment body) = 45 ∷ body
later_bytes (Token.block_comment body) = 42 ∷ (body ++ (42 ∷ 47 ∷ []))
later_bytes (Token.dollar_quoted tag body) = tag ++ (36 ∷ (body ++ dollar_tag tag))

abbrev pub text_of : List Token → List ℕ
text_of [] = []
text_of (t ∷ ts) = first_byte t ∷ (later_bytes t ++ text_of ts)

abbrev pub item_fits : Bool → ℕ → Item → Bool
item_fits backslash_escapes q (Item.byte b) = not (b == q) && not (backslash_escapes && b == 92)
item_fits backslash_escapes q Item.doubled = true
item_fits backslash_escapes q (Item.escaped c) = backslash_escapes

abbrev pub all_fit : Bool → ℕ → List Item → Bool
all_fit e q [] = true
all_fit e q (i ∷ items) = item_fits e q i && all_fit e q items

-- A block comment is closed nowhere before its end.
abbrev pub unclosed : List ℕ → Bool
unclosed [] = true
unclosed (b ∷ bytes) = not (b == 42 && next_is 47 bytes) && unclosed bytes

-- A tag is met nowhere in a body before the tag that follows the body.
abbrev pub untagged : List ℕ → List ℕ → List ℕ → Bool
untagged tag [] rest = true
untagged tag (b ∷ body) rest = not (starts_with tag (b ∷ (body ++ rest))) && untagged tag body rest

abbrev pub ends_line : List ℕ → Bool
ends_line [] = true
ends_line (b ∷ _) = b == 10

-- A token is written as it may be, before the bytes `rest`.
abbrev pub Fits : Bool → Token → List ℕ → Type 0
Fits e (Token.plain b) rest =
    (b ≢ 39)
    × (b ≢ 34)
    × (b ≢ semicolon)
    × (b ≢ 36)
    × ((b == 45 && next_is 45 rest) ≡ false)
    × ((b == 47 && next_is 42 rest) ≡ false)
Fits e (Token.quoted q items) rest =
    ((q == 39 || q == 34) ≡ true) × (all_fit e q items ≡ true) × (next_is q rest ≡ false)
Fits e (Token.line_comment body) rest =
    (all (λ b. not (b == 10)) body ≡ true) × (ends_line rest ≡ true)
Fits e (Token.block_comment body) rest = unclosed body ≡ true
Fits e (Token.dollar_quoted tag body) rest =
    (all is_tag_byte tag ≡ true) × (untagged (dollar_tag tag) body (dollar_tag tag ++ rest) ≡ true)

-- Tokens one after the other, before the bytes `rest`.
abbrev pub AllFit : Bool → List Token → List ℕ → Type 0
AllFit e [] rest = Unit {0}
AllFit e (t ∷ ts) rest = Fits e t (text_of ts ++ rest) × AllFit e ts rest

-- Statements one after the other, a semicolon between two of them.
abbrev pub script_text : List Token → List (List Token) → List ℕ
script_text first [] = text_of first
script_text first (next ∷ later) = text_of first ++ (semicolon ∷ script_text next later)

abbrev pub ScriptFits : Bool → List Token → List (List Token) → Type 0
ScriptFits e first [] = AllFit e first []
ScriptFits e first (next ∷ later) =
    AllFit e first (semicolon ∷ script_text next later) × ScriptFits e next later
