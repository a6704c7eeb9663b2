-- ===== src/SqlScript.antt =====
-- src-tauri/src/sql_script/mod.rs: cutting a SQL script into statements. A text is the list of its
-- UTF-8 bytes; where the source moves its index over several bytes at once, `skip` counts the bytes
-- still to pass.
pub mod Trim
pub mod Tokens
mod Examples
use agent_db.Base.{
  ℕ, zero, suc, ◌+◌, ◌-◌, min, Bool, true, false, not, ◌&&◌, ◌||◌, Option, none, some, List, [],
  ◌∷◌, ◌++◌, ◌==◌, nat_eq, leb, all, take, drop, length, is_whitespace, if◌then◌else◌,
}
use agent_db.Engine.{Engine}
use agent_db.SqlScript.Trim.{trim}

abbrev pub semicolon : ℕ
semicolon = 59

-- The bytes of a quoted literal after its opening quote.
unfoldable pub quote_len : Bool → ℕ → List ℕ → ℕ
quote_len backslash_escapes quote [] = 0
quote_len backslash_escapes quote (b ∷ []) = 1
quote_len backslash_escapes quote (b ∷ c ∷ bytes) = elim (backslash_escapes && b == 92) [
  | true ↦ 2 + quote_len backslash_escapes quote bytes
  | false ↦ elim (b == quote) [
    | true ↦ elim (c == quote) [ true ↦ 2 + quote_len backslash_escapes quote bytes | false ↦ 1 ]
    | false ↦ 1 + quote_len backslash_escapes quote (c ∷ bytes)
  ]
]

-- The bytes of a line comment, up to the end of the line.
unfoldable pub line_len : List ℕ → ℕ
line_len [] = 0
line_len (b ∷ bytes) = let rest = line_len bytes in if b == 10 then 0 else 1 + rest

-- The bytes of a block comment before its closing mark.
unfoldable pub block_len : List ℕ → ℕ
block_len [] = 0
block_len (b ∷ []) = 0
block_len (b ∷ c ∷ bytes) =
    let rest = block_len (c ∷ bytes) in if b == 42 && c == 47 then 0 else 1 + rest

abbrev pub is_tag_byte : ℕ → Bool
is_tag_byte b =
    (leb 48 b && leb b 57) || (leb 65 b && leb b 90) || (leb 97 b && leb b 122) || b == 95

-- `dollar_tag_len` on the bytes after the first dollar.
unfoldable pub tag_end : List ℕ → Option ℕ
tag_end [] = none
tag_end (b ∷ bytes) = elim (is_tag_byte b) [
  | true ↦ elim (tag_end bytes) [ none ↦ none | some n ↦ some (suc n) ]
  | false ↦ if b == 36 then some 2 else none
]

unfoldable pub starts_with : List ℕ → List ℕ → Bool
starts_with [] bytes = true
starts_with (t ∷ tag) [] = false
starts_with (t ∷ tag) (b ∷ bytes) = t == b && starts_with tag bytes

-- The bytes of a dollar-quoted body and the tag that closes it.
unfoldable pub body_len : List ℕ → List ℕ → ℕ
body_len tag [] = 0
body_len tag (b ∷ bytes) =
    let rest = body_len tag bytes in if starts_with tag (b ∷ bytes) then length tag else 1 + rest

abbrev pub next_is : ℕ → List ℕ → Bool
next_is c [] = false
next_is c (b ∷ _) = b == c

-- A comment at the start of these bytes: its length, or 0 where there is none.
unfoldable pub comment_len : List ℕ → ℕ
comment_len [] = 0
comment_len (b ∷ bytes) =
    if b == 45 && next_is 45 bytes
    then line_len (b ∷ bytes)
    else if b == 47 && next_is 42 bytes
    then min (4 + block_len (drop 1 bytes)) (suc (length bytes))
    else 0

abbrev pub dollar_len : List ℕ → Option ℕ → ℕ
dollar_len bytes none = 1
dollar_len bytes (some len) = len + body_len (take len (36 ∷ bytes)) (drop len (36 ∷ bytes))

-- How far one round moves the index from a byte, its bytes after it.
unfoldable pub advance : Bool → ℕ → List ℕ → ℕ
advance backslash_escapes b bytes =
    if b == 39 || b == 34
    then 1 + quote_len backslash_escapes b bytes
    else if (b == 45 && next_is 45 bytes) || (b == 47 && next_is 42 bytes)
    then comment_len (b ∷ bytes)
    else if b == 36
    then dollar_len bytes (tag_end bytes)
    else 1

-- The bytes that are no comment.
unfoldable pub strip_from : (skip : ℕ) → List ℕ → List ℕ
strip_from skip [] = []
strip_from (suc skip) (b ∷ bytes) = strip_from skip bytes
strip_from zero (b ∷ bytes) = elim (comment_len (b ∷ bytes)) [
  | zero ↦ b ∷ strip_from zero bytes
  | suc skip ↦ strip_from skip bytes
]

unfoldable pub strip_comments : List ℕ → List ℕ
unfolding strip_from
strip_comments sql = strip_from 0 sql

-- `strip_comments` makes a character of every byte.
unfoldable pub is_effective : List ℕ → Bool
unfolding strip_comments
is_effective statement = not (all is_whitespace (strip_comments statement))

abbrev is_empty : List ℕ → Bool
is_empty [] = true
is_empty (_ ∷ _) = false

-- `push_statement`: what it appends.
unfoldable pub statement_of : List ℕ → List (List ℕ)
unfolding is_effective
statement_of raw =
    let statement = trim raw in
    if not (is_empty statement) && is_effective statement then statement ∷ [] else []

-- The loop of `split_statements_impl`; `segment` is the text from `start` to the index.
unfoldable pub split_from : Bool → (skip : ℕ) (segment bytes : List ℕ) → List (List ℕ)
unfolding statement_of
split_from backslash_escapes skip segment [] = statement_of segment
split_from backslash_escapes (suc skip) segment (b ∷ bytes) =
    split_from backslash_escapes skip (segment ++ (b ∷ [])) bytes
split_from backslash_escapes zero segment (b ∷ bytes) = elim (b == semicolon) [
  | true ↦ statement_of segment ++ split_from backslash_escapes 0 [] bytes
  | false ↦
      split_from backslash_escapes (advance backslash_escapes b bytes - 1) (segment ++ (b ∷ []))
        bytes
]

unfoldable pub split_statements_impl : List ℕ → Bool → List (List ℕ)
unfolding split_from
split_statements_impl sql backslash_escapes = split_from backslash_escapes 0 [] sql

abbrev is_mysql : Engine → Bool
is_mysql Engine.mysql = true
is_mysql _ = false

unfoldable pub split_statements : List ℕ → Engine → List (List ℕ)
unfolding split_statements_impl
split_statements sql engine = split_statements_impl sql (is_mysql engine)
