-- ===== src/SqlScript/Tokens/Lengths.antt =====
-- How far the splitter moves over each token.
use agent_db.Base.{
  ℕ, suc, ◌+◌, ◌≡◌, ◌≢◌, refl, ap, ◌∙◌, min, Bool, true, false, not, ◌||◌, some, List, [], ◌∷◌,
  ◌++◌, ◌==◌, nat_eq, all, take, drop, length, length-append, arith,
}
use mathlib.Core.List.{append_assoc}
use agent_db.SqlScript.{
  semicolon, quote_len, line_len, block_len, is_tag_byte, tag_end, starts_with, body_len, next_is,
  comment_len, dollar_len, advance,
}
use agent_db.SqlScript.Tokens.{
  Item, Token, item_text, dollar_tag, first_byte, later_bytes, all_fit, unclosed, untagged,
  ends_line, Fits,
}

quote_len-items :
    (e : Bool) (q : ℕ) (items : List Item) (rest : List ℕ)
    → all_fit e q items ≡ true
    → next_is q rest ≡ false
    → (q == 92) ≡ false
    → quote_len e q (item_text q items ++ (q ∷ rest)) ≡ suc (length (item_text q items))
unfolding quote_len
quote_len-items e q [] [] f n k = refl
quote_len-items e q [] (r ∷ rest) f n k = ground arith
quote_len-items e q (Item.byte b ∷ []) rest f n k = ground (arith, quote_len-items e q [] rest)
quote_len-items e q (Item.byte b ∷ Item.byte c ∷ items) rest f n k =
    ground (arith, quote_len-items e q (Item.byte c ∷ items) rest)
quote_len-items e q (Item.byte b ∷ Item.doubled ∷ items) rest f n k =
    ground (arith, quote_len-items e q (Item.doubled ∷ items) rest)
quote_len-items e q (Item.byte b ∷ Item.escaped c ∷ items) rest f n k =
    ground (arith, quote_len-items e q (Item.escaped c ∷ items) rest)
quote_len-items e q (Item.doubled ∷ items) rest f n k =
    ground (arith, quote_len-items e q items rest)
quote_len-items e q (Item.escaped c ∷ items) rest f n k =
    ground (arith, quote_len-items e q items rest)

line_len-body :
    (body rest : List ℕ)
    → all (λ b. not (b == 10)) body ≡ true
    → ends_line rest ≡ true
    → line_len (body ++ rest) ≡ length body
unfolding line_len
line_len-body [] [] a r = refl
line_len-body [] (c ∷ rest) a r = ground arith
line_len-body (b ∷ body) rest a r = ground (arith, line_len-body body rest)

block_len-body :
    (body rest : List ℕ) → unclosed body ≡ true → block_len (body ++ (42 ∷ 47 ∷ rest)) ≡ length body
unfolding block_len
block_len-body [] rest u = refl
block_len-body (b ∷ []) rest u = ground (arith, block_len-body [] rest)
block_len-body (b ∷ c ∷ body) rest u = ground (arith, block_len-body (c ∷ body) rest)

tag_end-tag :
    (tag rest : List ℕ)
    → all is_tag_byte tag ≡ true
    → tag_end (tag ++ (36 ∷ rest)) ≡ some (length tag + 2)
unfolding tag_end
tag_end-tag [] rest a = refl
tag_end-tag (b ∷ tag) rest a = ground (arith, tag_end-tag tag rest)

starts_with_self : (tag rest : List ℕ) → starts_with tag (tag ++ rest) ≡ true
unfolding starts_with
starts_with_self [] rest = refl
starts_with_self (t ∷ tag) rest = ground (arith, starts_with_self tag rest)

body_len-body :
    (b : ℕ) (tag body rest : List ℕ)
    → untagged (b ∷ tag) body ((b ∷ tag) ++ rest) ≡ true
    → body_len (b ∷ tag) (body ++ ((b ∷ tag) ++ rest)) ≡ length body + length (b ∷ tag)
unfolding body_len
body_len-body b tag [] rest u = ground (arith, starts_with_self (b ∷ tag) rest)
body_len-body b tag (c ∷ body) rest u = ground (arith, body_len-body b tag body rest)

split_tag :
    (tag rest : List ℕ)
    → (take (length tag) (tag ++ rest) ≡ tag) × (drop (length tag) (tag ++ rest) ≡ rest)
split_tag [] rest = (refl, refl)
split_tag (b ∷ tag) rest = let (t, d) = split_tag tag rest in (ap (λ x. b ∷ x) t, d)

advance-plain :
    (e : Bool) (b : ℕ) (rest : List ℕ) → Fits e (Token.plain b) rest → advance e b rest ≡ 1
unfolding advance
advance-plain e b rest f = ground (arith, f)

advance-quote :
    (e : Bool) (q : ℕ) (bytes : List ℕ)
    → (q == 39 || q == 34) ≡ true
    → (q ≢ semicolon) × ((q == 92) ≡ false) × (advance e q bytes ≡ suc (quote_len e q bytes))
unfolding advance
advance-quote e q bytes h = ground arith

advance-line : (e : Bool) (bytes : List ℕ) → advance e 45 (45 ∷ bytes) ≡ 2 + line_len bytes
unfolding advance comment_len line_len
advance-line e bytes = omega arith

advance-block :
    (e : Bool) (bytes : List ℕ)
    → advance e 47 (42 ∷ bytes) ≡ min (4 + block_len bytes) (2 + length bytes)
unfolding advance comment_len
advance-block e bytes = omega arith

advance-dollar : (e : Bool) (bytes : List ℕ) → advance e 36 bytes ≡ dollar_len bytes (tag_end bytes)
unfolding advance
advance-dollar e bytes = refl

same_body :
    (n m : ℕ) (xs ys : List ℕ) {t d : List ℕ}
    → n ≡ m
    → xs ≡ ys
    → take n xs ≡ t
    → drop n xs ≡ d
    → body_len (take m ys) (drop m ys) ≡ body_len t d
same_body n m xs ys e h k l = cc (e, h, k, l)

dollar_len-body :
    (tag body rest : List ℕ)
    → untagged (dollar_tag tag) body (dollar_tag tag ++ rest) ≡ true
    → dollar_len (tag ++ (36 ∷ (body ++ (dollar_tag tag ++ rest)))) (some (length tag + 2))
      ≡ length tag + 2 + (length body + (length tag + 2))
dollar_len-body tag body rest u =
    let after = body ++ (dollar_tag tag ++ rest) in
    let (taken, dropped) = split_tag (dollar_tag tag) after in
    let two : length (dollar_tag tag) ≡ length tag + 2 =
      omega (arith, length-append tag (36 ∷ [])) in
    let whole : dollar_tag tag ++ after ≡ 36 ∷ (tag ++ (36 ∷ after)) =
      ap (λ bytes. 36 ∷ bytes) (append_assoc tag (36 ∷ []) after) in
    let found = body_len-body 36 (tag ++ (36 ∷ [])) body rest u in
    omega (
      arith,
      two,
      found,
      same_body (length (dollar_tag tag)) (length tag + 2) (dollar_tag tag ++ after)
          (36 ∷ (tag ++ (36 ∷ after))) two whole taken dropped,
    )

-- A token is as long for the splitter as it is written.
pub advance-Fits :
    (e : Bool) (t : Token) (rest : List ℕ)
    → Fits e t rest
    → (first_byte t ≢ semicolon)
      × (advance e (first_byte t) (later_bytes t ++ rest) ≡ suc (length (later_bytes t)))
advance-Fits e (Token.plain b) rest f = (f.2, advance-plain e b rest f)
advance-Fits e (Token.quoted q items) rest (quote, fit, next) =
    let (apart, slash, opened) =
      advance-quote e q (later_bytes (Token.quoted q items) ++ rest) quote in
    (
      apart,
      opened
          ∙ ap suc (
              ap (quote_len e q) (append_assoc (item_text q items) (q ∷ []) rest)
              ∙ quote_len-items e q items rest fit next slash
              ∙ omega (arith, length-append (item_text q items) (q ∷ []))),
    )
advance-Fits e (Token.line_comment body) rest (inside, ends) = (
  λ h. omega (arith, h),
  omega (arith, advance-line e (body ++ rest), line_len-body body rest inside ends),
)
advance-Fits e (Token.block_comment body) rest f =
    let bytes = append_assoc body (42 ∷ 47 ∷ []) rest in
    let long = ap block_len bytes ∙ block_len-body body rest f in
    (
      λ h. omega (arith, h),
      advance-block e ((body ++ (42 ∷ 47 ∷ [])) ++ rest)
          ∙ omega (
            arith,
            long,
            length-append body (42 ∷ 47 ∷ []),
            length-append (body ++ (42 ∷ 47 ∷ [])) rest,
          ),
    )
advance-Fits e (Token.dollar_quoted tag body) rest (named, inside) =
    let bytes : later_bytes (Token.dollar_quoted tag body) ++ rest
        ≡ tag ++ (36 ∷ (body ++ (dollar_tag tag ++ rest))) =
      append_assoc tag (36 ∷ (body ++ dollar_tag tag)) rest
      ∙ ap (λ x. tag ++ (36 ∷ x)) (append_assoc body (dollar_tag tag) rest) in
    (
      λ h. omega (arith, h),
      ap (advance e 36) bytes
          ∙ advance-dollar e _
          ∙ ap (dollar_len (tag ++ (36 ∷ (body ++ (dollar_tag tag ++ rest)))))
              (tag_end-tag tag (body ++ (dollar_tag tag ++ rest)) named)
          ∙ dollar_len-body tag body rest inside
          ∙ omega (
            arith,
            length-append tag (36 ∷ (body ++ dollar_tag tag)),
            length-append body (dollar_tag tag),
            length-append tag (36 ∷ []),
          ),
    )
