-- ===== src/SqlScript/Examples.antt =====
-- Concrete runs of the splitter.
use agent_db.Base.{◌≡◌, nat_eq, refl, List, false, [], ◌∷◌, ◌++◌, codes}
use agent_db.Engine.{Engine}
use agent_db.SqlScript.{
  split_statements, split_statements_impl, split_from, statement_of, advance, quote_len, line_len,
  block_len, tag_end, starts_with, body_len, comment_len, strip_from, strip_comments, is_effective,
}
use agent_db.SqlScript.Tokens.Scripts.{split_statements_impl-ScriptFits}
use agent_db.SqlScript.Tokens.{Token, Item, ScriptFits}
use agent_db.SqlScript.Trim.{trim, trim_by, white_len, white_len_back}

two_statements :
    split_statements (codes " SELECT ';' ; -- a;b\nDO $x$ ;$ $x$;/* ; */") Engine.sqlite
    ≡ codes "SELECT ';'" ∷ codes "-- a;b\nDO $x$ ;$ $x$" ∷ []
unfolding split_statements split_statements_impl split_from statement_of advance quote_len line_len
    block_len tag_end starts_with body_len comment_len strip_from strip_comments is_effective trim
    trim_by white_len white_len_back
two_statements = refl

escaped_quote : split_statements (codes "'a\\';b'") Engine.mysql ≡ codes "'a\\';b'" ∷ []
unfolding split_statements split_statements_impl split_from statement_of advance quote_len line_len
    block_len tag_end starts_with body_len comment_len strip_from strip_comments is_effective trim
    trim_by white_len white_len_back
escaped_quote = refl

-- `S 'a;''b'`, a semicolon, and `-- c;d`.
abbrev select_literal : List Token
select_literal =
    Token.plain 83
    ∷ Token.plain 32
    ∷ Token.quoted 39 (Item.byte 97 ∷ Item.byte 59 ∷ Item.doubled ∷ Item.byte 98 ∷ [])
    ∷ []

abbrev comment : List Token
comment = Token.line_comment (codes " c;d") ∷ []

literal_fits : ScriptFits false select_literal (comment ∷ [])
literal_fits = (
  (
    (λ h. cc h, λ h. cc h, λ h. cc h, λ h. cc h, refl, refl),
    ((λ h. cc h, λ h. cc h, λ h. cc h, λ h. cc h, refl, refl), ((refl, refl, refl), tt)),
  ),
  ((refl, refl), tt),
)

split_statements_impl-ScriptFits_example :
    split_statements_impl (codes "S 'a;''b';-- c;d") false
    ≡ statement_of (codes "S 'a;''b'") ++ (statement_of (codes "-- c;d") ++ [])
split_statements_impl-ScriptFits_example =
    split_statements_impl-ScriptFits false select_literal (comment ∷ []) literal_fits
