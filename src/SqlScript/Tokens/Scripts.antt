-- ===== src/SqlScript/Tokens/Scripts.antt =====
-- What the splitter makes of a script that is written as tokens.
use agent_db.Base.{
  ℕ, suc, ◌-◌, ◌≡◌, ◌≢◌, refl, ap, sym, ◌∙◌, Bool, false, List, [], ◌∷◌, ◌++◌, ◌==◌, nat_eq, length,
  arith,
}
use mathlib.Core.List.{append_assoc, append-nil}
use agent_db.SqlScript.{semicolon, advance, statement_of, split_from, split_statements_impl}
use agent_db.SqlScript.Tokens.{
  statements, Token, first_byte, later_bytes, text_of, AllFit, script_text, ScriptFits,
}
use agent_db.SqlScript.Tokens.Lengths.{advance-Fits}

split_from-skip :
    (e : Bool) (segment bytes rest : List ℕ)
    → split_from e (length bytes) segment (bytes ++ rest) ≡ split_from e 0 (segment ++ bytes) rest
unfolding split_from
split_from-skip e segment [] rest = ap (λ s. split_from e 0 s rest) (sym (append-nil segment))
split_from-skip e segment (b ∷ bytes) rest =
    split_from-skip e (segment ++ (b ∷ [])) bytes rest
    ∙ ap (λ s. split_from e 0 s rest) (append_assoc segment (b ∷ []) bytes)

split_from-token :
    (e : Bool) (segment bytes rest : List ℕ) (b : ℕ)
    → b ≢ semicolon
    → advance e b (bytes ++ rest) ≡ suc (length bytes)
    → split_from e 0 segment (b ∷ (bytes ++ rest)) ≡ split_from e 0 (segment ++ (b ∷ bytes)) rest
unfolding split_from
split_from-token e segment bytes rest b apart moved =
    let inside : (b == semicolon) ≡ false = ground (arith, apart) in
    let past : advance e b (bytes ++ rest) - 1 ≡ length bytes = omega (arith, moved) in
    rw (inside, past, split_from)
      (split_from-skip e (segment ++ (b ∷ [])) bytes rest
        ∙ ap (λ s. split_from e 0 s rest) (append_assoc segment (b ∷ []) bytes))

split_from-AllFit :
    (e : Bool) (ts : List Token) (segment rest : List ℕ)
    → AllFit e ts rest
    → split_from e 0 segment (text_of ts ++ rest) ≡ split_from e 0 (segment ++ text_of ts) rest
split_from-AllFit e [] segment rest f = ap (λ s. split_from e 0 s rest) (sym (append-nil segment))
split_from-AllFit e (t ∷ ts) segment rest (fit, f) =
    let (apart, moved) = advance-Fits e t (text_of ts ++ rest) fit in
    ap (λ bytes. split_from e 0 segment (first_byte t ∷ bytes))
      (append_assoc (later_bytes t) (text_of ts) rest)
    ∙ split_from-token e segment (later_bytes t) (text_of ts ++ rest) (first_byte t) apart moved
    ∙ split_from-AllFit e ts (segment ++ (first_byte t ∷ later_bytes t)) rest f
    ∙ ap (λ s. split_from e 0 s rest)
        (append_assoc segment (first_byte t ∷ later_bytes t) (text_of ts))

split_from-semicolon :
    (e : Bool) (segment rest : List ℕ)
    → split_from e 0 segment (semicolon ∷ rest) ≡ statement_of segment ++ split_from e 0 [] rest
unfolding split_from
split_from-semicolon e segment rest = refl

split_from-end : (e : Bool) (segment : List ℕ) → split_from e 0 segment [] ≡ statement_of segment
unfolding split_from
split_from-end e segment = refl

abbrev pub texts_of : List (List Token) → List (List ℕ)
texts_of [] = []
texts_of (ts ∷ later) = text_of ts ∷ texts_of later

split_from-ScriptFits :
    (e : Bool) (first : List Token) (later : List (List Token))
    → ScriptFits e first later
    → split_from e 0 [] (script_text first later)
      ≡ statement_of (text_of first) ++ statements (texts_of later)
split_from-ScriptFits e first [] f =
    ap (split_from e 0 []) (sym (append-nil (text_of first)))
    ∙ split_from-AllFit e first [] [] f
    ∙ split_from-end e (text_of first)
    ∙ sym (append-nil (statement_of (text_of first)))
split_from-ScriptFits e first (next ∷ later) (fit, f) =
    split_from-AllFit e first [] (semicolon ∷ script_text next later) fit
    ∙ split_from-semicolon e (text_of first) (script_text next later)
    ∙ ap (λ out. statement_of (text_of first) ++ out) (split_from-ScriptFits e next later f)

-- A script whose statements are written as tokens, with a semicolon between two statements, is split
-- into them, whatever semicolons the tokens hold: the answer is what `push_statement` makes of each
-- statement, in order. The tokens are bytes other than semicolons, quoted literals with their quotes
-- doubled or escaped, line comments, block comments and dollar-quoted bodies; backslashes escape only
-- where the flag says so, and a dollar sign only begins a dollar quote.
pub split_statements_impl-ScriptFits :
    (backslash_escapes : Bool) (first : List Token) (later : List (List Token))
    → ScriptFits backslash_escapes first later
    → split_statements_impl (script_text first later) backslash_escapes
      ≡ statement_of (text_of first) ++ statements (texts_of later)
unfolding split_statements_impl
split_statements_impl-ScriptFits e first later f = split_from-ScriptFits e first later f
