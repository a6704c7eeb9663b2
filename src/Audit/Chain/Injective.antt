-- ===== src/Audit/Chain/Injective.antt =====
-- The serialized form of an audit row tells the texts of the row apart.
use Prim.Native.String.{◌++◌}
use agent_db.Base.{
  ◌≡◌, refl, List, [], ◌∷◌, String, len, decimal, decimal_injective, decimal-all_digits, digits_end,
  same_length_end, length, arith,
}
use agent_db.Audit.Chain.{Digests, AuditFields, prefixed, push_fields, texts, canonical}

prefixed_injective : (s t x y : String) → prefixed s x ≡ prefixed t y → (s ≡ t) × (x ≡ y)
unfolding prefixed
prefixed_injective s t x y h =
    let (lengths, ends) =
      digits_end (decimal (len s)) (decimal (len t)) (s ++ x) (t ++ y) (decimal-all_digits (len s))
        (decimal-all_digits (len t)) h in
    same_length_end s t x y (decimal_injective (len s) (len t) lengths) ends

push_fields_injective :
    (ss ts : List String) → length ss ≡ length ts → push_fields ss ≡ push_fields ts → ss ≡ ts
unfolding push_fields
push_fields_injective [] [] e h = refl
push_fields_injective [] (t ∷ ts) e h = cc
push_fields_injective (s ∷ ss) [] e h = cc
push_fields_injective (s ∷ ss) (t ∷ ts) e h =
    let (same, ends) = prefixed_injective s t (push_fields ss) (push_fields ts) h in
    cc (same, push_fields_injective ss ts (omega (arith, e)) ends)

-- Two audit rows with one serialized form agree in the text of each of their ten fields.
pub canonical_injective :
    (digests : Digests) (f g : AuditFields)
    → canonical digests f ≡ canonical digests g
    → texts digests f ≡ texts digests g
unfolding canonical
canonical_injective digests f g h = push_fields_injective (texts digests f) (texts digests g) refl h
