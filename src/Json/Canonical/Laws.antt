-- ===== src/Json/Canonical/Laws.antt =====
-- `canonical_value`, canonical values, and the order of entries.
use agent_db.Base.{◌≡◌, refl, ◌≢◌, ap, ◌∙◌, true, false, inl, inr, Bool-cases, String, arith}
use agent_db.Json.{Value, Items, Fields}
use agent_db.Json.TextOrder.{text_le, text_le_total, text_le_trans, text_le_antisymm}
use agent_db.Json.Canonical.{insert_field, canonical_value, canonical_items, canonical_fields}

-- Keys that are sorted where they meet, and values that are canonical.
abbrev Leads : String → Fields → Type 0
Leads k Fields.end = Unit {0}
Leads k (Fields.field j v fs) = text_le k j ≡ true

mutual
  pub IsCanonical : Value → Type 0
  IsCanonical (Value.array xs) = AllCanonical xs
  IsCanonical (Value.object fs) = SortedFields fs
  IsCanonical Value.null = Unit {0}
  IsCanonical (Value.bool b) = Unit {0}
  IsCanonical (Value.number n) = Unit {0}
  IsCanonical (Value.string s) = Unit {0}

  AllCanonical : Items → Type 0
  AllCanonical Items.nil = Unit {0}
  AllCanonical (Items.cons x xs) = IsCanonical x × AllCanonical xs

  SortedFields : Fields → Type 0
  SortedFields Fields.end = Unit {0}
  SortedFields (Fields.field k v fs) = Leads k fs × IsCanonical v × SortedFields fs

Leads-insert :
    (j k : String) (v : Value) (fs : Fields)
    → text_le j k ≡ true
    → Leads j fs
    → Leads j (insert_field k v fs)
unfolding insert_field
Leads-insert j k v Fields.end h l = h
Leads-insert j k v (Fields.field i w fs) h l = ground arith

insert_field-Sorted :
    (k : String) (v : Value) (fs : Fields)
    → IsCanonical v
    → SortedFields fs
    → SortedFields (insert_field k v fs)
unfolding insert_field IsCanonical
insert_field-Sorted k v Fields.end c s = (tt, c, tt)
insert_field-Sorted k v (Fields.field j w fs) c s =
    ground (arith, insert_field-Sorted k v fs c s.2, Leads-insert j k v fs, text_le_total k j, s)

mutual
  unfolding canonical_value IsCanonical

  canonical_value-IsCanonical : (v : Value) → IsCanonical (canonical_value v)
  canonical_value-IsCanonical (Value.array xs) = canonical_items-All xs
  canonical_value-IsCanonical (Value.object fs) = canonical_fields-Sorted fs
  canonical_value-IsCanonical Value.null = tt
  canonical_value-IsCanonical (Value.bool b) = tt
  canonical_value-IsCanonical (Value.number n) = tt
  canonical_value-IsCanonical (Value.string s) = tt

  canonical_items-All : (xs : Items) → AllCanonical (canonical_items xs)
  canonical_items-All Items.nil = tt
  canonical_items-All (Items.cons x xs) = (canonical_value-IsCanonical x, canonical_items-All xs)

  canonical_fields-Sorted : (fs : Fields) → SortedFields (canonical_fields fs)
  canonical_fields-Sorted Fields.end = tt
  canonical_fields-Sorted (Fields.field k v fs) =
      insert_field-Sorted k (canonical_value v) (canonical_fields fs)
        (canonical_value-IsCanonical v) (canonical_fields-Sorted fs)

insert_field_front :
    (k : String) (v : Value) (fs : Fields) → Leads k fs → insert_field k v fs ≡ Fields.field k v fs
unfolding insert_field
insert_field_front k v Fields.end l = refl
insert_field_front k v (Fields.field j w fs) l = rw l

mutual
  unfolding canonical_value IsCanonical

  IsCanonical-fixed : (v : Value) → IsCanonical v → canonical_value v ≡ v
  IsCanonical-fixed (Value.array xs) c = ap Value.array (AllCanonical-fixed xs c)
  IsCanonical-fixed (Value.object fs) c = ap Value.object (SortedFields-fixed fs c)
  IsCanonical-fixed Value.null c = refl
  IsCanonical-fixed (Value.bool b) c = refl
  IsCanonical-fixed (Value.number n) c = refl
  IsCanonical-fixed (Value.string s) c = refl

  AllCanonical-fixed : (xs : Items) → AllCanonical xs → canonical_items xs ≡ xs
  AllCanonical-fixed Items.nil c = refl
  AllCanonical-fixed (Items.cons x xs) c = cc (IsCanonical-fixed x c.0, AllCanonical-fixed xs c.1)

  SortedFields-fixed : (fs : Fields) → SortedFields fs → canonical_fields fs ≡ fs
  SortedFields-fixed Fields.end c = refl
  SortedFields-fixed (Fields.field k v fs) c =
      rw (IsCanonical-fixed v c.1, SortedFields-fixed fs c.2) (insert_field_front k v fs c.0)

-- Canonicalising twice is canonicalising once.
pub canonical_value-idempotent :
    (v : Value) → canonical_value (canonical_value v) ≡ canonical_value v
canonical_value-idempotent v = IsCanonical-fixed (canonical_value v) (canonical_value-IsCanonical v)

insert_field_comm :
    (k j : String) (v w : Value) (fs : Fields)
    → k ≢ j
    → insert_field k v (insert_field j w fs) ≡ insert_field j w (insert_field k v fs)
unfolding insert_field
insert_field_comm k j v w Fields.end h = ground (arith, text_le_total k j, text_le_antisymm k j)
insert_field_comm k j v w (Fields.field i u fs) h = ground (
  arith,
  text_le_total k j,
  text_le_antisymm k j,
  text_le_trans k j i,
  text_le_trans j k i,
  insert_field_comm k j v w fs h,
)

-- Two JSON values that differ only in the order of the entries of their objects, at any depth.
mutual
  pub data Reordered : Value → Value → Type 0 where
    same : {v : Value} → Reordered v v
    in_array : {xs ys : Items} → ReorderedItems xs ys → Reordered (Value.array xs) (Value.array ys)
    in_object :
        {fs gs : Fields} → ReorderedFields fs gs → Reordered (Value.object fs) (Value.object gs)

  pub data ReorderedItems : Items → Items → Type 0 where
    no_items : ReorderedItems Items.nil Items.nil
    items :
        {x y : Value} {xs ys : Items}
        → Reordered x y
        → ReorderedItems xs ys
        → ReorderedItems (Items.cons x xs) (Items.cons y ys)

  pub data ReorderedFields : Fields → Fields → Type 0 where
    no_fields : ReorderedFields Fields.end Fields.end
    fields :
        {k : String} {v w : Value} {fs gs : Fields}
        → Reordered v w
        → ReorderedFields fs gs
        → ReorderedFields (Fields.field k v fs) (Fields.field k w gs)
    swap :
        {k j : String} {v w : Value} {fs : Fields}
        → k ≢ j
        → ReorderedFields
            (Fields.field k v (Fields.field j w fs))
            (Fields.field j w (Fields.field k v fs))
    chain :
        {fs gs hs : Fields} → ReorderedFields fs gs → ReorderedFields gs hs → ReorderedFields fs hs

fields_same : (fs : Fields) → ReorderedFields fs fs
fields_same Fields.end = no_fields
fields_same (Fields.field k v fs) = fields same (fields_same fs)

apart : (k j : String) → text_le k j ≡ false → k ≢ j
apart k j h e = absurd (ground (arith, text_le_total k k, rw e at h))

insert_field-Reordered :
    (k : String) (v : Value) (fs : Fields)
    → ReorderedFields (Fields.field k v fs) (insert_field k v fs)
unfolding insert_field
insert_field-Reordered k v Fields.end = fields_same (Fields.field k v Fields.end)
insert_field-Reordered k v (Fields.field j w fs) = elim (Bool-cases (text_le k j)) [
  | inl e ↦ rw e (fields_same (Fields.field k v (Fields.field j w fs)))
  | inr e ↦ rw e (chain (swap (apart k j e)) (fields same (insert_field-Reordered k v fs)))
]

mutual
  unfolding canonical_value

  value_rearranged : (v : Value) → Reordered v (canonical_value v)
  value_rearranged (Value.array xs) = in_array (items_rearranged xs)
  value_rearranged (Value.object fs) = in_object (fields_rearranged fs)
  value_rearranged Value.null = same
  value_rearranged (Value.bool b) = same
  value_rearranged (Value.number n) = same
  value_rearranged (Value.string s) = same

  items_rearranged : (xs : Items) → ReorderedItems xs (canonical_items xs)
  items_rearranged Items.nil = no_items
  items_rearranged (Items.cons x xs) = items (value_rearranged x) (items_rearranged xs)

  fields_rearranged : (fs : Fields) → ReorderedFields fs (canonical_fields fs)
  fields_rearranged Fields.end = no_fields
  fields_rearranged (Fields.field k v fs) =
      chain (fields (value_rearranged v) (fields_rearranged fs))
        (insert_field-Reordered k (canonical_value v) (canonical_fields fs))

-- `canonical_value` gives the same value with the entries of its objects in another order, at any
-- depth: in the order of their keys.
pub canonical_value-Sorted :
    (v : Value) → IsCanonical (canonical_value v) × Reordered v (canonical_value v)
canonical_value-Sorted v = (canonical_value-IsCanonical v, value_rearranged v)

mutual
  unfolding canonical_value

  canonical_value_of : {v w : Value} → Reordered v w → canonical_value v ≡ canonical_value w
  canonical_value_of same = refl
  canonical_value_of (in_array r) = ap Value.array (canonical_items_of r)
  canonical_value_of (in_object r) = ap Value.object (canonical_fields_of r)

  canonical_items_of :
      {xs ys : Items} → ReorderedItems xs ys → canonical_items xs ≡ canonical_items ys
  canonical_items_of no_items = refl
  canonical_items_of (items r rs) = cc (canonical_value_of r, canonical_items_of rs)

  canonical_fields_of :
      {fs gs : Fields} → ReorderedFields fs gs → canonical_fields fs ≡ canonical_fields gs
  canonical_fields_of no_fields = refl
  canonical_fields_of (fields {k} r rs) = cc (canonical_value_of r, canonical_fields_of rs)
  canonical_fields_of (swap {k} {j} {v} {w} {fs} d) =
      insert_field_comm k j (canonical_value v) (canonical_value w) (canonical_fields fs) d
  canonical_fields_of (chain r s) = canonical_fields_of r ∙ canonical_fields_of s

-- Values that differ only in the order of object entries have one canonical form.
pub canonical_value-Reordered :
    {v w : Value} → Reordered v w → canonical_value v ≡ canonical_value w
canonical_value-Reordered r = canonical_value_of r
