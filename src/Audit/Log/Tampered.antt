-- ===== src/Audit/Log/Tampered.antt =====
-- Two logs that both verify and end in one hash.
use Prim.Native.Char.{code}
use Prim.Native.String.{◌++◌}
use Prim.Native.String.append
use text.Mathlib.TextLemmas.{head-eq_of_cons-eq, tail-eq_of_cons-eq}
use agent_db.Base.{
  ℕ, ◌+◌, ◌≡◌, ◌≢◌, refl, sym, ap, ◌∙◌, Bool, true, not, ◌&&◌, ◌⊎◌, inl, inr, Option, some, none,
  List, [], ◌∷◌, String, ◌==◌, nat_beq, nat_eq, text_eq, option_eq, eq_of_!=, eq_of_==, length,
  arith, Bool-cases,
}
use agent_db.Audit.Chain.{
  Digests, AuditFields, texts, canonical, separator, hash_text, or_empty, compute_hash,
}
use agent_db.Audit.Chain.Injective.{canonical_injective}
use agent_db.Audit.Log.{AuditEntry, fields_of_entry, verify_entries_from, verify_entries}

-- A text without the character that separates the previous hash from the row.
abbrev pub unseparated : String → Bool
unseparated String.[] = true
unseparated (String.◌∷◌ c s) = not (nat_beq (code c) 0x1e) && unseparated s

separated_end :
    (s t x y : String)
    → unseparated s ≡ true
    → unseparated t ≡ true
    → s ++ (String.◌∷◌ separator x) ≡ t ++ (String.◌∷◌ separator y)
    → (s ≡ t) × (x ≡ y)
separated_end String.[] String.[] x y d e h =
    (refl, tail-eq_of_cons-eq (rw (append.nil, append.nil) at h))
separated_end String.[] (String.◌∷◌ c t) x y d e h =
    let same : separator ≡ c = head-eq_of_cons-eq (rw (append.nil, append.cons) at h) in
    absurd (ground (arith, ap code same))
separated_end (String.◌∷◌ c s) String.[] x y d e h =
    let same : c ≡ separator = head-eq_of_cons-eq (rw (append.nil, append.cons) at h) in
    absurd (ground (arith, ap code same))
separated_end (String.◌∷◌ c s) (String.◌∷◌ b t) x y d e h =
    let joined : String.◌∷◌ c (s ++ (String.◌∷◌ separator x))
        ≡ String.◌∷◌ b (t ++ (String.◌∷◌ separator y)) =
      rw (append.cons, append.cons) at h in
    let (same, ends) =
      separated_end s t x y (ground arith) (ground arith) (tail-eq_of_cons-eq joined) in
    (cc (head-eq_of_cons-eq joined, same), ends)

abbrev pub last_hash : Option String → List AuditEntry → Option String
last_hash prev [] = prev
last_hash prev (e ∷ es) = last_hash (some e.hash) es

module _ (digests : Digests) where
  -- Two different texts that were hashed for two rows under one hash.
  abbrev Colliding : Option String → Option String → AuditFields → AuditFields → Type 0
  Colliding p q f g =
      (hash_text digests p f ≢ hash_text digests q g)
      × (compute_hash digests p f ≡ compute_hash digests q g)

  -- The same of two rows in one place of two logs.
  abbrev pub Collision : List AuditEntry → List AuditEntry → Type 0
  Collision [] _ = ⊥
  Collision (e ∷ es) [] = ⊥
  Collision (e ∷ es) (f ∷ fs) =
      Colliding e.prev_hash f.prev_hash (fields_of_entry e) (fields_of_entry f) ⊎ Collision es fs

  -- The audited texts of two logs agree, row by row.
  abbrev pub SameTexts : List AuditEntry → List AuditEntry → Type 0
  SameTexts [] [] = Unit {0}
  SameTexts (e ∷ es) (f ∷ fs) =
      (texts digests (fields_of_entry e) ≡ texts digests (fields_of_entry f)) × SameTexts es fs
  SameTexts _ _ = ⊥

  same_hash :
      (p q : Option String) (f g : AuditFields)
      → unseparated (or_empty p) ≡ true
      → unseparated (or_empty q) ≡ true
      → compute_hash digests p f ≡ compute_hash digests q g
      → Colliding p q f g ⊎ ((or_empty p ≡ or_empty q) × (texts digests f ≡ texts digests g))
  unfolding compute_hash
  same_hash p q f g d e h = elim (Bool-cases (hash_text digests p f == hash_text digests q g)) [
    | inl same ↦
        let (prevs, rows) =
          separated_end (or_empty p) (or_empty q) (canonical digests f) (canonical digests g) d e
            (eq_of_== (hash_text digests p f) (hash_text digests q g) same) in
        inr (prevs, canonical_injective digests f g rows)
    | inr apart ↦ inl (
      λ same. absurd (
          ground (arith, (text_eq.beq_iff (hash_text digests p f) (hash_text digests q g)).1 same)),
      h,
    )
  ]

  -- What a passing first row has shown.
  passed_row :
      (i : ℕ) (p : Option String) (e : AuditEntry) (es : List AuditEntry)
      → verify_entries_from digests i p (e ∷ es) ≡ (true, none)
      → (e.prev_hash ≡ p)
        × (compute_hash digests p (fields_of_entry e) ≡ e.hash)
        × (verify_entries_from digests (i + 1) (some e.hash) es ≡ (true, none))
  unfolding verify_entries_from
  passed_row i p e es h = ground (
    arith,
    eq_of_!= e.prev_hash p,
    eq_of_!= (compute_hash digests e.prev_hash (fields_of_entry e)) e.hash,
  )

  module _ (plain : (bytes : List ℕ) → unseparated (digests.encode bytes) ≡ true) where
    hash-unseparated :
        (p : Option String) (e : AuditEntry)
        → compute_hash digests p (fields_of_entry e) ≡ e.hash
        → unseparated e.hash ≡ true
    unfolding compute_hash
    hash-unseparated p e h = rw (← h) (plain _)

    same_from :
        (i j : ℕ) (p q : Option String) (es fs : List AuditEntry)
        → unseparated (or_empty p) ≡ true
        → unseparated (or_empty q) ≡ true
        → length es ≡ length fs
        → verify_entries_from digests i p es ≡ (true, none)
        → verify_entries_from digests j q fs ≡ (true, none)
        → or_empty (last_hash p es) ≡ or_empty (last_hash q fs)
        → Collision es fs ⊎ ((or_empty p ≡ or_empty q) × SameTexts es fs)
    same_from i j p q [] [] d e n h k l = inr (l, tt)
    same_from i j p q [] (f ∷ fs) d e n h k l = absurd (omega (arith, n))
    same_from i j p q (x ∷ es) [] d e n h k l = absurd (omega (arith, n))
    same_from i j p q (x ∷ es) (f ∷ fs) d e n h k l =
        let (px, hx, later) = passed_row i p x es h in
        let (pf, hf, later') = passed_row j q f fs k in
        elim (same_from (i + 1) (j + 1) (some x.hash) (some f.hash) es fs (hash-unseparated p x hx)
          (hash-unseparated q f hf) (omega (arith, n)) later later' l) [
            | inl c ↦ inl (inr c)
            | inr (hashes, rest) ↦
                elim (same_hash p q (fields_of_entry x) (fields_of_entry f) d e
                  (hx ∙ hashes ∙ sym hf)) [
                    | inl c ↦ inl (inl (rw (px, pf) c))
                    | inr (prevs, row) ↦ inr (prevs, (row, rest))
                  ]
          ]

    -- Where hexadecimal text never holds U+001E: two logs of as many rows that both verify and end in
    -- one hash have the same audited texts in the same rows, or in some place their two rows were
    -- hashed from different texts to one hash.
    pub verify_entries-SameTexts :
        (es fs : List AuditEntry)
        → length es ≡ length fs
        → verify_entries digests es ≡ (true, none)
        → verify_entries digests fs ≡ (true, none)
        → last_hash none es ≡ last_hash none fs
        → Collision es fs ⊎ SameTexts es fs
    unfolding verify_entries
    verify_entries-SameTexts es fs n h k l =
        elim (same_from 0 0 none none es fs refl refl n h k (ap or_empty l)) [
          | inl c ↦ inl c
          | inr (_, same) ↦ inr same
        ]
