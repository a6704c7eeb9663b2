-- ===== src/Protocol/Selector.antt =====
-- dopedb-protocol/src/connection.rs: how a connection is named in a command. Parsing and printing an
-- id, of the crate uuid, are parameters.
use Prim.Native.Char.{Char, code}
use Prim.Native.String.{◌++◌}
use Prim.Native.String.append
use text.Mathlib.TextLemmas.{head-eq_of_cons-eq}
use agent_db.Base.{
  ℕ, ◌≤◌, ◌≡◌, ◌↔◌, refl, ap, ◌∙◌, inl, inr, Bool, true, false, not, ◌&&◌, ◌||◌, Option, none, some,
  String, len, ◌==◌, nat_eq, text_eq, eq_of_==, ltb, leb, all_chars, Bool-cases, if◌then◌else◌,
  arith,
}
use agent_db.Operations.Model.{Uuid}

pub data ConnectionSelector : Type 0 where
  id : Uuid → ConnectionSelector
  name : String → ConnectionSelector
  current : ConnectionSelector

pub data SelectorResult : Type 0 where
  ok : ConnectionSelector → SelectorResult
  missing_kind invalid_id invalid_name : SelectorResult

pub record UuidText : Type 0 where
  pub parse_str : String → Option Uuid
  pub to_text : Uuid → String

abbrev pub max_connection_name_bytes : ℕ
max_connection_name_bytes = 256

unfoldable pub strip_prefix : String → String → Option String
strip_prefix String.[] s = some s
strip_prefix (String.◌∷◌ c p) String.[] = none
strip_prefix (String.◌∷◌ c p) (String.◌∷◌ d s) =
    let rest = strip_prefix p s in if code c == code d then rest else none

abbrev pub is_empty_text : String → Bool
is_empty_text String.[] = true
is_empty_text (String.◌∷◌ _ _) = false

-- `char::is_control`.
abbrev pub is_control : ℕ → Bool
is_control c = leb c 0x1f || (leb 0x7f c && leb c 0x9f)

-- The test of a name that is refused.
abbrev pub is_bad_name : String → Bool
is_bad_name s =
    is_empty_text s
    || ltb max_connection_name_bytes (len s)
    || not (all_chars (λ c. not (is_control c)) s)

abbrev pub named : String → SelectorResult
named s =
    if is_bad_name s
    then SelectorResult.invalid_name
    else SelectorResult.ok (ConnectionSelector.name s)

module _ (uuid : UuidText) where
  abbrev pub identified : String → SelectorResult
  identified s = elim (uuid.parse_str s) [
    | none ↦ SelectorResult.invalid_id
    | some u ↦ SelectorResult.ok (ConnectionSelector.id u)
  ]

  unfoldable pub from_str : String → SelectorResult
  from_str value =
      if value == "current"
      then SelectorResult.ok ConnectionSelector.current
      else elim (strip_prefix "id:" value) [
        | some text ↦ identified text
        | none ↦ elim (strip_prefix "name:" value) [
          | some text ↦ named text
          | none ↦ SelectorResult.missing_kind
        ]
      ]

  unfoldable pub to_string : ConnectionSelector → String
  to_string (ConnectionSelector.id u) = "id:" ++ uuid.to_text u
  to_string (ConnectionSelector.name s) = "name:" ++ s
  to_string ConnectionSelector.current = "current"

-- A name that may be written after `name:`.
abbrev pub Nameable : ConnectionSelector → Type 0
Nameable (ConnectionSelector.name s) =
    (is_empty_text s ≡ false)
    × (len s ≤ max_connection_name_bytes)
    × (all_chars (λ c. not (is_control c)) s ≡ true)
Nameable _ = Unit {0}

strip_prefix-append : (p s : String) → strip_prefix p (p ++ s) ≡ some s
unfolding strip_prefix
strip_prefix-append String.[] s = rw append.nil refl
strip_prefix-append (String.◌∷◌ c p) s = rw append.cons (ground (arith, strip_prefix-append p s))

other_start :
    (c d : Char) (p q s : String)
    → (code c == code d) ≡ false
    → strip_prefix (String.◌∷◌ c p) ((String.◌∷◌ d q) ++ s) ≡ none
unfolding strip_prefix
other_start c d p q s h = rw (append.cons, h) refl

other_text :
    (c d : Char) (q s w : String)
    → (code c == code d) ≡ false
    → (((String.◌∷◌ d q) ++ s) == (String.◌∷◌ c w)) ≡ false
other_text c d q s w h = elim (Bool-cases (((String.◌∷◌ d q) ++ s) == (String.◌∷◌ c w))) [
  | inl same ↦
      let e = rw append.cons at (eq_of_== ((String.◌∷◌ d q) ++ s) (String.◌∷◌ c w) same) in
      absurd (ground (arith, ap code (head-eq_of_cons-eq e)))
  | inr apart ↦ apart
]

named-ok :
    (s : String)
    → (named s ≡ SelectorResult.ok (ConnectionSelector.name s))
      ↔ Nameable (ConnectionSelector.name s)
named-ok s = ground arith

module _ (uuid : UuidText) where
  from_str-id :
      (u : Uuid) → from_str uuid ("id:" ++ uuid.to_text u) ≡ identified uuid (uuid.to_text u)
  unfolding from_str
  from_str-id u =
      rw
        (
          other_text "c" "i" "d:" (uuid.to_text u) "urrent" refl,
          strip_prefix-append "id:" (uuid.to_text u),
        )
        refl

  from_str-name : (s : String) → from_str uuid ("name:" ++ s) ≡ named s
  unfolding from_str
  from_str-name s =
      rw
        (
          other_text "c" "n" "ame:" s "urrent" refl,
          other_start "i" "n" "d:" "ame:" s refl,
          strip_prefix-append "name:" s,
        )
        refl

  from_str-current : from_str uuid "current" ≡ SelectorResult.ok ConnectionSelector.current
  unfolding from_str
  from_str-current = refl

  -- Where the printed form of every id parses as that id: what a selector is written as parses as that
  -- selector, exactly where it is an id, the current connection, or a name that is not empty, has at
  -- most 256 bytes and holds no control character.
  pub from_str-to_string :
      ((u : Uuid) → uuid.parse_str (uuid.to_text u) ≡ some u)
      → (selector : ConnectionSelector)
      → (from_str uuid (to_string uuid selector) ≡ SelectorResult.ok selector) ↔ Nameable selector
  unfolding to_string
  from_str-to_string back (ConnectionSelector.id u) =
      (λ _. tt, λ _. from_str-id u ∙ rw (back u, identified) refl)
  from_str-to_string back (ConnectionSelector.name s) = rw (from_str-name s) (named-ok s)
  from_str-to_string back ConnectionSelector.current = (λ _. tt, λ _. from_str-current)
