-- ===== src/Parser/SelfReferences.antt =====
-- src/amun_parser.cpp: the fields of a struct that point to the struct itself.
use amun.Prelude.{
  ◌↔◌, ◌≢◌, ℕ, ◌+◌, ◌≡◌, refl, sym, ◌∙◌, Bool, true, false, arith, Bool-cases, inl, inr, ltb,
}
use amun.Types.{AmunType, Types, FunctionType, function_type}
use amun.Parser.{Parser, ok, pure, crash, ◌>>=◌, gets, set_unknown_fields, undefined}
use amun.Parser.Checks.{resolve_field_self_reference, resolve_function, resolve_types}
use amun.Parser.Declarations.{Fields, resolve_fields}

-- The references to the struct that a type leaves open: pointers to the type that is not known yet, in
-- the places where a field's type is resolved.
unfoldable mutual
  pub open_references : AmunType → ℕ
  open_references (AmunType.pointer AmunType.none) = 1
  open_references (AmunType.pointer base_type) = open_references base_type
  open_references (AmunType.static_array element_type size) = open_references element_type
  open_references (AmunType.function f) = open_in_function f
  open_references (AmunType.tuple name fields_types) = open_in_types fields_types
  open_references type = 0

  pub open_in_function : FunctionType → ℕ
  open_in_function (function_type _ parameters return_type _ _ _ _ _ _) =
      open_references return_type + open_in_types parameters

  pub open_in_types : Types → ℕ
  open_in_types Types.nil = 0
  open_in_types (Types.cons type types) = open_references type + open_in_types types

abbrev is_open : AmunType → Bool
is_open AmunType.none = true
is_open _ = false

open_references-pointer :
    (b : AmunType) → is_open b ≡ false → open_references (AmunType.pointer b) ≡ open_references b
unfolding open_references
open_references-pointer (AmunType.number k) h = refl
open_references-pointer (AmunType.pointer c) h = refl
open_references-pointer (AmunType.function f) h = refl
open_references-pointer (AmunType.static_array b n) h = refl
open_references-pointer (AmunType.static_vector b n) h = refl
open_references-pointer (AmunType.struct s) h = refl
open_references-pointer (AmunType.tuple n ts) h = refl
open_references-pointer (AmunType.enum t vs b) h = refl
open_references-pointer (AmunType.enum_element n b) h = refl
open_references-pointer (AmunType.generic_parameter n) h = refl
open_references-pointer (AmunType.generic_struct s ts) h = refl
open_references-pointer AmunType.none h = ground arith
open_references-pointer AmunType.void h = refl
open_references-pointer AmunType.nill h = refl

is_open-none : (b : AmunType) → is_open b ≡ true → b ≡ AmunType.none
is_open-none (AmunType.number k) h = ground arith
is_open-none (AmunType.pointer b) h = ground arith
is_open-none (AmunType.function f) h = ground arith
is_open-none (AmunType.static_array b n) h = ground arith
is_open-none (AmunType.static_vector b n) h = ground arith
is_open-none (AmunType.struct s) h = ground arith
is_open-none (AmunType.tuple n ts) h = ground arith
is_open-none (AmunType.enum t vs b) h = ground arith
is_open-none (AmunType.enum_element n b) h = ground arith
is_open-none (AmunType.generic_parameter n) h = ground arith
is_open-none (AmunType.generic_struct s ts) h = ground arith
is_open-none AmunType.none h = refl
is_open-none AmunType.void h = ground arith
is_open-none AmunType.nill h = ground arith

-- What resolving gives for a type: as many references as were open, and none left.
record Closes {A : Type 0} (count : A → ℕ) (type : A) (r : A × ℕ) : Type 0 where
  counted : r.1 ≡ count type
  closed : count r.0 ≡ 0

module _ (p : AmunType) where
  resolve-pointer :
      (b : AmunType)
      → is_open b ≡ false
      → resolve_field_self_reference p (AmunType.pointer b) ≡ (
        AmunType.pointer (resolve_field_self_reference p b).0,
        (resolve_field_self_reference p b).1,
      )
  unfolding resolve_field_self_reference
  resolve-pointer (AmunType.number k) h = refl
  resolve-pointer (AmunType.pointer c) h = refl
  resolve-pointer (AmunType.function f) h = refl
  resolve-pointer (AmunType.static_array b n) h = refl
  resolve-pointer (AmunType.static_vector b n) h = refl
  resolve-pointer (AmunType.struct s) h = refl
  resolve-pointer (AmunType.tuple n ts) h = refl
  resolve-pointer (AmunType.enum t vs b) h = refl
  resolve-pointer (AmunType.enum_element n b) h = refl
  resolve-pointer (AmunType.generic_parameter n) h = refl
  resolve-pointer (AmunType.generic_struct s ts) h = refl
  resolve-pointer AmunType.none h = ground arith
  resolve-pointer AmunType.void h = refl
  resolve-pointer AmunType.nill h = refl

  is_open-resolve :
      is_open p ≡ false
      → (b : AmunType) → is_open b ≡ false
      → is_open (resolve_field_self_reference p b).0 ≡ false
  unfolding resolve_field_self_reference
  is_open-resolve q (AmunType.number k) h = refl
  is_open-resolve q (AmunType.pointer b) h = elim (Bool-cases (is_open b)) [
    | inl unknown ↦ rw (is_open-none b unknown) q
    | inr closed ↦ rw (resolve-pointer b closed) refl
  ]
  is_open-resolve q (AmunType.function f) h = refl
  is_open-resolve q (AmunType.static_array b n) h = refl
  is_open-resolve q (AmunType.static_vector b n) h = refl
  is_open-resolve q (AmunType.struct s) h = refl
  is_open-resolve q (AmunType.tuple n ts) h = refl
  is_open-resolve q (AmunType.enum t vs b) h = refl
  is_open-resolve q (AmunType.enum_element n b) h = refl
  is_open-resolve q (AmunType.generic_parameter n) h = refl
  is_open-resolve q (AmunType.generic_struct s ts) h = refl
  is_open-resolve q AmunType.none h = ground arith
  is_open-resolve q AmunType.void h = refl
  is_open-resolve q AmunType.nill h = refl

module _ (p : AmunType) (h : open_references p ≡ 0) (q : is_open p ≡ false) where
  pointer-Closes :
      (b : AmunType)
      → Closes open_references b (resolve_field_self_reference p b)
      → Closes open_references
          (AmunType.pointer b)
          (resolve_field_self_reference p (AmunType.pointer b))
  unfolding resolve_field_self_reference open_references
  pointer-Closes b c = elim (Bool-cases (is_open b)) [
    | inl unknown ↦ rw (is_open-none b unknown) (record { counted = refl; closed = h })
    | inr known ↦ record {
      counted = rw (resolve-pointer p b known) (c.counted ∙ sym (open_references-pointer b known));
      closed = rw (resolve-pointer p b known) (
          open_references-pointer (resolve_field_self_reference p b).0 (is_open-resolve p q b known)
          ∙ c.closed);
    }
  ]

  mutual
    unfolding resolve_field_self_reference open_references

    resolve-Closes :
        (type : AmunType) → Closes open_references type (resolve_field_self_reference p type)
    resolve-Closes (AmunType.number k) = record { counted = refl; closed = refl }
    resolve-Closes (AmunType.pointer b) = pointer-Closes b (resolve-Closes b)
    resolve-Closes (AmunType.function f) =
        let c = function-Closes f in record { counted = c.counted; closed = c.closed }
    resolve-Closes (AmunType.static_array b n) =
        let c = resolve-Closes b in record { counted = c.counted; closed = c.closed }
    resolve-Closes (AmunType.static_vector b n) = record { counted = refl; closed = refl }
    resolve-Closes (AmunType.struct s) = record { counted = refl; closed = refl }
    resolve-Closes (AmunType.tuple n ts) =
        let c = types-Closes ts in record { counted = c.counted; closed = c.closed }
    resolve-Closes (AmunType.enum t vs b) = record { counted = refl; closed = refl }
    resolve-Closes (AmunType.enum_element n b) = record { counted = refl; closed = refl }
    resolve-Closes (AmunType.generic_parameter n) = record { counted = refl; closed = refl }
    resolve-Closes (AmunType.generic_struct s ts) = record { counted = refl; closed = refl }
    resolve-Closes AmunType.none = record { counted = refl; closed = refl }
    resolve-Closes AmunType.void = record { counted = refl; closed = refl }
    resolve-Closes AmunType.nill = record { counted = refl; closed = refl }

    function-Closes : (f : FunctionType) → Closes open_in_function f (resolve_function p f)
    function-Closes (function_type name ps r n v vt i g gs) =
        let a = resolve-Closes r in
        let b = types-Closes ps in
        record {
          counted = omega (arith, a.counted, b.counted);
          closed = omega (arith, a.closed, b.closed);
        }

    types-Closes : (ts : Types) → Closes open_in_types ts (resolve_types p ts)
    types-Closes Types.nil = record { counted = refl; closed = refl }
    types-Closes (Types.cons t ts) =
        let a = resolve-Closes t in
        let b = types-Closes ts in
        record {
          counted = omega (arith, a.counted, b.counted);
          closed = omega (arith, a.closed, b.closed);
        }

-- Resolving the fields of a struct by the pointer to the struct replaces every open reference: it gives
-- as many replacements as references were open, and leaves none.
resolve_types-closed :
    (s : AmunType) (fields_types : Types)
    → open_references (AmunType.pointer s) ≡ 0
    → ((resolve_types (AmunType.pointer s) fields_types).1 ≡ open_in_types fields_types)
      × (open_in_types (resolve_types (AmunType.pointer s) fields_types).0 ≡ 0)
resolve_types-closed s fields_types h =
    let c = types-Closes (AmunType.pointer s) h refl fields_types in (c.counted, c.closed)

-- The assertion behind a struct's fields fails exactly where the counter of unknown fields is above zero
-- and is not the number of open references in the fields' types.
pub resolve_fields-crash :
    (s : AmunType) (f : Fields) (p : Parser)
    → open_references (AmunType.pointer s) ≡ 0
    → (resolve_fields s f p ≡ crash) ↔ (
        (p.current_struct_unknown_fields ≢ 0)
        × (p.current_struct_unknown_fields ≢ open_in_types f.fields_types))
unfolding resolve_fields gets ◌>>=◌ set_unknown_fields undefined pure
resolve_fields-crash s f p h =
    let counted = (resolve_types-closed s f.fields_types h).0 in
    (
      λ e. (λ z. cc (e, z), λ z. ground (arith, e, z, counted)),
      λ n. ground (arith, counted, n.0, n.1),
    )

-- Where the counter is the number of open references in the fields, the fields are resolved: the counter
-- becomes zero, nothing else of the parser's state changes, and no reference is open afterwards.
pub resolve_fields-closed :
    (s : AmunType) (f : Fields) (p : Parser)
    → open_references (AmunType.pointer s) ≡ 0
    → p.current_struct_unknown_fields ≡ open_in_types f.fields_types
    → (g : Fields) × (resolve_fields s f p ≡ ok g (record p { current_struct_unknown_fields = 0 }))
      × (open_in_types g.fields_types ≡ 0)
unfolding resolve_fields gets ◌>>=◌ set_unknown_fields pure
resolve_fields-closed s f p h e =
    let c = resolve_types-closed s f.fields_types h in
    elim (Bool-cases (ltb 0 p.current_struct_unknown_fields)) [
      | inl b ↦ (
        record f { fields_types = (resolve_types (AmunType.pointer s) f.fields_types).0 },
        ground (arith, c.0, e, b),
        c.1,
      )
      | inr b ↦ (f, ground (arith, c.0, e, b), ground (arith, e, b))
    ]
