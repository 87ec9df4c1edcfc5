-- ===== src/Dynamic.antt =====
-- The accessors of unstructured objects in internal/collector/helpers.go. The functions of the
-- package unstructured are the record `Nested`; a path that is missing or has another type gives no
-- value there, and the zero value here.
pub mod Sample
pub mod Removal
use scam.Base.{
  ℕ, ◌%◌, ◌^◌, Bool, Option, none, some, List, [], ◌∷◌, Text, text_ltb, if◌then◌else◌, text_eq,
  ◌==◌,
}
use scam.Kube.{
  Value, Items, Fields, null, boolean, int, float, text, slice, object, nil, cons, end, field,
  Unstructured,
}

pub record Nested : Type 0 where
  pub nested_string : Fields → List Text → Option Text
  pub nested_slice : Fields → List Text → Option Items
  pub nested_string_slice : Fields → List Text → Option (List Text)
  pub nested_int64 : Fields → List Text → Option ℕ
  pub remove_nested_field : Fields → List Text → Fields

-- Reads through a map value of that library need one key at most in most places.
abbrev pub or_text : Option Text → Text
or_text none = []
or_text (some s) = s

module _ (lib : Nested) where
  abbrev pub u_str : Fields → List Text → Text
  u_str obj path = or_text (lib.nested_string obj path)

  abbrev pub u_slice : Fields → List Text → Items
  u_slice obj path = elim (lib.nested_slice obj path) [ none ↦ nil | some s ↦ s ]

  abbrev pub u_string_slice : Fields → List Text → List Text
  u_string_slice obj path = elim (lib.nested_string_slice obj path) [ none ↦ [] | some s ↦ s ]

  -- The conversion of an int64 to an int32 keeps the low 32 bits.
  abbrev pub u_int32 : Fields → List Text → ℕ
  u_int32 obj path = elim (lib.nested_int64 obj path) [ none ↦ 0 | some n ↦ n % 4294967296 ]

-- The items that are maps: the others fail the type assertion and are passed over.
unfoldable pub maps : Items → List Fields
maps nil = []
maps (cons (object m) xs) = m ∷ maps xs
maps (cons v xs) = maps xs

unfoldable pub ns_name_less : Text → Text → Text → Text → Bool
ns_name_less ns1 n1 ns2 n2 = if ns1 == ns2 then text_ltb n1 n2 else text_ltb ns1 ns2

unfoldable pub less_unstructured : Unstructured → Unstructured → Bool
unfolding ns_name_less
less_unstructured a b = ns_name_less a.meta.namespace a.meta.name b.meta.namespace b.meta.name
