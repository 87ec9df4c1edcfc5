-- ===== src/Dynamic/Sample.antt =====
-- A concrete library of accessors, for tests: it walks the path through nested maps.
use scam.Base.{
  ℕ, Option, none, some, List, [], ◌∷◌, ◌>>=◌, Text, codes, if◌then◌else◌, text_eq, ◌==◌,
}
use scam.Kube.{Value, Items, Fields, int, text, slice, object, nil, cons, end, field, Meta}
use scam.Dynamic.{Nested}

unfoldable pub find : Text → Fields → Option Value
find k end = none
find k (field j v fs) = if j == k then some v else find k fs

abbrev pub submap : Option Value → Option Fields
submap (some (object m)) = some m
submap _ = none

unfoldable pub walk : Fields → List Text → Option Value
walk obj [] = some (object obj)
walk obj (k ∷ []) = find k obj
walk obj (k ∷ j ∷ path) = submap (find k obj) >>= λ m. walk m (j ∷ path)

abbrev pub as_text : Option Value → Option Text
as_text (some (text s)) = some s
as_text _ = none

abbrev pub as_slice : Option Value → Option Items
as_slice (some (slice xs)) = some xs
as_slice _ = none

abbrev as_int : Option Value → Option ℕ
as_int (some (int n)) = some n
as_int _ = none

unfoldable pub texts_of : Items → Option (List Text)
texts_of nil = some []
texts_of (cons (text s) xs) = elim (texts_of xs) [ none ↦ none | some ts ↦ some (s ∷ ts) ]
texts_of (cons v xs) = none

abbrev pub on_object : (Fields → Fields) → Value → Value
on_object f (object m) = object (f m)
on_object f v = v

unfoldable pub modify : Text → (Fields → Fields) → Fields → Fields
modify k f end = end
modify k f (field j v fs) = if j == k then field j (on_object f v) fs else field j v (modify k f fs)

unfoldable pub delete : Text → Fields → Fields
delete k end = end
delete k (field j v fs) = if j == k then delete k fs else field j v (delete k fs)

unfoldable pub remove : Fields → List Text → Fields
remove obj [] = obj
remove obj (k ∷ []) = delete k obj
remove obj (k ∷ j ∷ path) = modify k (λ m. remove m (j ∷ path)) obj

abbrev pub sample : Nested
sample = record {
  nested_string = λ obj path. as_text (walk obj path);
  nested_slice = λ obj path. as_slice (walk obj path);
  nested_string_slice =
      λ obj path. elim (as_slice (walk obj path)) [ none ↦ none | some xs ↦ texts_of xs ];
  nested_int64 = λ obj path. as_int (walk obj path);
  remove_nested_field = remove;
}

abbrev pub plain_meta : Text → Text → Meta
plain_meta namespace name = record {
  namespace = namespace;
  name = name;
  uid = codes "u1";
  labels = [];
  annotations = [];
  managed_fields = [];
  finalizers = [];
  owner_references = [];
}
