-- ===== src/Kube/Values.antt =====
-- Dynamic values (Go's `any` in unstructured objects) and the metadata of an object.
use scam.Base.{ℕ, Bool, Option, List, Text}

-- `float` holds the bits of a float64.
mutual
  pub data Value : Type 0 where
    null : Value
    boolean : Bool → Value
    int : ℕ → Value
    float : ℕ → Value
    text : Text → Value
    slice : Items → Value
    object : Fields → Value

  pub data Items : Type 0 where
    nil : Items
    cons : Value → Items → Items

  pub data Fields : Type 0 where
    end : Fields
    field : Text → Value → Fields → Fields

-- The order of a map's entries is of no consequence.
abbrev pub Labels : Type 0
Labels = List (Text × Text)

pub record Owner : Type 0 where
  pub kind : Text
  pub name : Text
  pub controller : Option Bool

pub record Meta : Type 0 where
  pub namespace : Text
  pub name : Text
  pub uid : Text
  pub labels : Labels
  pub annotations : Labels
  pub managed_fields : List Value
  pub finalizers : List Text
  pub owner_references : List Owner

-- A custom resource: `meta` is what GetNamespace and the like return.
pub record Unstructured : Type 0 where
  pub meta : Meta
  pub object : Fields
