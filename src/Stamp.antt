-- ===== src/Stamp.antt =====
-- The handler that puts the identity attributes on each record: internal/collector/logattrs.go.
-- log/slog's handlers are the record `Slog`.
mod Current
mod Tests
use scam.Base.{ℕ, Bool, List, [], ◌∷◌, ◌++◌, Text}

pub record SlogRecord (A : Type 0) : Type 0 where
  pub level : ℕ
  pub message : Text
  pub attrs : List A

-- A kind of slog.Handler: what its methods return, and what Handle writes.
pub record Slog (A : Type 0) : Type 1 where
  pub Handler : Type 0
  pub enabled : Handler → ℕ → Bool
  pub handle : Handler → SlogRecord A → Text
  pub with_attrs : Handler → List A → Handler
  pub with_group : Handler → Text → Handler

abbrev pub add_attrs : {A : Type 0} → SlogRecord A → List A → SlogRecord A
add_attrs r attrs = record r { attrs = r.attrs ++ attrs }

module _ {A : Type 0} (x : Slog A) where
  pub record ClusterAttrHandler : Type 0 where
    pub inner : x.Handler

  abbrev pub with_cluster_attrs : x.Handler → ClusterAttrHandler
  with_cluster_attrs h = record { inner = h }

  unfoldable pub enabled : ClusterAttrHandler → ℕ → Bool
  enabled h level = x.enabled h.inner level

  -- `cluster_attrs` is what the atomic pointer holds when the record is handled.
  unfoldable pub handle : (cluster_attrs : List A) → ClusterAttrHandler → SlogRecord A → Text
  handle cluster_attrs h r = x.handle h.inner (add_attrs r cluster_attrs)

  unfoldable pub with_attrs : ClusterAttrHandler → List A → ClusterAttrHandler
  with_attrs h attrs = record { inner = x.with_attrs h.inner attrs }

  unfoldable pub with_group : ClusterAttrHandler → Text → ClusterAttrHandler
  with_group h name = record { inner = x.with_group h.inner name }
