-- ===== src/Image.antt =====
-- Image references: SplitImage, colonAfter and SplitImageName of internal/collector/image.go.
-- The index functions of the package strings are given by what they cut: `cut_first` and
-- `cut_last` split a text around the first or last occurrence of a byte.
pub mod Cuts
pub mod Split
pub mod Resolved
pub mod Names
mod Tests
use scam.Base.{
  ℕ, Bool, true, false, not, ◌&&◌, ◌||◌, Option, none, some, List, [], ◌∷◌, ◌++◌, Text, codes,
  contains_byte, trim_prefix, if◌then◌else◌, nat_beq, text_eq, ◌==◌,
}

-- The texts before and after the first occurrence of the byte.
unfoldable pub cut_first : ℕ → Text → Option (Text × Text)
cut_first c [] = none
cut_first c (b ∷ s) =
    if nat_beq b c
    then some ([], s)
    else elim (cut_first c s) [ none ↦ none | some (l, r) ↦ some (b ∷ l, r) ]

-- The texts before and after the last occurrence of the byte.
unfoldable pub cut_last : ℕ → Text → Option (Text × Text)
cut_last c [] = none
cut_last c (b ∷ s) = elim (cut_last c s) [
  | some (l, r) ↦ some (b ∷ l, r)
  | none ↦ if nat_beq b c then some ([], s) else none
]

-- The first colon behind the last slash: colonAfter(s, strings.LastIndex(s, "/")).
unfoldable pub cut_tag : Text → Option (Text × Text)
cut_tag s = elim (cut_last b'/' s) [
  | none ↦ cut_first b':' s
  | some (l, r) ↦ elim (cut_first b':' r) [
    | none ↦ none
    | some (name, tag) ↦ some (l ++ b'/' ∷ name, tag)
  ]
]

pub record Parts : Type 0 where
  pub repo : Text
  pub tag : Text
  pub digest : Text

-- The whole text, with nothing cut off, where there is nothing to cut.
abbrev pub or_whole : Text → Option (Text × Text) → Text × Text
or_whole s none = (s, [])
or_whole s (some cut) = cut

-- The first two steps: the digest behind the last "@", and the tag.
unfoldable pub split_spec : Text → Parts
split_spec spec =
    let (s, digest) = or_whole spec (cut_last b'@' spec) in
    let (repo, tag) = or_whole s (cut_tag s) in record { repo = repo; tag = tag; digest = digest }

-- The last step: an image id stands in for a missing digest, and its repository for a short one.
unfoldable pub resolve : Parts → Text → Parts
resolve p image_id = elim (cut_last b'@' (trim_prefix (codes "docker-pullable://") image_id)) [
  | none ↦ p
  | some (cand, digest) ↦ record p {
    digest = digest;
    repo =
        if (not (contains_byte b'/' p.repo) || not (contains_byte b'.' p.repo)) && not (cand == [])
        then cand
        else p.repo;
  }
]

unfoldable pub split_image : Text → Text → Parts
split_image spec image_id =
    let p = split_spec spec in
    if p.digest == [] && not (image_id == []) then resolve p image_id else p

abbrev pub is_registry : Text → Bool
is_registry first =
    contains_byte b'.' first || contains_byte b':' first || first == codes "localhost"

unfoldable pub split_registry : Text → Text × Text
split_registry full = elim (cut_first b'/' full) [
  | none ↦ (full, [])
  | some (first, rest) ↦
      if not (first == []) && is_registry first then (rest, first) else (full, [])
]

-- The image and the registry.
unfoldable pub split_image_name : Text → Text × Text
split_image_name full =
    let (image, registry) = split_registry full in
    if registry == codes "docker.io"
    then (trim_prefix (codes "library/") image, registry)
    else (image, registry)
