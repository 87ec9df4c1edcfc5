-- ===== src/Image/Resolved.antt =====
-- SplitImage as a whole: what the image id of the container's status adds to the reference.
use scam.Base.{
  ◌≡◌, refl, ap, ◌∙◌, ◌≢◌, ◌⊎◌, inl, inr, false, some, [], ◌∷◌, ◌++◌, arith, Text, Free,
  text_beq_iff, text_beq, trim_prefix, codes,
}
use scam.Image.{Parts, cut_last, split_spec, split_image, resolve}
use scam.Image.Cuts.{cut_last-append}
use scam.Image.Split.{render, IsReference, split_spec-render}

-- Whatever the image id says, the tag is that of the reference as written.
pub split_image-tag :
    (spec image_id : Text) → (split_image spec image_id).tag ≡ (split_spec spec).tag
unfolding split_image resolve
split_image-tag spec image_id = ground arith

-- A digest in the reference wins: then the image id changes nothing, the repository included.
pub split_image-pinned :
    (spec image_id : Text)
    → (split_spec spec).digest ≢ []
    → split_image spec image_id ≡ split_spec spec
unfolding split_image
split_image-pinned spec image_id h = ground (arith, text_beq_iff (split_spec spec).digest [])

resolve-digest :
    (p : Parts) (image_id : Text) {l digest : Text}
    → cut_last b'@' (trim_prefix (codes "docker-pullable://") image_id) ≡ some (l, digest)
    → (resolve p image_id).digest ≡ digest
unfolding resolve
resolve-digest p image_id cut = rw (cut, resolve)

holds_at :
    (image_id l digest : Text)
    → trim_prefix (codes "docker-pullable://") image_id ≡ l ++ b'@' ∷ digest
    → text_beq image_id [] ≡ false
holds_at [] [] digest e = cc
holds_at [] (b ∷ l) digest e = cc
holds_at (b ∷ image_id) l digest e = refl

-- Where the reference has no digest, it is what follows the last "@" of the image id, taken without
-- its docker-pullable:// prefix, if there is one.
pub split_image-resolved :
    (spec image_id l digest : Text)
    → (split_spec spec).digest ≡ []
    → trim_prefix (codes "docker-pullable://") image_id ≡ l ++ b'@' ∷ digest
    → Free b'@' digest
    → (split_image spec image_id).digest ≡ digest
unfolding split_image
split_image-resolved spec image_id l digest e w f =
    let cut = ap (cut_last b'@') w ∙ cut_last-append b'@' l digest f in
    simp (e, holds_at image_id l digest w) (resolve-digest (split_spec spec) image_id cut)

-- SplitImage takes apart what `render` puts together, where the digest is part of the reference or
-- there is no image id: a repository without a tag of its own, an optional tag without a slash, and
-- an optional digest without an "@", if no "@" stands in front where there is no digest.
pub split_image-render :
    (p : Parts) (image_id : Text)
    → IsReference p
    → (p.digest ≢ []) ⊎ (image_id ≡ [])
    → split_image (render p) image_id ≡ p
unfolding split_image
split_image-render p image_id h (inl pinned) =
    let parts = split_spec-render p h in
    split_image-pinned (render p) image_id (rw parts pinned) ∙ parts
split_image-render p image_id h (inr e) = rw e (ground (arith, split_spec-render p h))
