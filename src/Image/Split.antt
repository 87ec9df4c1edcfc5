-- ===== src/Image/Split.antt =====
-- SplitImage takes an image reference apart at its "@" and ":".
use scam.Base.{
  ℕ, ◌≡◌, refl, sym, ap, ◌∙◌, ◌⊎◌, inl, inr, Option, none, some, [], ◌∷◌, ◌++◌, append_assoc,
  append-nil, arith, Text, Free, Option-cases,
}
use scam.Image.{Parts, cut_first, cut_last, cut_tag, split_spec, or_whole}
use scam.Image.Cuts.{
  cut_first_lem, cut_last_lem, cut_first-append, cut_first-Free, cut_last-append, cut_last-Free,
}

-- A tag or a digest behind its sign, nothing for an empty one.
abbrev pub behind : ℕ → Text → Text
behind c [] = []
behind c (b ∷ s) = c ∷ b ∷ s

-- The reference as a user writes it.
unfoldable pub render : Parts → Text
render p = (p.repo ++ behind b':' p.tag) ++ behind b'@' p.digest

pub Free-append : (c : ℕ) (s t : Text) → Free c s → Free c t → Free c (s ++ t)
Free-append c [] t h k = k
Free-append c (b ∷ s) t h k = (h.0, Free-append c s t h.1 k)

Free-left : (c : ℕ) (s t : Text) → Free c (s ++ t) → Free c s
Free-left c [] t h = tt
Free-left c (b ∷ s) t h = (h.0, Free-left c s t h.1)

Free-right : (c : ℕ) (s t : Text) → Free c (s ++ t) → Free c t
Free-right c [] t h = h
Free-right c (b ∷ s) t h = Free-right c s t h.1

-- No colon in the last component.
abbrev pub IsTagless : Text → Type 0
IsTagless s =
    (Free b'/' s × Free b':' s)
    ⊎ ((l : Text) × (name : Text) × (s ≡ l ++ b'/' ∷ name) × Free b'/' name × Free b':' name)

-- What a cut at a tag leaves out is one colon; the tag holds no slash, and no other tag is left.
abbrev TagCut : Text → Option (Text × Text) → Type 0
TagCut s none = IsTagless s
TagCut s (some (l, r)) = (s ≡ l ++ b':' ∷ r) × IsTagless l × Free b'/' r

-- The cut in the last component, `l` being what stands before its slash.
within :
    (l name : Text) (cut : Option (Text × Text))
    → Free b'/' name
    → cut_first b':' name ≡ cut
    → TagCut
        (l ++ b'/' ∷ name)
        (elim cut [ none ↦ none | some (n, tag) ↦ some (l ++ b'/' ∷ n, tag) ])
within l name none h e = inr (l, name, refl, h, (rw e at (cut_first_lem b':' name)))
within l name (some (n, tag)) h e =
    let (whole, free) = (rw e at (cut_first_lem b':' name)) in
    let slash : Free b'/' (n ++ b':' ∷ tag) = rw (← whole) h in
    (
      ap (λ r. l ++ b'/' ∷ r) whole ∙ sym (append_assoc l (b'/' ∷ n) (b':' ∷ tag)),
      inr (l, n, refl, Free-left b'/' n _ slash, free),
      (Free-right b'/' n _ slash).1,
    )

whole_name :
    (s : Text) (cut : Option (Text × Text)) → Free b'/' s → cut_first b':' s ≡ cut → TagCut s cut
whole_name s none h e = inl (h, (rw e at (cut_first_lem b':' s)))
whole_name s (some (n, tag)) h e =
    let (whole, free) = (rw e at (cut_first_lem b':' s)) in
    let slash : Free b'/' (n ++ b':' ∷ tag) = rw (← whole) h in
    (whole, inl (Free-left b'/' n _ slash, free), (Free-right b'/' n _ slash).1)

cut_tag_lem : (s : Text) → TagCut s (cut_tag s)
unfolding cut_tag
cut_tag_lem s = elim (Option-cases (cut_last b'/' s)) [
  | inl e ↦ rw (e, cut_tag) (whole_name s _ (rw e at (cut_last_lem b'/' s)) refl)
  | inr ((l, name), e) ↦
      let (whole, free) = (rw e at (cut_last_lem b'/' s)) in
      rw (e, cut_tag) (rw whole (within l name _ free refl))
]

cut_tag-append :
    (repo tag : Text)
    → IsTagless repo
    → Free b'/' tag
    → cut_tag (repo ++ b':' ∷ tag) ≡ some (repo, tag)
unfolding cut_tag
cut_tag-append repo tag (inl (slash, colon)) k =
    rw
      (
        cut_last-Free b'/' (repo ++ b':' ∷ tag)
            (Free-append b'/' repo (b':' ∷ tag) slash (omega arith, k)),
        cut_tag,
      )
      (cut_first-append b':' repo tag colon)
cut_tag-append repo tag (inr (l, name, e, slash, colon)) k =
    let regroup : repo ++ b':' ∷ tag ≡ l ++ b'/' ∷ (name ++ b':' ∷ tag) =
      ap (λ r. r ++ b':' ∷ tag) e ∙ append_assoc l (b'/' ∷ name) (b':' ∷ tag) in
    let last : cut_last b'/' (repo ++ b':' ∷ tag) ≡ some (l, name ++ b':' ∷ tag) =
      ap (cut_last b'/') regroup
      ∙ cut_last-append b'/' l _ (Free-append b'/' name (b':' ∷ tag) slash (omega arith, k)) in
    rw (last, cut_tag) (rw (cut_first-append b':' name tag colon) (rw e refl))

cut_tag-tagless : (s : Text) → IsTagless s → cut_tag s ≡ none
unfolding cut_tag
cut_tag-tagless s (inl (slash, colon)) =
    rw (cut_last-Free b'/' s slash, cut_tag) (cut_first-Free b':' s colon)
cut_tag-tagless s (inr (l, name, e, slash, colon)) =
    rw (ap (cut_last b'/') e ∙ cut_last-append b'/' l name slash, cut_tag)
      (rw (cut_first-Free b':' name colon) refl)

-- The parts of a reference that can be told apart again.
pub record IsReference (p : Parts) : Type 0 where
  pub tagless : IsTagless p.repo
  pub tag_slash : Free b'/' p.tag
  pub digest_at : Free b'@' p.digest
  pub no_at : p.digest ≡ [] → Free b'@' (p.repo ++ behind b':' p.tag)

render_tag :
    (repo tag : Text)
    → IsTagless repo
    → Free b'/' tag
    → or_whole (repo ++ behind b':' tag) (cut_tag (repo ++ behind b':' tag)) ≡ (repo, tag)
render_tag repo [] h k = rw (append-nil, cut_tag-tagless repo h)
render_tag repo (b ∷ tag) h k = rw (cut_tag-append repo (b ∷ tag) h k)

render_digest :
    (s digest : Text)
    → Free b'@' digest
    → (digest ≡ [] → Free b'@' s)
    → or_whole (s ++ behind b'@' digest) (cut_last b'@' (s ++ behind b'@' digest)) ≡ (s, digest)
render_digest s [] h k = rw (append-nil, cut_last-Free b'@' s (k refl))
render_digest s (b ∷ digest) h k = rw (cut_last-append b'@' s (b ∷ digest) h)

-- The first two steps of SplitImage take apart what `render` puts together: a repository without a
-- tag of its own, an optional tag without a slash, and an optional digest without an "@", if no "@"
-- stands in front where there is no digest.
pub split_spec-render : (p : Parts) → IsReference p → split_spec (render p) ≡ p
unfolding split_spec render
split_spec-render p h =
    rw
      (
        render_digest (p.repo ++ behind b':' p.tag) p.digest h.digest_at h.no_at,
        render_tag p.repo p.tag h.tagless h.tag_slash,
      )
      refl

-- The two signs with what follows them, where they stand.
abbrev pub Sign : ℕ → Text → Text → Type 0
Sign c part text = ((text ≡ []) × (part ≡ [])) ⊎ (text ≡ c ∷ part)

or_whole-cut :
    (c : ℕ) (s : Text) (cut : Option (Text × Text))
    → ((l r : Text) → cut ≡ some (l, r) → s ≡ l ++ c ∷ r)
    → (text : Text) × (s ≡ (or_whole s cut).0 ++ text) × Sign c (or_whole s cut).1 text
or_whole-cut c s none h = ([], sym (append-nil s), inl (refl, refl))
or_whole-cut c s (some (l, r)) h = (c ∷ r, h l r refl, inr refl)

tag_whole : (s l r : Text) → cut_tag s ≡ some (l, r) → s ≡ l ++ b':' ∷ r
tag_whole s l r e = (rw e at (cut_tag_lem s)).0

at_whole : (s l r : Text) → cut_last b'@' s ≡ some (l, r) → s ≡ l ++ b'@' ∷ r
at_whole s l r e = (rw e at (cut_last_lem b'@' s)).0

-- Nothing of a reference is lost: whatever it is, it is the repository, then nothing or a colon with
-- the tag, then nothing or an "@" with the digest.
pub split_spec_whole :
    (spec : Text)
    → let p = split_spec spec in
      (colon : Text) × (at : Text) × (spec ≡ (p.repo ++ colon) ++ at)
      × Sign b':' p.tag colon
      × Sign b'@' p.digest at
unfolding split_spec
split_spec_whole spec =
    let (front, digest) = or_whole spec (cut_last b'@' spec) in
    let (at, whole, sign) = or_whole-cut b'@' spec (cut_last b'@' spec) (at_whole spec) in
    let (colon, whole', sign') = or_whole-cut b':' front (cut_tag front) (tag_whole front) in
    (colon, at, whole ∙ ap (λ s. s ++ at) whole', sign', sign)
