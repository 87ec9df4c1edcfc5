-- ===== src/Image/Tests.antt =====
-- References taken apart, and the theorems at them.
use scam.Base.{◌≡◌, refl, inl, inr, arith, codes}
use scam.Image.{
  Parts, cut_first, cut_last, cut_tag, split_spec, resolve, split_image, split_registry,
  split_image_name,
}
use scam.Image.Split.{render, IsReference}
use scam.Image.Resolved.{split_image-render}
use scam.Image.Names.{IsSplit, split_image_name-IsSplit}

abbrev nginx : Parts
nginx = record { repo = codes "r.io:5000/a/nginx"; tag = codes "1.2"; digest = codes "sha256:ff" }

split_test :
    split_image (codes "nginx:1") (codes "docker-pullable://docker.io/library/nginx@sha256:aa")
    ≡ record { repo = codes "docker.io/library/nginx"; tag = codes "1"; digest = codes "sha256:aa" }
unfolding split_image resolve split_spec cut_tag cut_first cut_last
split_test = refl

name_test : split_image_name (codes "docker.io/library/nginx") ≡ (codes "nginx", codes "docker.io")
unfolding split_image_name split_registry cut_first
name_test = refl

nginx-IsReference : IsReference nginx
nginx-IsReference = record {
  tagless = inr (codes "r.io:5000/a", codes "nginx", refl, omega arith, omega arith);
  tag_slash = omega arith;
  digest_at = omega arith;
  no_at = λ e. cc;
}

split_image-render_example :
    split_image (codes "r.io:5000/a/nginx:1.2@sha256:ff") (codes "x.io/a@sha256:aa") ≡ nginx
unfolding render
split_image-render_example =
    split_image-render nginx (codes "x.io/a@sha256:aa") nginx-IsReference (inl (λ e. cc))

split_image_name-IsSplit_example : IsSplit (codes "x.io/a") (split_image_name (codes "x.io/a"))
split_image_name-IsSplit_example = split_image_name-IsSplit (codes "x.io/a")
