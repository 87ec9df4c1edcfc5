-- ===== src/Banner/Width.antt =====
-- The frame of the banner is closed: all its lines are equally wide.
use scam.Base.{
  ℕ, zero, suc, ◌+◌, ◌-◌, ◌≤◌, ◌<◌, ◌≡◌, refl, ap, ◌∙◌, some, List, [], ◌∷◌, ◌++◌, arith, Text, ltb,
  append_assoc, All, All-append, if◌then◌else◌, codes,
}
use scam.Banner.{
  repeat, Facts, title, banner_lines, max_width, pad, boxed, boxed_all, rule, print_banner,
}
use scam.Banner.Runes.{rune_count, rune_count-append, rune_count_next, rune_count_nil}

-- A byte below 128 is a rune by itself.
rune_count_low : (c : ℕ) (s : Text) → c < 128 → rune_count (c ∷ s) ≡ suc (rune_count s)
rune_count_low c s h = rune_count_next c s ∙ ground arith

-- A line of the box drawing block is a rune of three bytes.
rune_count_drawn :
    (c : ℕ) (s : Text) → 128 ≤ c → c ≤ 191 → rune_count (226 ∷ 148 ∷ c ∷ s) ≡ suc (rune_count s)
rune_count_drawn c s low high = rune_count_next 226 (148 ∷ c ∷ s) ∙ ground arith

spaces_first :
    (n : ℕ) (t : Text) → repeat (codes " ") n ++ 32 ∷ t ≡ 32 ∷ (repeat (codes " ") n ++ t)
spaces_first zero t = refl
spaces_first (suc n) t = ap (◌∷◌ 32) (spaces_first n t)

rune_count-spaces :
    (n : ℕ) (t : Text) → rune_count (repeat (codes " ") n ++ 32 ∷ t) ≡ n + rune_count (32 ∷ t)
rune_count-spaces zero t = omega arith
rune_count-spaces (suc n) t =
    let first = rune_count_low 32 (repeat (codes " ") n ++ 32 ∷ t) (omega arith) in
    omega (arith, first, rune_count-spaces n t)

rune_count-rule :
    (left right n : ℕ)
    → 128 ≤ left
    → left ≤ 191
    → 128 ≤ right
    → right ≤ 191
    → rune_count (rule left right n) ≡ n + 3
rune_count-rule left right n l0 l1 r0 r1 =
    rune_count_drawn left _ l0 l1 ∙ ap suc (drawn n) ∙ omega arith
  where
    close : rune_count (226 ∷ 148 ∷ right ∷ 10 ∷ []) ≡ 2
    close =
        rune_count_drawn right (10 ∷ []) r0 r1
        ∙ ap suc (rune_count_low 10 [] (omega arith) ∙ ap suc rune_count_nil)

    drawn :
        (m : ℕ)
        → rune_count (repeat (226 ∷ 148 ∷ 128 ∷ []) m ++ 226 ∷ 148 ∷ right ∷ 10 ∷ []) ≡ m + 2
    drawn zero = close ∙ omega arith
    drawn (suc m) =
        rune_count_drawn 128 _ (omega arith) (omega arith) ∙ ap suc (drawn m) ∙ omega arith

-- A line that fits is padded, and its box is five runes wider than the text may be.
boxed-width :
    (max_w : ℕ) (l : Text)
    → rune_count l ≤ max_w
    → (s : Text) × (pad max_w l ≡ some s) × (rune_count (boxed s) ≡ max_w + 5)
unfolding pad
boxed-width max_w l h = (l ++ spaces, ground arith, wide)
  where
    spaces : Text
    spaces = repeat (codes " ") (max_w - rune_count l)

    close : Text
    close = 226 ∷ 148 ∷ 130 ∷ 10 ∷ []

    close_width : rune_count (32 ∷ close) ≡ 3
    close_width =
        rune_count_low 32 close (omega arith)
        ∙ ap suc (
            rune_count_drawn 130 (10 ∷ []) (omega arith) (omega arith)
            ∙ ap suc (rune_count_low 10 [] (omega arith) ∙ ap suc rune_count_nil))

    inner : rune_count ((l ++ spaces) ++ 32 ∷ close) ≡ max_w + 3
    inner =
        let split = rune_count-append l 32 (spaces ++ close) (omega arith) in
        let padded = rune_count-spaces (max_w - rune_count l) close in
        let shape = spaces_first (max_w - rune_count l) close in
        ap rune_count (append_assoc l spaces (32 ∷ close) ∙ ap (◌++◌ l) shape)
        ∙ omega (arith, split, ap rune_count shape, padded, close_width, h)

    wide : rune_count (boxed (l ++ spaces)) ≡ max_w + 5
    wide =
        rune_count_drawn 130 _ (omega arith) (omega arith)
        ∙ ap suc (rune_count_low 32 _ (omega arith) ∙ ap suc inner)
        ∙ omega arith

max_width-le :
    (m : ℕ) (ls : List Text) → (m ≤ max_width m ls) × All (λ l. rune_count l ≤ max_width m ls) ls
unfolding max_width
max_width-le m [] = (omega arith, tt)
max_width-le m (l ∷ ls) =
    let h = max_width-le (if ltb m (rune_count l) then rune_count l else m) ls in ground arith

boxed_all-width :
    (max_w : ℕ) (ls : List Text)
    → All (λ l. rune_count l ≤ max_w) ls
    → (out : List Text) × (boxed_all max_w ls ≡ some out) × All (λ l. rune_count l ≡ max_w + 5) out
unfolding boxed_all
boxed_all-width max_w [] h = ([], refl, tt)
boxed_all-width max_w (l ∷ ls) (fits, h) =
    let (s, padded, wide) = boxed-width max_w l fits in
    let (out, found, all_wide) = boxed_all-width max_w ls h in
    (boxed s ∷ out, rw (padded, found) refl, (wide, all_wide))

-- Whatever the names hold, valid UTF-8 or not, no count of strings.Repeat is negative, and all the
-- lines of the banner have the same number of runes.
pub print_banner-closed :
    (x : Facts)
    → (out : List Text) × (w : ℕ) × (print_banner x ≡ some out) × All (λ l. rune_count l ≡ w) out
unfolding print_banner
print_banner-closed x =
    let (head, found, head_wide) = boxed_all-width max_w (title ∷ []) (bound.0, tt) in
    let (body, found', body_wide) =
      boxed_all-width max_w ([] ∷ banner_lines x) (rw rune_count_nil (omega arith), bound.1) in
    (
      out head body,
      max_w + 5,
      rw (found, found') refl,
      (
        line_wide 140 144 (omega arith),
        All-append (λ l. rune_count l ≡ max_w + 5) head _ head_wide
            (
              line_wide 156 164 (omega arith),
              All-append (λ l. rune_count l ≡ max_w + 5) body _ body_wide
                  (line_wide 148 152 (omega arith), tt),
            ),
      ),
    )
  where
    max_w : ℕ
    max_w = max_width (rune_count title) (banner_lines x)

    out : List Text → List Text → List Text
    out head body =
        rule 140 144 (max_w + 2)
        ∷ (head ++ rule 156 164 (max_w + 2) ∷ (body ++ rule 148 152 (max_w + 2) ∷ []))

    line_wide :
        (left right : ℕ)
        → (128 ≤ left) × (left ≤ 191) × (128 ≤ right) × (right ≤ 191)
        → rune_count (rule left right (max_w + 2)) ≡ max_w + 5
    line_wide left right (l0, l1, r0, r1) =
        rune_count-rule left right (max_w + 2) l0 l1 r0 r1 ∙ omega arith

    bound : (rune_count title ≤ max_w) × All (λ l. rune_count l ≤ max_w) (banner_lines x)
    bound = max_width-le (rune_count title) (banner_lines x)
