-- ===== src/Banner.antt =====
-- printBanner of cmd/scam/main.go: the lines that it writes to stderr.
pub mod Runes
mod Width
mod Tests
use scam.Base.{
  ℕ, zero, suc, ◌+◌, ◌-◌, Bool, not, ◌&&◌, Option, none, some, List, [], ◌∷◌, ◌++◌, ◌>>=◌, Text,
  codes, ltb, if◌then◌else◌, text_eq, ◌==◌,
}
use Runes.{rune_count}

-- strings.Repeat.
abbrev pub repeat : Text → ℕ → Text
repeat s zero = []
repeat s (suc n) = s ++ repeat s n

-- The arguments of printBanner.
pub record Facts : Type 0 where
  pub cluster_name : Text
  pub cluster_id : Text
  pub environment : Text
  pub ror_slug : Text
  pub ror_uid : Text
  pub callcenter : Text
  pub version : Text
  pub commit : Text

-- "SCAM — SPAM Cluster Agent Metadata"; the dash is the three bytes of U+2014.
abbrev pub title : Text
title = codes "SCAM " ++ (226 ∷ 128 ∷ 148 ∷ codes " SPAM Cluster Agent Metadata")

unfoldable pub banner_lines : Facts → List Text
banner_lines x =
    (codes "version:     " ++ (x.version ++ (codes " (" ++ (x.commit ++ codes ")"))))
    ∷ (codes "cluster:     " ++ x.cluster_name)
    ∷ (codes "cluster_id:  " ++ x.cluster_id)
    ∷ (codes "environment: " ++ x.environment)
    ∷ ((if not (x.ror_slug == []) then (codes "ror_slug:    " ++ x.ror_slug) ∷ [] else [])
        ++ ((if not (x.ror_uid == []) && not (x.ror_uid == x.ror_slug)
              then (codes "ror_uid:     " ++ x.ror_uid) ∷ []
              else [])
            ++ (codes "callcenter:  " ++ x.callcenter) ∷ []))

-- The loop over the lines that raises `maxW`.
unfoldable pub max_width : ℕ → List Text → ℕ
max_width m [] = m
max_width m (l ∷ ls) = max_width (if ltb m (rune_count l) then rune_count l else m) ls

-- No value stands for the panic of strings.Repeat at a negative count.
unfoldable pub pad : ℕ → Text → Option Text
pad max_w s =
    if ltb max_w (rune_count s) then none else some (s ++ repeat (codes " ") (max_w - rune_count s))

-- "│ %s │\n": a bar is the three bytes of U+2502.
abbrev pub boxed : Text → Text
boxed s = 226 ∷ 148 ∷ 130 ∷ 32 ∷ (s ++ 32 ∷ 226 ∷ 148 ∷ 130 ∷ 10 ∷ [])

-- The padded lines, each in its box.
unfoldable pub boxed_all : ℕ → List Text → Option (List Text)
boxed_all max_w [] = some []
boxed_all max_w (l ∷ ls) = do s ← pad max_w l; rest ← boxed_all max_w ls; some (boxed s ∷ rest)

-- "┌%s┐\n", "├%s┤\\n" and "└%s┘\\n", by the last byte of each corner.
abbrev pub rule : ℕ → ℕ → ℕ → Text
rule left right n =
    226 ∷ 148 ∷ left ∷ (repeat (226 ∷ 148 ∷ 128 ∷ []) n ++ 226 ∷ 148 ∷ right ∷ 10 ∷ [])

unfoldable pub print_banner : Facts → Option (List Text)
print_banner x =
    let lines = banner_lines x in
    let max_w = max_width (rune_count title) lines in
    do
      head ← boxed_all max_w (title ∷ [])
      body ← boxed_all max_w ([] ∷ lines)
      some (
          rule 140 144 (max_w + 2)
          ∷ (head ++ rule 156 164 (max_w + 2) ∷ (body ++ rule 148 152 (max_w + 2) ∷ [])))
