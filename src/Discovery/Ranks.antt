-- ===== src/Discovery/Ranks.antt =====
-- The rank that the loops leave for a resource is the highest of those met.
use scam.Base.{
  ℕ, max, ◌≡◌, refl, ◌∙◌, ap, inl, inr, Bool, true, ◌&&◌, List, [], ◌∷◌, arith, Text, text_beq,
  text_beq_iff, Bool-cases, ltb, if◌then◌else◌, contains, text_eq,
}
use scam.Discovery.{Found, Best, rank_of, set, consider, over_resources}

rank_of-set :
    (n m : Text) (f : Found) (best : Best)
    → rank_of n (set m f best) ≡ (if text_beq m n then f.rank else rank_of n best)
unfolding rank_of set
rank_of-set n m f [] = refl
rank_of-set n m f ((k, g) ∷ best) =
    ground (arith, text_beq_iff m n, text_beq_iff k n, text_beq_iff k m, rank_of-set n m f best)

rank_of-same : (m n : Text) (best : Best) → text_beq m n ≡ true → rank_of m best ≡ rank_of n best
rank_of-same m n best q = ap (λ k. rank_of k best) ((text_beq_iff m n).0 q)

rank_of-consider :
    (rank : ℕ) (group version m n : Text) (best : Best)
    → rank_of n (consider rank group version m best)
      ≡ (if text_beq m n then max (rank_of n best) rank else rank_of n best)
unfolding consider
rank_of-consider rank group version m n best = elim (Bool-cases (ltb (rank_of m best) rank)) [
  | inl e ↦ rw e (rank_of-set n m _ best ∙ ground (arith, rank_of-same m n best))
  | inr e ↦ rw e (ground (arith, rank_of-same m n best))
]

module _ (wanted : Text → Bool) (rank : ℕ) (group version : Text) where
  -- The rank that a group and version gives a resource, by the resources that it serves.
  abbrev pub score : Text → List Text → ℕ
  score n names = if contains names n && wanted n then rank else 0

  pub rank_of-resources :
      (n : Text) (names : List Text) (best : Best)
      → rank_of n (over_resources wanted rank group version names best)
        ≡ max (rank_of n best) (score n names)
  unfolding over_resources contains
  rank_of-resources n [] best = omega arith
  rank_of-resources n (m ∷ names) best = elim (Bool-cases (wanted m)) [
    | inr e ↦ rw e (rank_of-resources n names best ∙ ground (arith, e, ap wanted, text_beq_iff m n))
    | inl e ↦ rw e (
        rank_of-resources n names (consider rank group version m best)
        ∙ ground (arith, e, rank_of-consider rank group version m n best, text_beq_iff m n))
  ]
