-- ===== src/Snapshot/Id.antt =====
-- newSnapshotID: the time and random bytes, in hexadecimal.
use scam.Base.{
  ℕ, zero, suc, ◌+◌, ◌*◌, ◌/◌, ◌%◌, ◌<◌, ◌≡◌, refl, ◌∙◌, inl, inr, true, false, List, [], ◌∷◌, ◌++◌,
  append_assoc, arith, Text, text_ltb, ltb, Bool-cases, if◌then◌else◌,
}
use scam.Base.Duration.{word}

-- The low `k` bytes of a number, the highest one first.
unfoldable pub be_bytes : ℕ → ℕ → List ℕ
be_bytes zero v = []
be_bytes (suc k) v = be_bytes k (v / 256) ++ v % 256 ∷ []

abbrev pub hex_digit : ℕ → ℕ
hex_digit d = if ltb d 10 then 48 + d else 87 + d

unfoldable pub hex : List ℕ → Text
hex [] = []
hex (b ∷ bs) = hex_digit (b / 16) ∷ hex_digit (b % 16) ∷ hex bs

-- `unix_milli` is time.Now().UnixMilli(), `random` the 8 bytes that rand.Read gives.
unfoldable pub new_snapshot_id : (unix_milli : ℕ) → (random : List ℕ) → Text
new_snapshot_id unix_milli random = hex (be_bytes 8 unix_milli ++ random)

-- 256 to the power of the number.
limit : ℕ → ℕ
limit zero = 1
limit (suc k) = limit k * 256

hex-prefix : (p r s : List ℕ) → text_ltb (hex (p ++ r)) (hex (p ++ s)) ≡ text_ltb (hex r) (hex s)
unfolding hex
hex-prefix [] r s = refl
hex-prefix (b ∷ p) r s = ground (arith, hex-prefix p r s)

hex-byte : (a b : ℕ) (r s : List ℕ) → a < b → b < 256 → text_ltb (hex (a ∷ r)) (hex (b ∷ s)) ≡ true
unfolding hex
hex-byte a b r s h k = ground arith

bytes_ltb :
    (k u v : ℕ) (r s : List ℕ)
    → u < v
    → v < limit k
    → text_ltb (hex (be_bytes k u ++ r)) (hex (be_bytes k v ++ s)) ≡ true
unfolding be_bytes limit
bytes_ltb zero u v r s h k = absurd (omega arith)
bytes_ltb (suc n) u v r s h k =
    rw
      (
        append_assoc (be_bytes n (u / 256)) (u % 256 ∷ []) r,
        append_assoc (be_bytes n (v / 256)) (v % 256 ∷ []) s,
      )
      (elim (Bool-cases (ltb (u / 256) (v / 256))) [
        | inl e ↦
            bytes_ltb n (u / 256) (v / 256) (u % 256 ∷ r) (v % 256 ∷ s) (ground arith) (omega arith)
        | inr e ↦ rw (same e) (
            hex-prefix (be_bytes n (v / 256)) (u % 256 ∷ r) (v % 256 ∷ s)
            ∙ hex-byte (u % 256) (v % 256) r s (low (same e)) (omega arith))
      ])
  where
    same : ltb (u / 256) (v / 256) ≡ false → u / 256 ≡ v / 256
    same e = ground arith

    low : u / 256 ≡ v / 256 → u % 256 < v % 256
    low q = omega arith

-- An identifier made at a later millisecond is greater as a text than one made before, whatever the
-- random bytes, until the milliseconds reach 2^64.
pub new_snapshot_id-ordered :
    (earlier later : ℕ) (r s : List ℕ)
    → earlier < later
    → later < word
    → text_ltb (new_snapshot_id earlier r) (new_snapshot_id later s) ≡ true
unfolding new_snapshot_id limit
new_snapshot_id-ordered earlier later r s h k = bytes_ltb 8 earlier later r s h k
