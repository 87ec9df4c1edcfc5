-- ===== src/Race/Sample.antt =====
-- A concrete encoder of records, and a network that accepts all, for tests.
use scam.Base.{ℕ, ◌≡◌, refl, Option, none, some, true, [], ◌∷◌, Text}
use scam.Capture.{starts_object}
use scam.Capture.Trim.{trim_space}
use scam.Push.{Transport}
use scam.Push.Loop.{Setting}
use scam.Push.Recovery.{IsUp}
use scam.Emit.{Record}
use scam.Race.Stream.{IsEncoder}

-- A line is the id between braces.
abbrev encode_id : Option ℕ → Text
encode_id none = b'{' ∷ b'}' ∷ []
encode_id (some id) = b'{' ∷ id ∷ b'}' ∷ []

abbrev pub encode : Record → Text
encode r = encode_id r.event_id

abbrev pub read_id : Text → Option ℕ
read_id (a ∷ id ∷ b ∷ []) = some id
read_id _ = none

encode_id-reads :
    (o : Option ℕ)
    → (starts_object (trim_space (encode_id o)) ≡ true) × (read_id (trim_space (encode_id o)) ≡ o)
unfolding trim_space
encode_id-reads none = (refl, refl)
encode_id-reads (some id) = (refl, refl)

pub encode-IsEncoder : IsEncoder encode read_id
encode-IsEncoder r = encode_id-reads r.event_id

abbrev answering : Transport
answering = record {
  marshal = λ rs. some [];
  can_build = true;
  post = λ n body. some (record { status = 200; body = [] });
  decode_ack = λ body. 2;
  decode_event_id = read_id;
}

abbrev pub setting : Setting
setting = record { env = answering; has_trigger = true; mismatch_line = λ a b. [] }

pub setting-IsUp : (n : ℕ) → IsUp setting.env n
setting-IsUp n = record {
  marshals = λ rs. ([], refl);
  builds = refl;
  answers = λ k body h. (record { status = 200; body = [] }, refl, refl);
}
