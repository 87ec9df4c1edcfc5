-- ===== src/Capture.antt =====
-- LineCapture of internal/collector/push.go: the writer that keeps each JSON line for the push.
-- `Capture.Trim` models bytes.TrimSpace. The mutex makes each method one step.
pub mod Trim
pub mod Bounds
use mathlib.Core.Option
use scam.Base.{
  ℕ, ◌+◌, ◌-◌, Bool, true, false, Option, none, some, List, [], ◌∷◌, ◌++◌, Text, length, drop, ltb,
  leb, if◌then◌else◌, nat_beq,
}
use Trim.{trim_space}

abbrev pub max_buffer_size : ℕ
max_buffer_size = 10000

pub record LineCapture : Type 0 where
  pub stdout : List Text
  pub buf : List Text

-- What the write to stdout returned: the byte count, and an error.
pub record Written : Type 0 where
  pub n : ℕ
  pub err : Option Text

abbrev pub starts_object : Text → Bool
starts_object [] = false
starts_object (b ∷ s) = nat_beq b b'{'

-- Room for one more line: the oldest ones go.
unfoldable pub make_room : List Text → List Text
make_room buf =
    if leb max_buffer_size (length buf) then drop (length buf - max_buffer_size + 1) buf else buf

-- `stdout` returned `r`; the caller gets it back.
unfoldable pub write : LineCapture → Text → Written → LineCapture × Written
unfolding make_room
write lc p r =
    let out = lc.stdout ++ p ∷ [] in
    let trimmed = trim_space p in
    (
      record {
        stdout = out;
        buf = if starts_object trimmed then make_room lc.buf ++ trimmed ∷ [] else lc.buf;
      },
      r,
    )

unfoldable pub flush : LineCapture → List Text × LineCapture
flush lc = (lc.buf, record lc { buf = [] })

-- The newest lines that fit.
unfoldable pub keep_newest : List Text → List Text
keep_newest buf =
    if ltb max_buffer_size (length buf) then drop (length buf - max_buffer_size) buf else buf

unfoldable pub rebuffer : LineCapture → List Text → LineCapture
unfolding keep_newest
rebuffer lc records = record lc { buf = keep_newest (records ++ lc.buf) }
