-- ===== src/Capture/Bounds.antt =====
-- The buffer of LineCapture never holds more than `max_buffer_size` lines, and drops only old ones.
use scam.Base.{
  ◌+◌, ◌-◌, ◌≤◌, ◌<◌, ◌≡◌, List, arith, Text, length, length-drop, Sub, Sub-refl, Sub-drop,
}
use scam.Capture.{make_room, keep_newest, max_buffer_size}

pub make_room-length :
    (buf : List Text) → length buf ≤ max_buffer_size → length (make_room buf) < max_buffer_size
unfolding make_room
make_room-length buf h = ground (arith, length-drop (length buf - max_buffer_size + 1) buf)

pub make_room_id : (buf : List Text) → length buf < max_buffer_size → make_room buf ≡ buf
unfolding make_room
make_room_id buf h = ground arith

pub make_room-Sub : (buf : List Text) → Sub (make_room buf) buf
unfolding make_room
make_room-Sub buf = ground (arith, Sub-refl buf, Sub-drop (length buf - max_buffer_size + 1) buf)

pub keep_newest-length : (buf : List Text) → length (keep_newest buf) ≤ max_buffer_size
unfolding keep_newest
keep_newest-length buf = ground (arith, length-drop (length buf - max_buffer_size) buf)

pub keep_newest_id : (buf : List Text) → length buf ≤ max_buffer_size → keep_newest buf ≡ buf
unfolding keep_newest
keep_newest_id buf h = ground arith

pub keep_newest-Sub : (buf : List Text) → Sub (keep_newest buf) buf
unfolding keep_newest
keep_newest-Sub buf = ground (arith, Sub-refl buf, Sub-drop (length buf - max_buffer_size) buf)
