-- ===== src/Channel/Edge.antt =====
-- What the edge-triggered masks do to `isReading` and `isWriting`.
use twnl.Base.{◌≡◌, true, false, arith}
use twnl.Channel.{
  Channel, lt, et, init_default_event, is_reading, is_writing, is_none_event, enable_reading,
  disable_reading, enable_writing, disable_writing, disable_all,
}

-- In level-triggered mode, for every channel: each of the four switches sets its own interest and
-- leaves the other as it was, and `disableAll` leaves no event.
pub level_interests :
    (c : Channel)
    → let d = init_default_event lt in
      (is_reading d (enable_reading d c) ≡ true)
      × (is_writing d (enable_reading d c) ≡ is_writing d c)
      × (is_reading d (disable_reading d c) ≡ false)
      × (is_writing d (disable_reading d c) ≡ is_writing d c)
      × (is_writing d (enable_writing d c) ≡ true)
      × (is_reading d (enable_writing d c) ≡ is_reading d c)
      × (is_writing d (disable_writing d c) ≡ false)
      × (is_reading d (disable_writing d c) ≡ is_reading d c)
      × (is_none_event d (disable_all d c) ≡ true)
unfolding init_default_event enable_reading disable_reading enable_writing disable_writing
    disable_all
level_interests c = ground arith

-- In edge-triggered mode, for every channel: after `enableReading` the channel counts as writing,
-- after `enableWriting` it counts as reading, and to stop the other interest then clears EPOLLET.
pub edge_interests :
    (c : Channel)
    → let d = init_default_event et in
      (is_writing d (enable_reading d c) ≡ true)
      × (is_reading d (enable_writing d c) ≡ true)
      × ((disable_writing d (enable_reading d c)).events.edge ≡ false)
      × ((disable_reading d (enable_writing d c)).events.edge ≡ false)
unfolding init_default_event enable_reading disable_reading enable_writing disable_writing
edge_interests c = ground arith
