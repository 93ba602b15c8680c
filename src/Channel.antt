-- ===== src/Channel.antt =====
-- twnl/Channel.h and twnl/Channel.cc: a descriptor, the events it waits for and the callbacks it runs.
pub mod Edge
pub mod Dispatch
pub mod Text
mod Tests
use twnl.Base.{
  ℕ, ◌==◌, if◌then◌else◌, ℤ, pos, negsuc, Bool, true, false, not, ◌&&◌, ◌||◌, Option, none, some,
  ◌>>=◌, ◌>>◌, check,
}

-- A mask of epoll events, a field for each bit that the source names: EPOLLIN, EPOLLPRI, EPOLLOUT,
-- EPOLLERR, EPOLLHUP, EPOLLRDHUP and EPOLLET.
pub record Events : Type 0 where
  pub readable : Bool
  pub urgent : Bool
  pub writable : Bool
  pub error : Bool
  pub hup : Bool
  pub rdhup : Bool
  pub edge : Bool

abbrev pub no_events : Events
no_events = record {
  readable = false;
  urgent = false;
  writable = false;
  error = false;
  hup = false;
  rdhup = false;
  edge = false;
}

-- `a | b`
abbrev pub union : Events → Events → Events
union a b = record {
  readable = a.readable || b.readable;
  urgent = a.urgent || b.urgent;
  writable = a.writable || b.writable;
  error = a.error || b.error;
  hup = a.hup || b.hup;
  rdhup = a.rdhup || b.rdhup;
  edge = a.edge || b.edge;
}

-- `a & ~b`
abbrev pub without : Events → Events → Events
without a b = record {
  readable = a.readable && not b.readable;
  urgent = a.urgent && not b.urgent;
  writable = a.writable && not b.writable;
  error = a.error && not b.error;
  hup = a.hup && not b.hup;
  rdhup = a.rdhup && not b.rdhup;
  edge = a.edge && not b.edge;
}

-- `(a & b) != 0`
abbrev pub meets : Events → Events → Bool
meets a b =
    (a.readable && b.readable)
    || (a.urgent && b.urgent)
    || (a.writable && b.writable)
    || (a.error && b.error)
    || (a.hup && b.hup)
    || (a.rdhup && b.rdhup)
    || (a.edge && b.edge)

-- `a == 0`
abbrev pub is_none : Events → Bool
is_none a = not (a.readable || a.urgent || a.writable || a.error || a.hup || a.rdhup || a.edge)

pub data Mode : Type 0 where
  lt et : Mode

-- The static members, shared by all channels.
pub record Defaults : Type 0 where
  pub mode : Mode
  pub none_event : Events
  pub read_event : Events
  pub write_event : Events

-- Before `initDefaultEvent` the static members are zero.
abbrev pub zeroed : Defaults
zeroed = record {
  mode = lt;
  none_event = no_events;
  read_event = no_events;
  write_event = no_events;
}

unfoldable pub init_default_event : Mode → Defaults
init_default_event lt = record {
  mode = lt;
  none_event = no_events;
  read_event = record no_events { readable = true; urgent = true };
  write_event = record no_events { writable = true };
}
init_default_event et = record {
  mode = et;
  none_event = no_events;
  read_event = record no_events { edge = true; readable = true; urgent = true };
  write_event = record no_events { edge = true; writable = true };
}

abbrev pub is_et : Defaults → Bool
is_et d = elim d.mode [ et ↦ true | lt ↦ false ]

-- The callbacks are not part of the record: `handle_event` takes them.
pub record Channel : Type 0 where
  pub fd : ℕ
  pub events : Events
  pub revents : Events
  pub index : ℤ
  pub log_hup : Bool
  pub event_handling : Bool
  pub added_to_loop : Bool

abbrev pub new : ℕ → Channel
new fd = record {
  fd = fd;
  events = no_events;
  revents = no_events;
  index = negsuc 0;
  log_hup = true;
  event_handling = false;
  added_to_loop = false;
}

abbrev pub set_revents : Events → Channel → Channel
set_revents e c = record c { revents = e }

abbrev pub set_index : ℤ → Channel → Channel
set_index i c = record c { index = i }

abbrev pub is_none_event : Defaults → Channel → Bool
is_none_event d c =
    is_none (without c.events d.none_event) && is_none (without d.none_event c.events)

abbrev pub is_reading : Defaults → Channel → Bool
is_reading d c = meets c.events d.read_event

abbrev pub is_writing : Defaults → Channel → Bool
is_writing d c = meets c.events d.write_event

-- The part of `update` inside the channel; the loop's `updateChannel` follows where the channel is
-- used.
abbrev pub update : Channel → Channel
update c = record c { added_to_loop = true }

unfoldable pub enable_reading : Defaults → Channel → Channel
enable_reading d c = update (record c { events = union c.events d.read_event })

unfoldable pub disable_reading : Defaults → Channel → Channel
disable_reading d c = update (record c { events = without c.events d.read_event })

unfoldable pub enable_writing : Defaults → Channel → Channel
enable_writing d c = update (record c { events = union c.events d.write_event })

unfoldable pub disable_writing : Defaults → Channel → Channel
disable_writing d c = update (record c { events = without c.events d.write_event })

unfoldable pub disable_all : Defaults → Channel → Channel
disable_all d c = update (record c { events = d.none_event })

-- `remove` up to the loop's `removeChannel`.
unfoldable pub remove : Defaults → Channel → Option Channel
remove d c = do check (is_none_event d c); some (record c { added_to_loop = false })

-- The callbacks of a channel over the state `S` of its owner; `none` is a callback that is not set.
pub record Handlers (S : Type 0) : Type 0 where
  pub close_callback : Option (S → Option S)
  pub error_callback : Option (S → Option S)
  pub read_callback : Option (S → Option S)
  pub write_callback : Option (S → Option S)

module _ {S : Type 0} where
  abbrev pub call : Option (S → Option S) → S → Option S
  call none s = some s
  call (some f) s = f s

  -- `if (test) if (callback) callback();`
  abbrev pub call_if : Bool → Option (S → Option S) → S → Option S
  call_if true f s = call f s
  call_if false f s = some s

  -- `revents_` is read at each test; no callback writes it.
  unfoldable pub handle_event : Handlers S → Events → S → Option S
  handle_event h revents s = do
    s1 ← call_if (revents.hup && not revents.readable) h.close_callback s
    s2 ← call_if revents.error h.error_callback s1
    s3 ← call_if (revents.readable || revents.urgent || revents.rdhup) h.read_callback s2
    call_if revents.writable h.write_callback s3
