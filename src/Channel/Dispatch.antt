-- ===== src/Channel/Dispatch.antt =====
-- The order and the choice of callbacks in `Channel::handleEvent`.
use twnl.Base.{◌≡◌, Bool, true, false, not, ◌&&◌, ◌||◌, some, List, [], ◌∷◌, ◌++◌, arith}
use twnl.Channel.{Events, Handlers, handle_event}

pub data Called : Type 0 where
  close_called error_called read_called write_called : Called

-- Handlers that only record that they ran.
abbrev pub recorders : Handlers (List Called)
recorders = record {
  close_callback = some (λ s. some (s ++ close_called ∷ []));
  error_callback = some (λ s. some (s ++ error_called ∷ []));
  read_callback = some (λ s. some (s ++ read_called ∷ []));
  write_callback = some (λ s. some (s ++ write_called ∷ []));
}

abbrev pub when : Bool → Called → List Called
when true c = c ∷ []
when false c = []

-- With all four callbacks set, `handleEvent` runs them in the order close, error, read, write:
-- close on a hang-up with nothing to read, error on EPOLLERR, read on EPOLLIN, EPOLLPRI or
-- EPOLLRDHUP, write on EPOLLOUT, and none otherwise.
pub handle_event_order :
    (e : Events)
    → handle_event recorders e []
      ≡ some (
          when (e.hup && not e.readable) close_called
          ++ when e.error error_called
          ++ when (e.readable || e.urgent || e.rdhup) read_called
          ++ when e.writable write_called)
unfolding handle_event
handle_event_order e = ground arith
