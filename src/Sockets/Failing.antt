-- ===== src/Sockets/Failing.antt =====
-- The functions of twnl/SocketsOps.cc that are to end the program when a call of the kernel fails.
use twnl.Base.{ℕ, ℤ, pos, negsuc, ◌≡◌, refl, if◌then◌else◌, none, arith}
use twnl.Logging.{set_log_level}
use twnl.Logging.Statements.{is_five}
use twnl.Sockets.{
  Log, died, goes_on, failed, create_nonblocking, bind, listen, accept, expected_error,
}

-- When the call of the kernel fails: after `setLogLevel` with any argument but 5, each of
-- `createNonblockingOrDie`, `bindOrDie` and `listenOrDie` ends the program, and so does `accept` with
-- an `errno` outside its first group. After `setLogLevel(5)` all go on, and the caller of
-- `createNonblockingOrDie` and of `accept` gets the failure with its `errno`.
pub or_die_lem :
    (n : ℤ) (disturb : ℕ → ℕ) (e : ℕ)
    → let lg : Log = record { level = set_log_level n; disturb = disturb } in
      (create_nonblocking lg (failed e) ≡ (if is_five n then goes_on (failed e) else died))
      × (bind lg (failed e) ≡ (if is_five n then goes_on none else died))
      × (listen lg (failed e) ≡ (if is_five n then goes_on none else died))
      × (accept lg (failed e) ≡ (
          if expected_error e
          then goes_on (failed e)
          else (if is_five n then goes_on (failed e) else died)))
unfolding create_nonblocking bind listen accept set_log_level
or_die_lem (pos n) disturb e = (ground arith, ground arith, ground arith, ground arith)
or_die_lem (negsuc n) disturb e = (refl, refl, refl, refl)
