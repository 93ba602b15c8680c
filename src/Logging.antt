-- ===== src/Logging.antt =====
-- twnl/Log/Logging.h and twnl/Log/Logging.cc: one statement of the log, from the macro to the output.
-- The clock's text, the thread's id, `errno` and its text are arguments.
pub mod SourceFile
pub mod Statements
mod Tests
use twnl.Base.{
  ℕ, ◌+◌, ◌==◌, leb, if◌then◌else◌, ℤ, pos, negsuc, Bool, true, false, Option, none, some, List, [],
  ◌∷◌, ◌++◌, get_elem?, ◌>>=◌,
}
use twnl.LogStream.{
  Item, string_item, c_string_item, char_item, integer_item, thread_id_item, FixedBuffer, put_all,
  to_string,
}
use twnl.LogStream
use SourceFile.{Name, from_array, text_of}

pub data Level : Type 0 where
  trace debug info warn error fatal no_level : Level

-- The numbers of the enumeration; `no_level` is `NONE`.
abbrev pub rank : Level → ℕ
rank trace = 0
rank debug = 1
rank info = 2
rank warn = 3
rank error = 4
rank fatal = 5
rank no_level = 6

-- With what `getenv` finds for `LOG_TRACE` and `LOG_DEBUG`.
unfoldable pub init_log_level : Option (List ℕ) → Option (List ℕ) → Level
init_log_level (some v) d = trace
init_log_level none (some v) = debug
init_log_level none none = info

unfoldable pub set_log_level : ℤ → Level
set_log_level (negsuc n) = info
set_log_level (pos n) =
    if n == 1
    then trace
    else (if n == 2
        then debug
        else (if n == 3
            then info
            else (if n == 4 then warn else (if n == 5 then no_level else info))))

-- `LogLevelName`
abbrev pub level_names : List (List ℕ)
level_names =
    (b'T' ∷ b'R' ∷ b'A' ∷ b'C' ∷ b'E' ∷ b' ' ∷ [])
    ∷ (b'D' ∷ b'E' ∷ b'B' ∷ b'U' ∷ b'G' ∷ b' ' ∷ [])
    ∷ (b'I' ∷ b'N' ∷ b'F' ∷ b'O' ∷ b' ' ∷ b' ' ∷ [])
    ∷ (b'W' ∷ b'A' ∷ b'R' ∷ b'N' ∷ b' ' ∷ b' ' ∷ [])
    ∷ (b'E' ∷ b'R' ∷ b'R' ∷ b'O' ∷ b'R' ∷ b' ' ∷ [])
    ∷ (b'F' ∷ b'A' ∷ b'T' ∷ b'A' ∷ b'L' ∷ b' ' ∷ [])
    ∷ []

-- What a logger finds when it is made.
pub record Context : Type 0 where
  pub now : List ℕ
  pub thread_id : List ℕ
  pub errno : ℕ
  -- `strerror_tl`
  pub strerror : ℕ → List ℕ
  -- the bytes of the stream's array before it is written
  pub bytes : List ℕ

abbrev pub errno_items : Context → ℕ → List Item
errno_items c saved =
    if saved == 0
    then []
    else c_string_item (some (c.strerror saved))
      ∷ c_string_item (some (b' ' ∷ b'(' ∷ b'e' ∷ b'r' ∷ b'r' ∷ b'n' ∷ b'o' ∷ b'=' ∷ []))
      ∷ integer_item (pos saved)
      ∷ c_string_item (some (b')' ∷ b' ' ∷ []))
      ∷ []

-- The constructor of `Impl`; `none` for a level without a name.
unfoldable pub begin : Context → Level → ℕ → Option (List Item)
begin c level saved = get_elem? level_names (rank level) >>= λ name. some (
    string_item c.now
    ∷ thread_id_item c.thread_id c.thread_id
    ∷ string_item name
    ∷ errno_items c saved)

abbrev pub finish : List ℕ → ℕ → List Item
finish basename line =
    c_string_item (some (b' ' ∷ b'-' ∷ b' ' ∷ []))
    ∷ string_item basename
    ∷ char_item b':'
    ∷ integer_item (pos line)
    ∷ char_item 10
    ∷ []

pub data Macro : Type 0 where
  log_trace log_debug log_info log_warn log_error log_fatal : Macro

-- The level of the logger that a macro makes.
abbrev pub level_of : Macro → Level
level_of log_trace = trace
level_of log_debug = debug
level_of log_info = info
level_of log_warn = warn
level_of log_error = error
level_of log_fatal = fatal

-- The right side of the test in a macro.
abbrev pub threshold : Macro → Level
threshold log_trace = trace
threshold log_debug = debug
threshold log_info = info
threshold log_warn = warn
threshold log_error = warn
threshold log_fatal = warn

abbrev pub enabled : Level → Macro → Bool
enabled g m = leb (rank g) (rank (threshold m))

-- The three constructors of `Logger`.
unfoldable pub open_logger : Context → Macro → List ℕ → Option (List Item)
unfolding begin
open_logger c log_trace func =
    begin c trace 0 >>= λ items. some (items ++ c_string_item (some func) ∷ char_item b' ' ∷ [])
open_logger c log_debug func =
    begin c debug 0 >>= λ items. some (items ++ c_string_item (some func) ∷ char_item b' ' ∷ [])
open_logger c log_info func = begin c info 0
open_logger c m func = begin c (level_of m) c.errno

pub data Outcome : Type 0 where
  skipped : Outcome
  -- the text that `g_output` gets
  printed : List ℕ → Outcome
  -- with a call of `abort` behind
  aborted : List ℕ → Outcome

abbrev pub is_fatal : Macro → Bool
is_fatal log_fatal = true
is_fatal _ = false

-- The destructor of `Logger`.
unfoldable pub close_logger : Macro → FixedBuffer → Outcome
close_logger m b = if is_fatal m then aborted (to_string b) else printed (to_string b)

-- A statement `LOG_.. << body` in the file `file`, with the level `g` set.
unfoldable pub log : Context → Level → Macro → List ℕ → ℕ → List ℕ → List Item → Option Outcome
unfolding open_logger put_all close_logger from_array text_of
log c g m file line func body =
    if enabled g m
    then (open_logger c m func >>= λ start.
        put_all (start ++ (body ++ finish (text_of file (from_array file)) line))
          (LogStream.new c.bytes)
        >>= λ b. some (close_logger m b))
    else some skipped
