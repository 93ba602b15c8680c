-- ===== src/Logging/Statements.antt =====
-- What becomes of a statement of the log of twnl/Log/Logging.h.
use twnl.Base.{
  ℕ, zero, suc, ◌^◌, ◌==◌, ◌<◌, ◌≡◌, refl, ap, ◌∙◌, subst, if◌then◌else◌, if_false, ℤ, pos, negsuc,
  Bool, true, false, some, List, [], ◌∷◌, ◌++◌, length, length-take, arith, ◌>>=◌,
}
use twnl.LogStream.{
  Item, string_item, c_string_item, char_item, integer_item, thread_id_item, FixedBuffer, put_all,
  to_string,
}
use twnl.LogStream
use twnl.LogStream.Operators.{Fits, AllFit}
use twnl.LogStream.Chains.{Written, put_all-Chained}
use twnl.Logging.{
  Level, set_log_level, Context, begin, errno_items, finish, Macro, log_trace, log_debug, log_info,
  log_warn, log_error, log_fatal, enabled, open_logger, Outcome, skipped, printed, aborted,
  is_fatal, close_logger, log,
}
use twnl.Logging.SourceFile.{from_array, text_of}

AllFit-append : (is js : List Item) → AllFit is → AllFit js → AllFit (is ++ js)
unfolding AllFit
AllFit-append [] js f g = g
AllFit-append (i ∷ is) js (f, fs) g = (f, AllFit-append is js fs g)

-- The six characters that stand for the level.
abbrev pub level_text : Macro → List ℕ
level_text log_trace = b'T' ∷ b'R' ∷ b'A' ∷ b'C' ∷ b'E' ∷ b' ' ∷ []
level_text log_debug = b'D' ∷ b'E' ∷ b'B' ∷ b'U' ∷ b'G' ∷ b' ' ∷ []
level_text log_info = b'I' ∷ b'N' ∷ b'F' ∷ b'O' ∷ b' ' ∷ b' ' ∷ []
level_text log_warn = b'W' ∷ b'A' ∷ b'R' ∷ b'N' ∷ b' ' ∷ b' ' ∷ []
level_text log_error = b'E' ∷ b'R' ∷ b'R' ∷ b'O' ∷ b'R' ∷ b' ' ∷ []
level_text log_fatal = b'F' ∷ b'A' ∷ b'T' ∷ b'A' ∷ b'L' ∷ b' ' ∷ []

-- The text of an error and its number, if there is one.
abbrev pub error_note : (ℕ → List ℕ) → ℕ → List Item
error_note strerror zero = []
error_note strerror (suc n) =
    c_string_item (some (strerror (suc n)))
    ∷ c_string_item (some (b' ' ∷ b'(' ∷ b'e' ∷ b'r' ∷ b'r' ∷ b'n' ∷ b'o' ∷ b'=' ∷ []))
    ∷ integer_item (pos (suc n))
    ∷ c_string_item (some (b')' ∷ b' ' ∷ []))
    ∷ []

-- What stands between the level and what the statement prints: the function for the two lowest levels,
-- nothing for the next, and the error for the others.
abbrev pub note : Context → Macro → List ℕ → List Item
note c log_trace func = c_string_item (some func) ∷ char_item b' ' ∷ []
note c log_debug func = c_string_item (some func) ∷ char_item b' ' ∷ []
note c log_info func = []
note c _ func = error_note c.strerror c.errno

-- A line of the log: the time, the thread, the level, the note, what the statement prints, and the place
-- in the source.
abbrev pub line_of : Context → Macro → List ℕ → ℕ → List ℕ → List Item → List Item
line_of c m base line func body =
    string_item c.now
      ∷ thread_id_item c.thread_id c.thread_id
      ∷ string_item (level_text m)
      ∷ note c m func
    ++ (body
        ++ c_string_item (some (b' ' ∷ b'-' ∷ b' ' ∷ []))
          ∷ string_item base
          ∷ char_item b':'
          ∷ integer_item (pos line)
          ∷ char_item 10
          ∷ [])

abbrev head_of : Context → Macro → List ℕ → List Item
head_of c m func =
    string_item c.now
    ∷ thread_id_item c.thread_id c.thread_id
    ∷ string_item (level_text m)
    ∷ note c m func

errno_items-error_note : (c : Context) (n : ℕ) → errno_items c n ≡ error_note c.strerror n
errno_items-error_note c zero = refl
errno_items-error_note c (suc n) = if_false (suc n == 0) _ _ (ground arith)

error_note-AllFit : (strerror : ℕ → List ℕ) (n : ℕ) → n < 10 ^ 20 → AllFit (error_note strerror n)
unfolding AllFit Fits
error_note-AllFit strerror zero small = tt
error_note-AllFit strerror (suc n) small = (tt, (tt, (small, (tt, tt))))

note-AllFit : (c : Context) (m : Macro) (func : List ℕ) → c.errno < 10 ^ 20 → AllFit (note c m func)
unfolding AllFit Fits
note-AllFit c log_trace func small = (tt, (tt, tt))
note-AllFit c log_debug func small = (tt, (tt, tt))
note-AllFit c log_info func small = tt
note-AllFit c log_warn func small = error_note-AllFit c.strerror c.errno small
note-AllFit c log_error func small = error_note-AllFit c.strerror c.errno small
note-AllFit c log_fatal func small = error_note-AllFit c.strerror c.errno small

-- A logger of every macro can be made, and begins its line.
open_logger-head_of :
    (c : Context) (m : Macro) (func : List ℕ) → open_logger c m func ≡ some (head_of c m func)
unfolding open_logger begin
open_logger-head_of c log_trace func = refl
open_logger-head_of c log_debug func = refl
open_logger-head_of c log_info func = refl
open_logger-head_of c log_warn func = rw (errno_items-error_note c c.errno) refl
open_logger-head_of c log_error func = rw (errno_items-error_note c c.errno) refl
open_logger-head_of c log_fatal func = rw (errno_items-error_note c c.errno) refl

line_of-AllFit :
    (c : Context) (m : Macro) (base : List ℕ) (line : ℕ) (func : List ℕ) (body : List Item)
    → c.errno < 10 ^ 20
    → line < 10 ^ 20
    → AllFit body
    → AllFit (line_of c m base line func body)
unfolding AllFit Fits
line_of-AllFit c m base line func body small_errno small_line fits = (
  tt,
  (
    tt,
    (
      tt,
      AllFit-append (note c m func) _ (note-AllFit c m func small_errno)
          (AllFit-append body _ fits (tt, (tt, (tt, (small_line, (tt, tt)))))),
    ),
  ),
)

abbrev pub outcome : Macro → List ℕ → Outcome
outcome m text = if is_fatal m then aborted text else printed text

pub log_total :
    (c : Context) (g : Level) (m : Macro) (file : List ℕ) (line : ℕ) (func : List ℕ)
    (body : List Item)
    → length c.bytes ≡ 4000
    → c.errno < 10 ^ 20
    → line < 10 ^ 20
    → AllFit body
    → (text : List ℕ) × (length text < 4000)
      × Written 4000 (line_of c m (text_of file (from_array file)) line func body) text
      × (log c g m file line func body ≡ some (if enabled g m then outcome m text else skipped))
unfolding log close_logger
log_total c g m file line func body size small_errno small_line fits =
    let items : List Item = line_of c m (text_of file (from_array file)) line func body in
    let (b, text, runs, chained) =
      put_all-Chained items (LogStream.new c.bytes)
        (line_of-AllFit c m (text_of file (from_array file)) line func body small_errno small_line
          fits)
        (record { inside = omega (arith, size); small = omega (arith, size) }) in
    (
      text,
      omega (
        arith,
        length-take b.cur b.bytes,
        chained.valid.inside,
        chained.size,
        size,
        ap length chained.behind,
      ),
      subst (λ n. Written n items text) (omega (arith, size)) chained.written,
      ap (λ r. if enabled g m then r else some skipped)
            (ap
                (◌>>= λ s.
                  put_all (s ++ (body ++ finish (text_of file (from_array file)) line))
                    (LogStream.new c.bytes)
                  >>= λ x. some (close_logger m x))
                (open_logger-head_of c m func)
              ∙ ap (◌>>= λ x. some (close_logger m x)) runs
              ∙ ap (λ t. some (outcome m t)) chained.behind)
          ∙ pushed (outcome m text) skipped (enabled g m),
    )
  where
    pushed : (x y : Outcome) (t : Bool) → (if t then some x else some y) ≡ some (if t then x else y)
    pushed x y true = refl
    pushed x y false = refl

abbrev pub is_five : ℤ → Bool
is_five (pos n) = n == 5
is_five (negsuc n) = false

-- After `setLogLevel` with any argument but 5, `LOG_FATAL` prints a text and aborts; with 5 it
-- prints nothing and the program goes on.
pub fatal_goes_on :
    (n : ℤ) (c : Context) (file : List ℕ) (line : ℕ) (func : List ℕ) (body : List Item)
    → length c.bytes ≡ 4000
    → c.errno < 10 ^ 20
    → line < 10 ^ 20
    → AllFit body
    → (text : List ℕ) × (length text < 4000)
      × (log c (set_log_level n) log_fatal file line func body
          ≡ some (if is_five n then skipped else aborted text))
unfolding set_log_level
fatal_goes_on n c file line func body size small_errno small_line fits =
    let (text, short, _, runs) =
      log_total c (set_log_level n) log_fatal file line func body size small_errno small_line
        fits in
    (text, short, runs ∙ ap some (passes n text))
  where
    passes :
        (n : ℤ) (text : List ℕ)
        → (if enabled (set_log_level n) log_fatal then aborted text else skipped)
          ≡ (if is_five n then skipped else aborted text)
    passes (pos n) text = ground arith
    passes (negsuc n) text = refl
