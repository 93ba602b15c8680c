-- ===== src/Buffer/Transmit.antt =====
-- `writeFd` and `writeFdET` of twnl/Buffer.cc: what a write takes off the buffer, and what it reports.
use twnl.Base.{
  ℕ, zero, suc, ◌+◌, ◌-◌, ◌≤◌, ◌<◌, ◌≡◌, refl, sym, ap, ◌∙◌, ◌≢◌, pos, some, List, [], ◌∷◌, arith,
  drop, take, drop-take, drop-drop, drop_all, length-slice,
}
use twnl.Buffer.{Buffer, IsValid, contents, readable_bytes}
use twnl.Buffer.Io.{Writing, wrote, write_failed, eagain, write_fd, write_fd_et}

-- The kernel has taken the `n` oldest bytes.
pub record Sent (b : Buffer) (n : ℕ) (b' : Buffer) : Type 0 where
  pub valid : IsValid b'
  pub rest : contents b' ≡ drop n (contents b)

module _ (n : ℕ) {b : Buffer} (v : IsValid b) (h : n ≤ b.writer_index - b.reader_index) where
  unfoldable pub advanced : Buffer
  advanced = record b { reader_index = b.reader_index + n }

  pub advanced-Sent : Sent b n advanced
  unfolding advanced
  advanced-Sent = record {
    valid = omega arith;
    rest = sym (
        drop-take n (b.writer_index - b.reader_index) (b.writer_index - (b.reader_index + n)) _
          (omega arith)
        ∙ ap (take (b.writer_index - (b.reader_index + n)))
            (drop-drop n b.reader_index (b.reader_index + n) b.buffer refl));
  }

  pub write_fd-advanced : (saved : ℕ) → write_fd (wrote n) b saved ≡ (advanced, pos n, saved)
  unfolding write_fd advanced
  write_fd-advanced saved = ground arith

-- One `writeFd` on a valid buffer, of which the kernel takes `n` held bytes: it returns `n`, leaves
-- `*savedErrno` alone, takes exactly the oldest `n` bytes off, and keeps the buffer valid.
pub write_fd_lem :
    (n : ℕ) {b : Buffer} (saved : ℕ)
    → IsValid b
    → n ≤ readable_bytes b
    → (b' : Buffer) × (write_fd (wrote n) b saved ≡ (b', pos n, saved))
      × (contents b' ≡ drop n (contents b))
      × IsValid b'
write_fd_lem n {b} saved v h =
    let h' : n ≤ b.writer_index - b.reader_index = omega arith in
    let s = advanced-Sent n v h' in
    (advanced n v h', write_fd-advanced n v h' saved, s.rest, s.valid)

abbrev pub sum : List ℕ → ℕ
sum [] = 0
sum (n ∷ ns) = n + sum ns

abbrev pub AllPositive : List ℕ → Type 0
AllPositive [] = Unit {0}
AllPositive (n ∷ ns) = (0 < n) × AllPositive ns

-- The answers of one edge-triggered write: so many bytes at a time, then `end`.
abbrev pub takings : List ℕ → Writing → List Writing
takings [] end = end ∷ []
takings (n ∷ ns) end = wrote n ∷ takings ns end

write_fd_et_next :
    (k : ℕ) (ws : List Writing) (b b' : Buffer) (saved n : ℕ)
    → 0 < k
    → write_fd (wrote k) b saved ≡ (b', pos k, saved)
    → write_fd_et (wrote k ∷ ws) b saved n ≡ write_fd_et ws b' saved (n + k)
unfolding write_fd_et
write_fd_et_next zero ws b b' saved n h e = absurd (omega arith)
write_fd_et_next (suc k) ws b b' saved n h e = rw (e, write_fd_et, e)

write_fd_et-takings :
    (ns : List ℕ) (end : Writing) {b : Buffer} (saved n : ℕ)
    → IsValid b
    → AllPositive ns
    → sum ns ≤ b.writer_index - b.reader_index
    → (b' : Buffer) × (write_fd_et (takings ns end) b saved n
        ≡ write_fd_et (end ∷ []) b' saved (n + sum ns))
      × Sent b (sum ns) b'
unfolding advanced
write_fd_et-takings [] end {b} saved n v s h =
    (b, ap (write_fd_et (end ∷ []) b saved) (omega arith), record { valid = v; rest = refl })
write_fd_et-takings (k ∷ ns) end {b} saved n v s h =
    let first = advanced-Sent k v (omega arith) in
    let (b', e, r) =
      write_fd_et-takings ns end {b = record b { reader_index = b.reader_index + k }} saved (n + k)
        first.valid s.1 (omega arith) in
    (
      b',
      write_fd_et_next k (takings ns end) b _ saved n s.0
            (write_fd-advanced k v (omega arith) saved)
          ∙ e
          ∙ ap (write_fd_et (end ∷ []) b' saved) (omega arith),
      record {
        valid = r.valid;
        rest =
            r.rest
            ∙ ap (drop (sum ns)) first.rest
            ∙ drop-drop (sum ns) k (k + sum ns) (contents b) refl;
      },
    )

-- On a valid buffer, an edge-triggered write that the kernel stops by EAGAIN after taking some of
-- the held bytes, at least one at a time: the loop ends, returns their number, exactly those
-- bytes are gone from the front, and the buffer is valid.
pub write_fd_et-eagain :
    (ns : List ℕ) {b : Buffer} (saved : ℕ)
    → IsValid b
    → AllPositive ns
    → sum ns ≤ readable_bytes b
    → (b' : Buffer) × (write_fd_et (takings ns (write_failed eagain)) b saved 0
        ≡ some (b', pos (sum ns), eagain))
      × (contents b' ≡ drop (sum ns) (contents b))
      × IsValid b'
unfolding write_fd_et write_fd
write_fd_et-eagain ns saved v s h =
    let (b', e, r) = write_fd_et-takings ns (write_failed eagain) saved 0 v s (omega arith) in
    (b', e ∙ ap (λ k. some (b', pos k, eagain)) (omega arith), r.rest, r.valid)

write_fd_et_last :
    (b b' : Buffer) (saved n : ℕ)
    → saved ≢ eagain
    → write_fd (wrote 0) b saved ≡ (b', pos 0, saved)
    → write_fd_et (wrote 0 ∷ []) b saved n ≡ some (b', pos 0, saved)
unfolding write_fd_et
write_fd_et_last b b' saved n ne e = rw (e, write_fd_et) (ground arith)

-- On a valid buffer, an edge-triggered write that sends all the held bytes, at least one at a
-- time, and ends on a write of 0 bytes, where `*savedErrno` is not EAGAIN before: the buffer is
-- valid and holds nothing, but the value returned is 0.
pub write_fd_et_drained :
    (ns : List ℕ) {b : Buffer} (saved : ℕ)
    → IsValid b
    → AllPositive ns
    → sum ns ≡ readable_bytes b
    → saved ≢ eagain
    → (b' : Buffer) × (write_fd_et (takings ns (wrote 0)) b saved 0 ≡ some (b', pos 0, saved))
      × (contents b' ≡ [])
      × IsValid b'
write_fd_et_drained ns {b} saved v s h ne =
    let (b', e, r) = write_fd_et-takings ns (wrote 0) saved 0 v s (omega arith) in
    let (b'', e', rest, v') = write_fd_lem 0 {b = b'} saved r.valid (omega arith) in
    (
      b'',
      e ∙ write_fd_et_last b' b'' saved (0 + sum ns) ne e',
      rest
          ∙ r.rest
          ∙ drop_all (sum ns) (contents b)
              (omega (arith, length-slice b.reader_index b.writer_index b.buffer v.inside)),
      v',
    )
