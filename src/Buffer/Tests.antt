-- ===== src/Buffer/Tests.antt =====
-- The buffer at small inputs.
use twnl.Base.{ℕ, ◌≡◌, refl, inr, pos, none, some, List, [], ◌∷◌, arith}
use twnl.Buffer.{Buffer, IsValid, contents, append, retrieve_all_as_string, find_crlf, make_space}
use twnl.Buffer.Io.{got, wrote, read_failed, eagain, read_fd, write_fd, read_fd_et}
use twnl.Buffer.Append.{append_lem}
use twnl.Buffer.Retrieve.{retrieve_all_as_string_lem}
use twnl.Buffer.Receive.{arrivals, read_fd_lem, read_fd_et-eagain}
use twnl.Buffer.Transmit.{write_fd_lem}

-- Two bytes, with two read bytes before them and one free byte behind.
abbrev small : Buffer
small = record { buffer = 1 ∷ 2 ∷ 3 ∷ 4 ∷ 5 ∷ []; reader_index = 2; writer_index = 4 }

small-IsValid : IsValid small
small-IsValid = omega arith

-- Three of four bytes are held, none has been read.
abbrev crowded : Buffer
crowded = record { buffer = 7 ∷ 8 ∷ 9 ∷ 0 ∷ []; reader_index = 0; writer_index = 3 }

crowded-IsValid : IsValid crowded
crowded-IsValid = omega arith

-- "a\r\nb"
abbrev line : Buffer
line = record { buffer = 97 ∷ 13 ∷ 10 ∷ 98 ∷ []; reader_index = 0; writer_index = 4 }

line-IsValid : IsValid line
line-IsValid = omega arith

abbrev roomy : Buffer
roomy = record { buffer = 1 ∷ 0 ∷ 0 ∷ 0 ∷ 0 ∷ []; reader_index = 0; writer_index = 1 }

roomy-IsValid : IsValid roomy
roomy-IsValid = omega arith

append_moves :
    append (6 ∷ 7 ∷ []) small
    ≡ some (record { buffer = 3 ∷ 4 ∷ 6 ∷ 7 ∷ 5 ∷ []; reader_index = 0; writer_index = 4 })
unfolding append make_space
append_moves = refl

append_lem_example :
    (b' : Buffer) × (append (6 ∷ 7 ∷ []) small ≡ some b')
    × (contents b' ≡ 3 ∷ 4 ∷ 6 ∷ 7 ∷ [])
    × IsValid b'
append_lem_example =
    append_lem (6 ∷ 7 ∷ []) {b = small} small-IsValid (omega arith) (inr (inr (omega arith)))

retrieve_all_as_string_lem_example :
    (b' : Buffer) × (retrieve_all_as_string small ≡ some (3 ∷ 4 ∷ [], b'))
    × (contents b' ≡ [])
    × IsValid b'
retrieve_all_as_string_lem_example = retrieve_all_as_string_lem {b = small} small-IsValid

line_found : find_crlf line ≡ some 1
unfolding find_crlf
line_found = refl

small_not_found : find_crlf small ≡ none
unfolding find_crlf
small_not_found = refl

read_fd_lem_example :
    (b' : Buffer) × (read_fd (got (6 ∷ 7 ∷ 8 ∷ [])) small 0 ≡ some (b', pos 3, 0))
    × (contents b' ≡ 3 ∷ 4 ∷ 6 ∷ 7 ∷ 8 ∷ [])
    × IsValid b'
read_fd_lem_example =
    read_fd_lem (6 ∷ 7 ∷ 8 ∷ []) {b = small} 0 small-IsValid (omega arith) (inr (inr (omega arith)))

abbrev chunks : List (List ℕ)
chunks = (2 ∷ 3 ∷ []) ∷ (4 ∷ []) ∷ []

read_fd_et-eagain_example :
    (b' : Buffer) × (read_fd_et (arrivals chunks (read_failed eagain)) roomy 0 0
      ≡ some (b', pos 3, eagain))
    × (contents b' ≡ 1 ∷ 2 ∷ 3 ∷ 4 ∷ [])
    × IsValid b'
read_fd_et-eagain_example =
    read_fd_et-eagain chunks {b = roomy} 0 roomy-IsValid (omega arith) (omega arith)

write_fd_lem_example :
    (b' : Buffer) × (write_fd (wrote 1) small 0 ≡ (b', pos 1, 0))
    × (contents b' ≡ 4 ∷ [])
    × IsValid b'
write_fd_lem_example = write_fd_lem 1 {b = small} 0 small-IsValid (omega arith)
