-- ===== src/Logging/Tests.antt =====
-- Statements of the log of twnl/Log/Logging.h on concrete inputs.
use twnl.Base.{ℕ, some, List, [], ◌∷◌, replicate}
use twnl.LogStream.{Item, c_string_item}
use twnl.Logging.{Context}
use twnl.Logging.SourceFile.{slash}

abbrev zeros : List ℕ
zeros = replicate 4000 0

abbrev plain : Context
plain = record {
  now = b'8' ∷ [];
  thread_id = b'7' ∷ [];
  errno = 11;
  strerror = λ e. b'x' ∷ [];
  bytes = zeros;
}

abbrev hello : List Item
hello = c_string_item (some (b'h' ∷ b'i' ∷ [])) ∷ []

-- twnl/A.cc
abbrev path : List ℕ
path = b't' ∷ b'w' ∷ slash ∷ b'A' ∷ []
