-- ===== src/TcpServer/Names.antt =====
-- The names of connections of twnl/TcpServer.cc tell them apart.
use twnl.Base.{
  ℕ, ◌+◌, ◌^◌, ◌<◌, ◌==◌, ◌≡◌, refl, sym, ap, ◌∙◌, true, Bool-cases, inl, inr, List, [], ◌∷◌, ◌++◌,
  length, drop, take_all, drop-append_add, arith,
}
use twnl.LogStream.Radix.{read}
use twnl.LogStream.Decimal.{decimal, dec_value, read-decimal, length-decimal}
use twnl.TcpServer.{conn_name, name_eq}

-- The number that stands behind a name.
abbrev id_of : List ℕ → List ℕ → ℕ
id_of name text = read 10 dec_value 0 (drop (length name + 2) text)

id_of-conn_name : (name : List ℕ) (id : ℕ) → id < 2 ^ 31 → id_of name (conn_name name [] id) ≡ id
unfolding conn_name
id_of-conn_name name id h =
    ap (λ t. id_of name (name ++ t))
      (take_all 63 (b'-' ∷ b'#' ∷ decimal id)
        (omega (arith, length-decimal 9 id (omega (arith, h)))))
    ∙ ap (read 10 dec_value 0)
        (drop-append_add (length name + 2) 2 name (b'-' ∷ b'#' ∷ decimal id) (omega arith))
    ∙ read-decimal id (omega (arith, h))

name_eq_refl : (xs : List ℕ) → name_eq xs xs ≡ true
unfolding name_eq
name_eq_refl [] = refl
name_eq_refl (x ∷ xs) = ground (arith, name_eq_refl xs)

name_eq_sound : (xs ys : List ℕ) → name_eq xs ys ≡ true → xs ≡ ys
unfolding name_eq
name_eq_sound [] [] h = refl
name_eq_sound [] (y ∷ ys) h = cc
name_eq_sound (x ∷ xs) [] h = cc
name_eq_sound (x ∷ xs) (y ∷ ys) h = ground (arith, h, name_eq_sound xs ys)

-- For every server and all ids that an `int` holds: the names of two connections are equal exactly if
-- the ids are.
pub name_eq-conn_name :
    (name : List ℕ) (i j : ℕ)
    → i < 2 ^ 31
    → j < 2 ^ 31
    → name_eq (conn_name name [] i) (conn_name name [] j) ≡ (i == j)
name_eq-conn_name name i j hi hj = elim (Bool-cases (i == j)) [
  | inl same ↦
      let e : i ≡ j = ground (arith, same) in
      ap (λ k. name_eq (conn_name name [] i) (conn_name name [] k)) (sym e)
      ∙ name_eq_refl (conn_name name [] i)
      ∙ sym same
  | inr other ↦ elim (Bool-cases (name_eq (conn_name name [] i) (conn_name name [] j))) [
    | inl eq ↦
        let ids : i ≡ j =
          sym (id_of-conn_name name i hi)
          ∙ ap (id_of name) (name_eq_sound (conn_name name [] i) (conn_name name [] j) eq)
          ∙ id_of-conn_name name j hj in
        absurd (ground (arith, ids, other))
    | inr ne ↦ ne ∙ sym other
  ]
]
