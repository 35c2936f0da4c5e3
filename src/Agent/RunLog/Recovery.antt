-- ===== src/Agent/RunLog/Recovery.antt =====
-- What a log has written is read back, also when the file ends inside a record.
use vertex_testbed.Agent.RunLog.{
  Doubles, RunMeta, item, pack_row, unpack_row, rows_from, recover_rows,
}
use vertex_testbed.Common.{
  List, [], ◌∷◌, ℕ, suc, ok, false, ◌++◌, ◌≡◌, ◌+◌, ◌*◌, ◌/◌, ◌<◌, length, length-append, refl, ap,
  ap₂, arith, sym, ◌∙◌, ◌==◌, All, take, drop, take-length_append, drop-length_append,
}
use vertex_testbed.Common.Bytes.{Bytes}
use mathlib.Core.List.{append_assoc}
use native.Mathlib.Nat.{add-mul-div_right, div-eq_of_lt, suc-mul}

-- The format `d` of `struct`.
pub record IsDouble {V : Type 0} (floats : Doubles V) : Type 0 where
  pub eight : (v : V) → length (floats.pack v) ≡ 8
  pub exact : (v : V) → floats.unpack (floats.pack v) ≡ v

module _ {V : Type 0} (floats : Doubles V) where
  abbrev pub flat : List (List V) → Bytes
  flat [] = []
  flat (row ∷ rows) = pack_row floats row ++ flat rows

  pub flat-append : (xs ys : List (List V)) → flat (xs ++ ys) ≡ flat xs ++ flat ys
  flat-append [] ys = refl
  flat-append (x ∷ xs) ys =
      ap (λ l. pack_row floats x ++ l) (flat-append xs ys)
      ∙ sym (append_assoc (pack_row floats x) (flat xs) (flat ys))

  abbrev pub IsRow : ℕ → List V → Type 0
  IsRow ncols row = length row ≡ ncols

  module _ (laws : IsDouble floats) where
    length-pack_row : (row : List V) → length (pack_row floats row) ≡ length row * 8
    length-pack_row [] = omega arith
    length-pack_row (v ∷ vs) = omega (
      arith,
      length-append (floats.pack v) (pack_row floats vs),
      laws.eight v,
      length-pack_row vs,
    )

    take-pack : (v : V) (rest : Bytes) → take item (floats.pack v ++ rest) ≡ floats.pack v
    take-pack v rest =
        ap (λ n. take n (floats.pack v ++ rest)) (sym (laws.eight v))
        ∙ take-length_append (floats.pack v) rest

    drop-pack : (v : V) (rest : Bytes) → drop item (floats.pack v ++ rest) ≡ rest
    drop-pack v rest =
        ap (λ n. drop n (floats.pack v ++ rest)) (sym (laws.eight v))
        ∙ drop-length_append (floats.pack v) rest

    unpack_row-pack_row :
        (row : List V) (rest : Bytes)
        → unpack_row floats (length row) (pack_row floats row ++ rest) ≡ row
    unfolding unpack_row
    unpack_row-pack_row [] rest = refl
    unpack_row-pack_row (v ∷ vs) rest =
        ap (λ bs. unpack_row floats (suc (length vs)) bs)
          (append_assoc (floats.pack v) (pack_row floats vs) rest)
        ∙ ap₂ (λ x xs. x ∷ xs)
            (ap floats.unpack (take-pack v (pack_row floats vs ++ rest)) ∙ laws.exact v)
            (ap (unpack_row floats (length vs)) (drop-pack v (pack_row floats vs ++ rest))
              ∙ unpack_row-pack_row vs rest)

    drop-row :
        (row : List V) (rest : Bytes) (n : ℕ)
        → n ≡ length row * 8
        → drop n (pack_row floats row ++ rest) ≡ rest
    drop-row row rest n e =
        ap (λ k. drop k (pack_row floats row ++ rest)) (e ∙ sym (length-pack_row row))
        ∙ drop-length_append (pack_row floats row) rest

    rows_from-flat :
        (ncols : ℕ) (rows : List (List V)) (rest : Bytes)
        → All (IsRow ncols) rows
        → rows_from floats (length rows) ncols (ncols * 8) (flat rows ++ rest) ≡ rows
    unfolding rows_from
    rows_from-flat ncols [] rest h = refl
    rows_from-flat ncols (row ∷ rows) rest h =
        ap (λ bs. rows_from floats (suc (length rows)) ncols (ncols * 8) bs)
          (append_assoc (pack_row floats row) (flat rows) rest)
        ∙ ap₂ (λ x xs. x ∷ xs)
            (ap (λ n. unpack_row floats n (pack_row floats row ++ (flat rows ++ rest))) (sym h.0)
              ∙ unpack_row-pack_row row (flat rows ++ rest))
            (ap (rows_from floats (length rows) ncols (ncols * 8))
                (drop-row row (flat rows ++ rest) (ncols * 8) (ap (λ n. n * 8) (sym h.0)))
              ∙ rows_from-flat ncols rows rest h.1)

    length-flat :
        (ncols : ℕ) (rows : List (List V))
        → All (IsRow ncols) rows
        → length (flat rows) ≡ length rows * (ncols * 8)
    length-flat ncols [] h = omega arith
    length-flat ncols (row ∷ rows) h = omega (
      arith,
      length-append (pack_row floats row) (flat rows),
      length-pack_row row,
      h.0,
      length-flat ncols rows h.1,
      suc-mul (length rows) (ncols * 8),
    )

    -- A rows file is read back row for row, and a file that was cut off inside a record loses that
    -- record only: what is behind the whole records is shorter than one. The records are as wide as
    -- the metadata says.
    pub recover_rows-flat :
        (m : RunMeta) (ncols : ℕ) (rows : List (List V)) (partial : Bytes)
        → m.record_bytes ≡ ncols * 8
        → 0 < ncols
        → All (IsRow ncols) rows
        → length partial < m.record_bytes
        → recover_rows floats m (flat rows ++ partial) ≡ ok rows
    unfolding recover_rows
    recover_rows-flat m ncols rows partial e k h p =
        rw present (rw quotient (rw e (rw eighth (ap ok (rows_from-flat ncols rows partial h)))))
      where
        present : (m.record_bytes == 0) ≡ false
        present = ground arith

        eighth : ncols * 8 / 8 ≡ ncols
        eighth = omega arith

        quotient : length (flat rows ++ partial) / m.record_bytes ≡ length rows
        quotient =
            ap (λ n. n / m.record_bytes)
              (omega (
                arith,
                length-append (flat rows) partial,
                length-flat ncols rows h,
                ap (λ w. length rows * w) e,
              ))
            ∙ add-mul-div_right (length partial) (length rows) (omega arith)
            ∙ ap (λ q. q + length rows) (div-eq_of_lt p)
            ∙ omega arith
