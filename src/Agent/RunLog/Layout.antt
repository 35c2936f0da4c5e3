-- ===== src/Agent/RunLog/Layout.antt =====
-- The columns of a record and the cells of a row stand in the same order.
use vertex_testbed.Agent.RunLog.{
  Doubles, Column, RunMeta, Sample, coordinates, neighbour_columns, all_neighbour_columns, named,
  column_names, or_first, flag, value_cells, neighbour_cells, row_of,
}
use vertex_testbed.Common.{
  List, [], ◌∷◌, ℕ, zero, suc, false, ◌++◌, ◌≡◌, ◌⊎◌, inl, inr, ◌+◌, ◌*◌, length, get_or, refl, ap,
  ap₂, arith, sym, ◌∙◌, subst,
}
use mathlib.Core.List.{append_assoc}

module _ {V : Type 0} (floats : Doubles V) where
  -- What the log declares for one neighbour, the `i`-th: each column with its value.
  abbrev pub values_of : ℕ → ℕ → ℕ → Sample V → List (Column × V)
  values_of zero i nid s = []
  values_of (suc zero) i nid s =
      (Column.value_column nid, get_or s.neighbor_vstates i floats.nought) ∷ []
  values_of (suc (suc d)) i nid s =
      (Column.coordinate_column nid 0, get_or s.neighbor_vstates (2 * i) floats.nought)
      ∷ (Column.coordinate_column nid 1, get_or s.neighbor_vstates (2 * i + 1) floats.nought)
      ∷ []

  abbrev neighbour_entries : ℕ → ℕ → ℕ → Sample V → List (Column × V)
  neighbour_entries dim i nid s =
      values_of dim i nid s
      ++ ((Column.rx_column nid, flag floats (get_or s.neighbor_fresh i false))
          ∷ (Column.seq_column nid, get_or s.neighbor_seq i floats.nought)
          ∷ (Column.rssi_column nid, get_or s.neighbor_rssi i floats.nought)
          ∷ [])

  abbrev entries_from : ℕ → ℕ → List ℕ → Sample V → List (Column × V)
  entries_from dim i [] s = []
  entries_from dim i (nid ∷ nids) s =
      neighbour_entries dim i nid s ++ entries_from dim (suc i) nids s

  abbrev zipped : (ℕ → Column) → List ℕ → List V → List (Column × V)
  zipped c (n ∷ ns) (v ∷ vs) = (c n, v) ∷ zipped c ns vs
  zipped c ns vs = []

  -- A row with its columns: the two times, the timing, the channels, then neighbour by neighbour.
  abbrev pub entries : RunMeta → Sample V → List (Column × V)
  entries m s =
      (Column.timestamp, s.t_s)
      ∷ (Column.device_timestamp, or_first floats s.device_t_s s.t_s)
      ∷ (zipped Column.timing_column m.timing_columns s.timing
          ++ (zipped Column.state_column m.state_columns s.channels
              ++ entries_from m.dim 0 m.neighbors s))

  abbrev pub columns_of : List (Column × V) → List Column
  columns_of [] = []
  columns_of ((c, v) ∷ es) = c ∷ columns_of es

  abbrev pub cells_of : List (Column × V) → List V
  cells_of [] = []
  cells_of ((c, v) ∷ es) = v ∷ cells_of es

  columns_of-append :
      (es fs : List (Column × V)) → columns_of (es ++ fs) ≡ columns_of es ++ columns_of fs
  columns_of-append [] fs = refl
  columns_of-append ((c, v) ∷ es) fs = ap (λ l. c ∷ l) (columns_of-append es fs)

  cells_of-append : (es fs : List (Column × V)) → cells_of (es ++ fs) ≡ cells_of es ++ cells_of fs
  cells_of-append [] fs = refl
  cells_of-append ((c, v) ∷ es) fs = ap (λ l. v ∷ l) (cells_of-append es fs)

  columns_of-zipped :
      (c : ℕ → Column) (ns : List ℕ) (vs : List V)
      → length vs ≡ length ns
      → columns_of (zipped c ns vs) ≡ named c ns
  columns_of-zipped c [] [] h = refl
  columns_of-zipped c [] (v ∷ vs) h = absurd (omega arith)
  columns_of-zipped c (n ∷ ns) [] h = absurd (omega arith)
  columns_of-zipped c (n ∷ ns) (v ∷ vs) h =
      ap (λ l. c n ∷ l) (columns_of-zipped c ns vs (omega arith))

  cells_of-zipped :
      (c : ℕ → Column) (ns : List ℕ) (vs : List V)
      → length vs ≡ length ns
      → cells_of (zipped c ns vs) ≡ vs
  cells_of-zipped c [] [] h = refl
  cells_of-zipped c [] (v ∷ vs) h = absurd (omega arith)
  cells_of-zipped c (n ∷ ns) [] h = absurd (omega arith)
  cells_of-zipped c (n ∷ ns) (v ∷ vs) h = ap (λ l. v ∷ l) (cells_of-zipped c ns vs (omega arith))

  -- The laws of the repository have one coordinate or two.
  abbrev IsDim : ℕ → Type 0
  IsDim dim = (dim ≡ 1) ⊎ (dim ≡ 2)

  columns_of-entries_from :
      (dim i : ℕ) (nids : List ℕ) (s : Sample V)
      → IsDim dim
      → columns_of (entries_from dim i nids s) ≡ all_neighbour_columns dim nids
  unfolding all_neighbour_columns neighbour_columns coordinates
  columns_of-entries_from dim i [] s h = refl
  columns_of-entries_from dim i (nid ∷ nids) s (inl e) =
      subst
        (λ d. columns_of (entries_from d i (nid ∷ nids) s) ≡ all_neighbour_columns d (nid ∷ nids))
        (sym e)
        (ap
          (λ l.
            Column.value_column nid
            ∷ Column.rx_column nid
            ∷ Column.seq_column nid
            ∷ Column.rssi_column nid
            ∷ l)
          (columns_of-entries_from 1 (suc i) nids s (inl refl)))
  columns_of-entries_from dim i (nid ∷ nids) s (inr e) =
      subst
        (λ d. columns_of (entries_from d i (nid ∷ nids) s) ≡ all_neighbour_columns d (nid ∷ nids))
        (sym e)
        (ap
          (λ l.
            Column.coordinate_column nid 0
            ∷ Column.coordinate_column nid 1
            ∷ Column.rx_column nid
            ∷ Column.seq_column nid
            ∷ Column.rssi_column nid
            ∷ l)
          (columns_of-entries_from 2 (suc i) nids s (inr refl)))

  cells_of-values_of :
      (dim i nid : ℕ) (s : Sample V)
      → IsDim dim
      → value_cells floats dim (i * dim) s.neighbor_vstates ≡ cells_of (values_of dim i nid s)
  unfolding value_cells
  cells_of-values_of dim i nid s (inl e) =
      let k : i * 1 ≡ i = omega arith in
      subst (λ d. value_cells floats d (i * d) s.neighbor_vstates ≡ cells_of (values_of d i nid s))
        (sym e) (ap (λ j. get_or s.neighbor_vstates j floats.nought ∷ []) k)
  cells_of-values_of dim i nid s (inr e) =
      let k : i * 2 ≡ 2 * i = omega arith in
      let k' : suc (i * 2) ≡ 2 * i + 1 = omega arith in
      subst (λ d. value_cells floats d (i * d) s.neighbor_vstates ≡ cells_of (values_of d i nid s))
        (sym e)
        (ap₂
          (λ a b.
            get_or s.neighbor_vstates a floats.nought
            ∷ get_or s.neighbor_vstates b floats.nought
            ∷ [])
          k k')

  cells_of-entries_from :
      (dim i : ℕ) (nids : List ℕ) (s : Sample V)
      → IsDim dim
      → cells_of (entries_from dim i nids s) ≡ neighbour_cells floats (length nids) i dim s
  unfolding neighbour_cells
  cells_of-entries_from dim i [] s h = refl
  cells_of-entries_from dim i (nid ∷ nids) s h =
      cells_of-append (neighbour_entries dim i nid s) (entries_from dim (suc i) nids s)
      ∙ ap₂ (λ a b. a ++ b) (cells_of-append (values_of dim i nid s) _)
          (cells_of-entries_from dim (suc i) nids s h)
      ∙ append_assoc (cells_of (values_of dim i nid s)) _
          (neighbour_cells floats (length nids) (suc i) dim s)
      ∙ ap
          (λ l.
            l
            ++ (flag floats (get_or s.neighbor_fresh i false)
                ∷ get_or s.neighbor_seq i floats.nought
                ∷ get_or s.neighbor_rssi i floats.nought
                ∷ neighbour_cells floats (length nids) (suc i) dim s))
          (sym (cells_of-values_of dim i nid s h))

  abbrev pub FitsMeta : RunMeta → Sample V → Type 0
  FitsMeta m s =
      (length s.timing ≡ length m.timing_columns) × (length s.channels ≡ length m.state_columns)

  -- The columns of the metadata and the cells of a row are the two sides of one list of entries, in
  -- which a value stands with the column that names it: the timing values, the controller's
  -- channels, and for each neighbour its one or two coordinates, its flag, its sequence number and
  -- its signal strength. The sample has as many timing values and channels as are declared.
  pub row_of-entries :
      (m : RunMeta) (s : Sample V)
      → IsDim m.dim
      → FitsMeta m s
      → (column_names m ≡ columns_of (entries m s)) × (row_of floats m s ≡ cells_of (entries m s))
  unfolding column_names row_of
  row_of-entries m s h k = (sym columns, sym cells)
    where
      timing : List (Column × V)
      timing = zipped Column.timing_column m.timing_columns s.timing

      state : List (Column × V)
      state = zipped Column.state_column m.state_columns s.channels

      others : List (Column × V)
      others = entries_from m.dim 0 m.neighbors s

      columns : columns_of (entries m s) ≡ column_names m
      columns =
          ap (λ l. Column.timestamp ∷ Column.device_timestamp ∷ l)
            (columns_of-append timing (state ++ others)
              ∙ ap₂ (λ a b. a ++ b)
                  (columns_of-zipped Column.timing_column m.timing_columns s.timing (k.0))
                  (columns_of-append state others
                    ∙ ap₂ (λ a b. a ++ b)
                        (columns_of-zipped Column.state_column m.state_columns s.channels (k.1))
                        (columns_of-entries_from m.dim 0 m.neighbors s h)))

      cells : cells_of (entries m s) ≡ row_of floats m s
      cells =
          ap (λ l. s.t_s ∷ or_first floats s.device_t_s s.t_s ∷ l)
            (cells_of-append timing (state ++ others)
              ∙ ap₂ (λ a b. a ++ b)
                  (cells_of-zipped Column.timing_column m.timing_columns s.timing (k.0))
                  (cells_of-append state others
                    ∙ ap₂ (λ a b. a ++ b)
                        (cells_of-zipped Column.state_column m.state_columns s.channels (k.1))
                        (cells_of-entries_from m.dim 0 m.neighbors s h)))
