-- ===== src/Agent/RunLog/Written.antt =====
-- A whole run of a log: what was appended is what the rows file holds.
use vertex_testbed.Agent.RunLog.{
  flag, Doubles, RunMeta, Sample, RunLog, record_width, run_log, start, flush, close, value_cells,
  neighbour_cells, row_of, append, pack_row, buffered, recover_rows,
}
use vertex_testbed.Agent.RunLog.Layout.{FitsMeta}
use vertex_testbed.Agent.RunLog.Recovery.{IsDouble, flat, flat-append, IsRow, recover_rows-flat}
use vertex_testbed.Common.{
  result_or, get_or, List, [], ◌∷◌, ℕ, zero, suc, Result, ok, err, true, false, Bool, Exception,
  ◌++◌, ◌≡◌, ◌⊎◌, inl, inr, ◌+◌, ◌*◌, ◌<◌, length, length-append, refl, ap, arith, sym, ◌∙◌, ◌==◌,
  ◌>>◌, ◌>>=◌, require, subst, ==_iff, All, leb, Bool-cases,
}
use mathlib.Core.List.{append_assoc, append-nil}
use native.Mathlib.Nat.{mul-suc}

require_met {ℓ} :
    {A : Type ℓ} (b : Bool) (e : Exception) (x : Result A) → b ≡ true → (require b e >> x) ≡ x
require_met true e x h = refl
require_met false e x h = absurd (ground arith)

module _ {V : Type 0} (floats : Doubles V) where
  abbrev pub append_all : RunLog → List (Sample V) → Result RunLog
  append_all l [] = ok l
  append_all l (s ∷ ss) = append floats l s >>= λ l'. append_all l' ss

  abbrev pub rows_of : RunMeta → List (Sample V) → List (List V)
  rows_of m [] = []
  rows_of m (s ∷ ss) = row_of floats m s ∷ rows_of m ss

  length-value_cells : (d k : ℕ) (vs : List V) → length (value_cells floats d k vs) ≡ d
  unfolding value_cells
  length-value_cells zero k vs = omega arith
  length-value_cells (suc d) k vs = omega (arith, length-value_cells d (suc k) vs)

  length-neighbour_cells :
      (n i dim : ℕ) (s : Sample V) → length (neighbour_cells floats n i dim s) ≡ (3 + dim) * n
  unfolding neighbour_cells
  length-neighbour_cells zero i dim s = omega arith
  length-neighbour_cells (suc n) i dim s = omega (
    arith,
    length-append (value_cells floats dim (i * dim) s.neighbor_vstates) (
        flag floats (get_or s.neighbor_fresh i false)
        ∷ get_or s.neighbor_seq i floats.nought
        ∷ get_or s.neighbor_rssi i floats.nought
        ∷ neighbour_cells floats n (suc i) dim s),
    length-value_cells dim (i * dim) s.neighbor_vstates,
    length-neighbour_cells n (suc i) dim s,
    mul-suc (3 + dim) n,
  )

  abbrev width : RunMeta → ℕ
  width m =
      record_width (length m.neighbors) (length m.state_columns) (length m.timing_columns) m.dim

  length-row_of :
      (m : RunMeta) (s : Sample V) → FitsMeta floats m s → length (row_of floats m s) ≡ width m
  unfolding row_of record_width
  length-row_of m s h = omega (
    arith,
    length-append s.timing (s.channels ++ neighbour_cells floats (length m.neighbors) 0 m.dim s),
    length-append s.channels (neighbour_cells floats (length m.neighbors) 0 m.dim s),
    length-neighbour_cells (length m.neighbors) 0 m.dim s,
  )

  width_positive : (m : RunMeta) → 0 < width m
  unfolding record_width
  width_positive m = omega arith

  rows_of-IsRow :
      (m : RunMeta) (ss : List (Sample V))
      → All (FitsMeta floats m) ss
      → All (IsRow floats (width m)) (rows_of m ss)
  rows_of-IsRow m [] h = tt
  rows_of-IsRow m (s ∷ ss) h = (length-row_of m s h.0, rows_of-IsRow m ss h.1)

  -- The rows written and buffered, in a log that is open.
  abbrev Holds : RunLog → RunMeta → List (List V) → Type 0
  Holds l m rows =
      (l.is_open ≡ true)
      × (l.meta ≡ m)
      × (l.ncols ≡ width m)
      × (l.file ++ l.buf ≡ flat floats rows)
      × (l.samples ≡ length rows)

  flush-Holds :
      (l : RunLog) (m : RunMeta) (rows : List (List V)) → Holds l m rows → Holds (flush l) m rows
  unfolding flush
  flush-Holds l m rows (o, e, w, c, n) = rw o (refl, e, w, append-nil (l.file ++ l.buf) ∙ c, n)

  buffered-Holds :
      (l : RunLog) (m : RunMeta) (rows : List (List V)) (row : List V)
      → Holds l m rows
      → Holds (buffered floats l (pack_row floats row)) m (rows ++ (row ∷ []))
  unfolding buffered
  buffered-Holds l m rows row (o, e, w, c, n) =
      go (Bool-cases (leb l.flush_every (suc l.since_flush)))
    where
      filled : RunLog
      filled = record l {
        buf = l.buf ++ pack_row floats row;
        samples = suc l.samples;
        since_flush = suc l.since_flush;
      }

      held : Holds filled m (rows ++ (row ∷ []))
      held = (
        o,
        e,
        w,
        sym (append_assoc l.file l.buf (pack_row floats row))
            ∙ ap (λ b. b ++ pack_row floats row) c
            ∙ ap (λ b. flat floats rows ++ b) (sym (append-nil (pack_row floats row)))
            ∙ sym (flat-append floats rows (row ∷ [])),
        omega (arith, length-append rows (row ∷ [])),
      )

      go :
          (leb l.flush_every (suc l.since_flush) ≡ true)
            ⊎ (leb l.flush_every (suc l.since_flush) ≡ false)
          → Holds (buffered floats l (pack_row floats row)) m (rows ++ (row ∷ []))
      go (inl t) = rw (t, buffered) (flush-Holds filled m (rows ++ (row ∷ [])) held)
      go (inr f) = rw (f, buffered) held

  append_ok :
      (l : RunLog) (m : RunMeta) (rows : List (List V)) (s : Sample V)
      → Holds l m rows
      → FitsMeta floats m s
      → append floats l s ≡ ok (buffered floats l (pack_row floats (row_of floats m s)))
  unfolding append
  append_ok l m rows s (o, e, w, c, n) k =
      require_met _ _ _ o
      ∙ require_met _ _ _ timing
      ∙ require_met _ _ _ channels
      ∙ require_met _ _ _ row
      ∙ ap (λ x. ok (buffered floats l (pack_row floats (row_of floats x s)))) e
    where
      timing : (length s.timing == length l.meta.timing_columns) ≡ true
      timing = (==_iff _ _).1 (k.0 ∙ ap (λ x. length x.timing_columns) (sym e))

      channels : (length s.channels == length l.meta.state_columns) ≡ true
      channels = (==_iff _ _).1 (k.1 ∙ ap (λ x. length x.state_columns) (sym e))

      row : (length (row_of floats l.meta s) == l.ncols) ≡ true
      row = (==_iff _ _).1 (ap (λ x. length (row_of floats x s)) e ∙ length-row_of m s k ∙ sym w)

  append_all-Holds :
      (ss : List (Sample V)) (l : RunLog) (m : RunMeta) (rows : List (List V))
      → Holds l m rows
      → All (FitsMeta floats m) ss
      → (l' : RunLog) × (append_all l ss ≡ ok l') × Holds l' m (rows ++ rows_of m ss)
  append_all-Holds [] l m rows h k = (l, refl, subst (Holds l m) (sym (append-nil rows)) h)
  append_all-Holds (s ∷ ss) l m rows h k = go (
      append_all-Holds ss (buffered floats l (pack_row floats (row_of floats m s))) m
        (rows ++ (row_of floats m s ∷ [])) (buffered-Holds l m rows (row_of floats m s) h) k.1)
    where
      next : RunLog
      next = buffered floats l (pack_row floats (row_of floats m s))

      go :
          ((l' : RunLog) × (append_all next ss ≡ ok l')
            × Holds l' m ((rows ++ (row_of floats m s ∷ [])) ++ rows_of m ss))
          → (l' : RunLog) × (append_all l (s ∷ ss) ≡ ok l')
            × Holds l' m (rows ++ rows_of m (s ∷ ss))
      go (l', e, h') = (
        l',
        ap (λ x. x >>= λ l''. append_all l'' ss) (append_ok l m rows s h k.0) ∙ e,
        subst (Holds l' m) (append_assoc rows (row_of floats m s ∷ []) (rows_of m ss)) h',
      )

  start-Holds :
      (meta : RunMeta) (flush_every : ℕ) (l : RunLog)
      → run_log meta flush_every ≡ ok l
      → Holds (start l) (start l).meta [] × ((start l).meta.record_bytes ≡ width (start l).meta * 8)
  unfolding run_log start
  start-Holds meta flush_every l e = go (Bool-cases (leb 1 flush_every))
    where
      Goal : RunLog → Type 0
      Goal k =
          Holds (start k) (start k).meta []
          × ((start k).meta.record_bytes ≡ width (start k).meta * 8)

      go : (leb 1 flush_every ≡ true) ⊎ (leb 1 flush_every ≡ false) → Goal l
      go (inl t) =
          subst Goal (ap (λ x. result_or x l) (sym (require_met _ _ _ t) ∙ e))
            ((refl, refl, refl, refl, refl), refl)
      go (inr f) = let bad : err Exception.value_error ≡ ok l = rw f at e in absurd (ground arith)

  close-Holds :
      (l : RunLog) (m : RunMeta) (rows : List (List V))
      → Holds l m rows
      → ((close l).file ≡ flat floats rows) × ((close l).meta ≡ record m { samples = length rows })
  unfolding close flush
  close-Holds l m rows (o, e, w, c, n) = rw o (c, rw e (rw n refl))

  module _ (laws : IsDouble floats) where
    -- A run's log loses no sample. After the samples of a run were appended, each with as many
    -- timing values and channels as were declared, to a log that had been started, `close` leaves a
    -- rows file that `recover_rows` reads as the rows of those samples, in order, and the metadata
    -- counts them; no `append` raises.
    pub recover_rows-append_all :
        (meta : RunMeta) (flush_every : ℕ) (l : RunLog) (ss : List (Sample V))
        → run_log meta flush_every ≡ ok l
        → All (FitsMeta floats (start l).meta) ss
        → (l' : RunLog) × (append_all (start l) ss ≡ ok l')
          × (recover_rows floats (close l').meta (close l').file ≡ ok (rows_of (start l).meta ss))
          × ((close l').meta.samples ≡ length (rows_of (start l).meta ss))
    recover_rows-append_all meta flush_every l ss e k =
        go (append_all-Holds ss (start l) (start l).meta [] (begun.0) k)
      where
        m : RunMeta
        m = (start l).meta

        begun :
            Holds (start l) (start l).meta []
            × ((start l).meta.record_bytes ≡ width (start l).meta * 8)
        begun = start-Holds meta flush_every l e

        read :
            (l' : RunLog)
            → ((close l').file ≡ flat floats (rows_of m ss))
              × ((close l').meta ≡ record m { samples = length (rows_of m ss) })
            → recover_rows floats (close l').meta (close l').file ≡ ok (rows_of m ss)
        read l' (f, e') = rw f (
            rw e' (
              ap (recover_rows floats (record m { samples = length (rows_of m ss) }))
                (sym (append-nil (flat floats (rows_of m ss))))
              ∙ recover_rows-flat floats laws (record m { samples = length (rows_of m ss) })
                  (width m) (rows_of m ss) [] (begun.1) (width_positive m) (rows_of-IsRow m ss k)
                  (omega (arith, begun.1, width_positive m))))

        go :
            ((l' : RunLog) × (append_all (start l) ss ≡ ok l') × Holds l' m ([] ++ rows_of m ss))
            → (l' : RunLog) × (append_all (start l) ss ≡ ok l')
              × (recover_rows floats (close l').meta (close l').file ≡ ok (rows_of m ss))
              × ((close l').meta.samples ≡ length (rows_of m ss))
        go (l', a, h) =
            let c : ((close l').file ≡ flat floats (rows_of m ss))
                × ((close l').meta ≡ record m { samples = length (rows_of m ss) }) =
              close-Holds l' m (rows_of m ss) h in
            (l', a, read l' c, ap (λ x. x.samples) (c.1))
