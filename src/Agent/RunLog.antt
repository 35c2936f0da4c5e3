-- ===== src/Agent/RunLog.antt =====
-- `RunLog` and `recover_rows` of vertex/agent/runlog.py, for the binary format; the other two leave
-- their rows to `csv` and `json`. A column's name is the term of which its text is made. Opening
-- and writing the files does not fail.
pub mod Layout
pub mod Recovery
pub mod Written
use vertex_testbed.Common.{
  List, [], ◌∷◌, ℕ, zero, suc, Option, none, some, Result, ok, err, true, false, Bool, Exception,
  ◌++◌, ◌==◌, if◌then◌else◌, ◌>>=◌, ◌>>◌, require, ◌+◌, ◌*◌, ◌/◌, length, get_or, take, drop, leb,
  not,
}
use vertex_testbed.Common.Bytes.{Bytes}

-- Floating point, of which the log writes the eight bytes of a double.
pub record Doubles (V : Type 0) : Type 0 where
  pub nought : V
  pub unit : V
  pub pack : V → Bytes
  pub unpack : Bytes → V

pub data Column : Type 0 where
  timestamp device_timestamp : Column
  timing_column state_column : ℕ → Column
  value_column rx_column seq_column rssi_column : ℕ → Column
  coordinate_column : ℕ → ℕ → Column

-- The fields of `RunMeta` that the rows depend on, and `samples`; a channel's name is a number.
pub record RunMeta : Type 0 where
  pub neighbors : List ℕ
  pub dim : ℕ
  pub state_columns : List ℕ
  pub timing_columns : List ℕ
  pub record_bytes : ℕ
  pub samples : ℕ

-- `_ITEM`
abbrev pub item : ℕ
item = 8

unfoldable pub record_width : ℕ → ℕ → ℕ → ℕ → ℕ
record_width n_neighbors n_state n_timing dim = 2 + n_timing + n_state + (3 + dim) * n_neighbors

-- The columns of one neighbour: `COORD_SUFFIX` has two.
unfoldable pub coordinates : ℕ → ℕ → List Column
coordinates nid zero = []
coordinates nid (suc zero) = Column.coordinate_column nid 0 ∷ []
coordinates nid (suc (suc d)) = Column.coordinate_column nid 0 ∷ Column.coordinate_column nid 1 ∷ []

unfoldable pub neighbour_columns : ℕ → ℕ → List Column
unfolding coordinates
neighbour_columns dim nid =
    (if dim == 1 then Column.value_column nid ∷ [] else coordinates nid dim)
    ++ (Column.rx_column nid ∷ Column.seq_column nid ∷ Column.rssi_column nid ∷ [])

unfoldable pub all_neighbour_columns : ℕ → List ℕ → List Column
unfolding neighbour_columns
all_neighbour_columns dim [] = []
all_neighbour_columns dim (nid ∷ nids) = neighbour_columns dim nid ++ all_neighbour_columns dim nids

abbrev pub named : (ℕ → Column) → List ℕ → List Column
named c [] = []
named c (n ∷ ns) = c n ∷ named c ns

unfoldable pub column_names : RunMeta → List Column
unfolding all_neighbour_columns
column_names m =
    Column.timestamp
    ∷ Column.device_timestamp
    ∷ (named Column.timing_column m.timing_columns
        ++ (named Column.state_column m.state_columns ++ all_neighbour_columns m.dim m.neighbors))

-- One call of `append`.
pub record Sample (V : Type 0) : Type 0 where
  pub t_s : V
  pub channels : List V
  pub neighbor_vstates : List V
  pub neighbor_fresh : List Bool
  pub device_t_s : Option V
  pub neighbor_seq : List V
  pub neighbor_rssi : List V
  pub timing : List V

-- `_fh` is open or not; `file` is what has been written to it.
pub record RunLog : Type 0 where
  pub meta : RunMeta
  pub flush_every : ℕ
  pub ncols : ℕ
  pub is_open : Bool
  pub file : Bytes
  pub buf : Bytes
  pub since_flush : ℕ
  pub samples : ℕ

-- The constructor, and `start`.
unfoldable pub run_log : RunMeta → ℕ → Result RunLog
unfolding record_width
run_log meta flush_every =
    let ncols : ℕ =
      record_width (length meta.neighbors) (length meta.state_columns) (length meta.timing_columns)
        meta.dim in
    do
      require (leb 1 flush_every) Exception.value_error
      ok (record {
        meta = record meta { record_bytes = ncols * item };
        flush_every = flush_every;
        ncols = ncols;
        is_open = false;
        file = [];
        buf = [];
        since_flush = 0;
        samples = 0;
      })

unfoldable pub start : RunLog → RunLog
start l = record l {
  meta = record (l.meta) { samples = l.samples };
  is_open = true;
  file = [];
  samples = 0;
  since_flush = 0;
}

unfoldable pub flush : RunLog → RunLog
flush l =
    if l.is_open
    then record l { file = l.file ++ l.buf; buf = []; since_flush = 0 }
    else record l { since_flush = 0 }

module _ {V : Type 0} (floats : Doubles V) where
  abbrev pub or_first : Option V → V → V
  or_first none v = v
  or_first (some d) v = d

  abbrev flag : Bool → V
  flag true = floats.unit
  flag false = floats.nought

  -- `for c in range(dim)`, for the neighbour whose values start at `k`.
  unfoldable pub value_cells : ℕ → ℕ → List V → List V
  value_cells zero k vs = []
  value_cells (suc d) k vs = get_or vs k floats.nought ∷ value_cells d (suc k) vs

  -- `for i in range(n)`
  unfoldable pub neighbour_cells : ℕ → ℕ → ℕ → Sample V → List V
  unfolding value_cells
  neighbour_cells zero i dim s = []
  neighbour_cells (suc n) i dim s =
      value_cells dim (i * dim) s.neighbor_vstates
      ++ (flag (get_or s.neighbor_fresh i false)
          ∷ get_or s.neighbor_seq i floats.nought
          ∷ get_or s.neighbor_rssi i floats.nought
          ∷ neighbour_cells n (suc i) dim s)

  unfoldable pub row_of : RunMeta → Sample V → List V
  unfolding neighbour_cells
  row_of m s =
      s.t_s
      ∷ or_first s.device_t_s s.t_s
      ∷ (s.timing ++ (s.channels ++ neighbour_cells (length m.neighbors) 0 m.dim s))

  abbrev pub pack_row : List V → Bytes
  pack_row [] = []
  pack_row (v ∷ vs) = floats.pack v ++ pack_row vs

  unfoldable pub buffered : RunLog → Bytes → RunLog
  unfolding flush
  buffered l packed =
      let l' : RunLog = record l {
        buf = l.buf ++ packed;
        samples = suc l.samples;
        since_flush = suc l.since_flush;
      } in
      if leb l.flush_every (suc l.since_flush) then flush l' else l'

  -- `append`; `struct` refuses a row that is not as wide as the record.
  unfoldable pub append : RunLog → Sample V → Result RunLog
  unfolding row_of buffered
  append l s = do
    require l.is_open Exception.runtime_error
    require (length s.timing == length l.meta.timing_columns) Exception.value_error
    require (length s.channels == length l.meta.state_columns) Exception.value_error
    require (length (row_of l.meta s) == l.ncols) Exception.struct_error
    ok (buffered l (pack_row (row_of l.meta s)))

-- `close`, which `finalize` calls, and which writes the number of samples into the metadata.
unfoldable pub close : RunLog → RunLog
unfolding flush
close l =
    let l' : RunLog = if l.is_open then record (flush l) { is_open = false } else l in
    record l' { meta = record (l'.meta) { samples = l'.samples } }

module _ {V : Type 0} (floats : Doubles V) where
  -- `struct.unpack_from` of `n` doubles.
  unfoldable pub unpack_row : ℕ → Bytes → List V
  unpack_row zero bs = []
  unpack_row (suc n) bs = floats.unpack (take item bs) ∷ unpack_row n (drop item bs)

  unfoldable pub rows_from : ℕ → ℕ → ℕ → Bytes → List (List V)
  unfolding unpack_row
  rows_from zero ncols record_bytes bs = []
  rows_from (suc n) ncols record_bytes bs =
      unpack_row ncols bs ∷ rows_from n ncols record_bytes (drop record_bytes bs)

  -- `recover_rows` of a `.bin` file: as many records as are whole.
  unfoldable pub recover_rows : RunMeta → Bytes → Result (List (List V))
  unfolding rows_from
  recover_rows m blob = do
    require (not (m.record_bytes == 0)) Exception.value_error
    ok (rows_from (length blob / m.record_bytes) (m.record_bytes / item) m.record_bytes blob)
