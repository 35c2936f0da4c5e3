-- ===== src/Radio/Hci/Reports.antt =====
-- The reports of an LE advertising event.
use vertex_testbed.Radio.Hci.{
  AdvReport, parse_report, with_rssi, reports_from, parse_adv_reports, subevt_adv_report,
}
use vertex_testbed.Common.Bytes.{
  Bytes, unpack_i8, unpack_i8-append, unpack_u, le_bytes, length-le_bytes,
}
use vertex_testbed.Common.Int.{ℤ, fits_int8, to_word}
use vertex_testbed.Common.{
  List, [], ◌∷◌, ℕ, zero, suc, none, some, err, true, Exception, ◌++◌, ◌≡◌, ◌≤◌, ◌<◌, ◌+◌, All,
  length, length-append, length-take, length-drop, take, drop, take-length_append,
  drop-length_append, ltb, refl, ap, ap₂, ◌∙◌, arith,
}
use mathlib.Core.List.{append_assoc}

-- A report as the controller writes it.
abbrev pub report_bytes : AdvReport → Bytes
report_bytes r =
    r.event_type
    ∷ r.addr_type
    ∷ (r.addr ++ (length r.data_ ∷ (r.data_ ++ le_bytes 1 (to_word 256 r.rssi))))

abbrev IsReport : AdvReport → Type 0
IsReport r = (length r.addr ≡ 6) × (fits_int8 r.rssi ≡ true)

abbrev pub batch : List AdvReport → Bytes
batch [] = []
batch (r ∷ rs) = report_bytes r ++ batch rs

parse_rest :
    (type addr_type : ℕ) (addr data_ : Bytes) (rssi : ℤ) (rest : Bytes)
    → length addr ≡ 6
    → fits_int8 rssi ≡ true
    → parse_report (
        type
        ∷ addr_type
        ∷ (addr ++ (length data_ ∷ (data_ ++ (le_bytes 1 (to_word 256 rssi) ++ rest)))))
      ≡ some (
        record {
          event_type = type;
          addr_type = addr_type;
          addr = addr;
          data_ = data_;
          rssi = rssi;
        },
        rest,
      )
unfolding parse_report
parse_rest type at (a0 ∷ a1 ∷ a2 ∷ a3 ∷ a4 ∷ a5 ∷ []) data_ rssi rest h f =
    ap₂ (with_rssi type at (a0 ∷ a1 ∷ a2 ∷ a3 ∷ a4 ∷ a5 ∷ []))
      (take-length_append data_ (le_bytes 1 (to_word 256 rssi) ++ rest))
      (ap unpack_i8 (drop-length_append data_ (le_bytes 1 (to_word 256 rssi) ++ rest))
        ∙ unpack_i8-append rssi rest f)
parse_rest type at [] data_ rssi rest h f = absurd (omega arith)
parse_rest type at (a0 ∷ []) data_ rssi rest h f = absurd (omega arith)
parse_rest type at (a0 ∷ a1 ∷ []) data_ rssi rest h f = absurd (omega arith)
parse_rest type at (a0 ∷ a1 ∷ a2 ∷ []) data_ rssi rest h f = absurd (omega arith)
parse_rest type at (a0 ∷ a1 ∷ a2 ∷ a3 ∷ []) data_ rssi rest h f = absurd (omega arith)
parse_rest type at (a0 ∷ a1 ∷ a2 ∷ a3 ∷ a4 ∷ []) data_ rssi rest h f = absurd (omega arith)
parse_rest type at (a0 ∷ a1 ∷ a2 ∷ a3 ∷ a4 ∷ a5 ∷ a6 ∷ addr) data_ rssi rest h f =
    absurd (omega arith)

parse_report_bytes :
    (r : AdvReport) (rest : Bytes)
    → IsReport r
    → parse_report (report_bytes r ++ rest) ≡ some (r, rest)
parse_report_bytes r rest h =
    ap (λ l. parse_report (r.event_type ∷ r.addr_type ∷ l))
      (append_assoc r.addr (length r.data_ ∷ (r.data_ ++ le_bytes 1 (to_word 256 r.rssi))) rest
        ∙ ap (λ l. r.addr ++ (length r.data_ ∷ l))
            (append_assoc r.data_ (le_bytes 1 (to_word 256 r.rssi)) rest))
    ∙ parse_rest r.event_type r.addr_type r.addr r.data_ r.rssi rest (h.0) (h.1)

unpack_i8-nothing : (bs : Bytes) → length bs ≡ 0 → unpack_i8 bs ≡ err Exception.struct_error
unfolding unpack_i8 unpack_u
unpack_i8-nothing bs h = let t : ltb (length bs) 1 ≡ true = ground arith in rw t refl

parse_cut :
    (type addr_type : ℕ) (addr : Bytes) (dlen k : ℕ) (body : Bytes)
    → length addr ≡ 6
    → length (take k (addr ++ (dlen ∷ body))) < 8 + dlen
    → parse_report (type ∷ addr_type ∷ take k (addr ++ (dlen ∷ body))) ≡ none
unfolding parse_report
parse_cut type at (a0 ∷ a1 ∷ a2 ∷ a3 ∷ a4 ∷ a5 ∷ []) dlen zero body h w = refl
parse_cut type at (a0 ∷ a1 ∷ a2 ∷ a3 ∷ a4 ∷ a5 ∷ []) dlen (suc zero) body h w = refl
parse_cut type at (a0 ∷ a1 ∷ a2 ∷ a3 ∷ a4 ∷ a5 ∷ []) dlen (suc (suc zero)) body h w = refl
parse_cut type at (a0 ∷ a1 ∷ a2 ∷ a3 ∷ a4 ∷ a5 ∷ []) dlen (suc (suc (suc zero))) body h w = refl
parse_cut type at (a0 ∷ a1 ∷ a2 ∷ a3 ∷ a4 ∷ a5 ∷ []) dlen (suc (suc (suc (suc zero)))) body h w =
    refl
parse_cut type at (a0 ∷ a1 ∷ a2 ∷ a3 ∷ a4 ∷ a5 ∷ []) dlen (suc (suc (suc (suc (suc zero))))) body h
      w =
    refl
parse_cut type at (a0 ∷ a1 ∷ a2 ∷ a3 ∷ a4 ∷ a5 ∷ []) dlen (suc (suc (suc (suc (suc (suc zero))))))
      body h w =
    refl
parse_cut type at (a0 ∷ a1 ∷ a2 ∷ a3 ∷ a4 ∷ a5 ∷ []) dlen
      (suc (suc (suc (suc (suc (suc (suc k))))))) body h w =
    ap (with_rssi type at (a0 ∷ a1 ∷ a2 ∷ a3 ∷ a4 ∷ a5 ∷ []) (take dlen (take k body)))
      (unpack_i8-nothing (drop dlen (take k body)) (omega (arith, length-drop dlen (take k body))))
parse_cut type at addr dlen k body h w = absurd (omega arith)

-- A report that is cut off does not parse.
parse_report-cut :
    (r : AdvReport) (k : ℕ)
    → IsReport r
    → k < length (report_bytes r)
    → parse_report (take k (report_bytes r)) ≡ none
unfolding parse_report
parse_report-cut r zero h w = refl
parse_report-cut r (suc zero) h w = refl
parse_report-cut r (suc (suc k)) h w =
    parse_cut r.event_type r.addr_type r.addr (length r.data_) k
      (r.data_ ++ le_bytes 1 (to_word 256 r.rssi)) (h.0)
      (omega (
        arith,
        h.0,
        length-le_bytes 1 (to_word 256 r.rssi),
        length-append r.data_ (le_bytes 1 (to_word 256 r.rssi)),
        length-append r.addr (length r.data_ ∷ (r.data_ ++ le_bytes 1 (to_word 256 r.rssi))),
        length-take k (r.addr ++ (length r.data_ ∷ (r.data_ ++ le_bytes 1 (to_word 256 r.rssi)))),
      ))

reports_from-batch :
    (rs : List AdvReport) (n : ℕ) (tail : Bytes)
    → All IsReport rs
    → parse_report tail ≡ none
    → length rs ≤ n
    → reports_from n (batch rs ++ tail) ≡ rs
unfolding reports_from
reports_from-batch [] zero tail h e k = refl
reports_from-batch [] (suc n) tail h e k = rw e refl
reports_from-batch (r ∷ rs) zero tail h e k = absurd (omega arith)
reports_from-batch (r ∷ rs) (suc n) tail h e k =
    ap (λ o. elim o [ none ↦ [] | some p ↦ p.0 ∷ reports_from n p.1 ])
      (ap parse_report (append_assoc (report_bytes r) (batch rs) tail)
        ∙ parse_report_bytes r (batch rs ++ tail) h.0)
    ∙ ap (λ l. r ∷ l) (reports_from-batch rs n tail h.1 e (omega arith))

-- All the reports of a batch are found, each with its address, its data and its signal strength;
-- where the event is cut off inside a report, the reports before it are.
pub parse_adv_reports-batch :
    (rs : List AdvReport) (n : ℕ) (last : AdvReport) (k : ℕ)
    → All IsReport rs
    → IsReport last
    → k < length (report_bytes last)
    → length rs ≤ n
    → parse_adv_reports (subevt_adv_report ∷ n ∷ (batch rs ++ take k (report_bytes last))) ≡ rs
unfolding parse_adv_reports
parse_adv_reports-batch rs n last k h l w m =
    reports_from-batch rs n (take k (report_bytes last)) h (parse_report-cut last k l w) m
