-- ===== src/Radio/Hci.antt =====
-- The packets of vertex/radio/hci.py: the commands that are built, and the events that are parsed.
pub mod Commands
pub mod Reports
use vertex_testbed.Common.Bytes.{Bytes, pack_u, unpack_u, unpack_i8, to_bytes, le_bytes}
use vertex_testbed.Common.Int.{ℤ}
use vertex_testbed.Common.{
  List, [], ◌∷◌, ℕ, zero, suc, Option, none, some, Result, ok, err, true, false, Bool, Exception,
  ◌++◌, ◌==◌, ◌&&◌, ◌+◌, ◌-◌, ◌*◌, ◌^◌, leb, ltb, not, length, take, drop, replicate, if◌then◌else◌,
  require, ◌>>◌, ◌>>=◌,
}

abbrev pub hci_command_pkt : ℕ
hci_command_pkt = 0x01

abbrev hci_event_pkt : ℕ
hci_event_pkt = 0x04

-- `opcode`
unfoldable opcode : ℕ → ℕ → ℕ
opcode ogf ocf = ogf * 2 ^ 10 + ocf

abbrev op_reset : ℕ
op_reset = 3 * 2 ^ 10 + 0x0003

abbrev op_le_set_adv_parameters : ℕ
op_le_set_adv_parameters = 8 * 2 ^ 10 + 0x0006

abbrev op_le_set_adv_data : ℕ
op_le_set_adv_data = 8 * 2 ^ 10 + 0x0008

abbrev op_le_set_adv_enable : ℕ
op_le_set_adv_enable = 8 * 2 ^ 10 + 0x000A

abbrev op_le_set_scan_parameters : ℕ
op_le_set_scan_parameters = 8 * 2 ^ 10 + 0x000B

abbrev op_le_set_scan_enable : ℕ
op_le_set_scan_enable = 8 * 2 ^ 10 + 0x000C

-- `bytes([b])` of one number.
abbrev one_byte : ℕ → Result Bytes
one_byte b = if ltb b 256 then ok (b ∷ []) else err Exception.value_error

-- `_cmd`
unfoldable pub cmd : ℕ → Bytes → Result Bytes
cmd op params = do
  require (leb (length params) 255) Exception.hci_error
  code ← pack_u 2 op
  ok ((hci_command_pkt ∷ code) ++ (length params ∷ params))

unfoldable cmd_reset : Result Bytes
unfolding cmd
cmd_reset = cmd op_reset []

unfoldable cmd_le_set_adv_parameters : ℕ → ℕ → ℕ → ℕ → ℕ → ℕ → Result Bytes
unfolding cmd
cmd_le_set_adv_parameters interval_min interval_max adv_type own_addr_type channel_map
      filter_policy =
    do
      require (leb interval_min interval_max) Exception.hci_error
      require (leb 0x01 channel_map && leb channel_map 0x07) Exception.hci_error
      low ← pack_u 2 interval_min
      high ← pack_u 2 interval_max
      type ← pack_u 1 adv_type
      addr ← pack_u 1 own_addr_type
      map ← one_byte channel_map
      policy ← one_byte filter_policy
      cmd op_le_set_adv_parameters
          (low ++ (high ++ (type ++ (addr ++ (0x00 ∷ replicate 6 0x00) ++ (map ++ policy)))))

unfoldable pub cmd_le_set_adv_data : Bytes → Result Bytes
unfolding cmd
cmd_le_set_adv_data ad = do
  require (leb (length ad) 31) Exception.hci_error
  cmd op_le_set_adv_data ((length ad ∷ ad) ++ replicate (31 - length ad) 0x00)

abbrev pub flag : Bool → ℕ
flag true = 0x01
flag false = 0x00

unfoldable cmd_le_set_adv_enable : Bool → Result Bytes
unfolding cmd
cmd_le_set_adv_enable enable = cmd op_le_set_adv_enable (flag enable ∷ [])

unfoldable cmd_le_set_scan_parameters : ℕ → ℕ → ℕ → ℕ → ℕ → Result Bytes
unfolding cmd
cmd_le_set_scan_parameters interval window scan_type own_addr_type filter_policy = do
  require (leb window interval) Exception.hci_error
  type ← pack_u 1 scan_type
  low ← pack_u 2 interval
  high ← pack_u 2 window
  addr ← pack_u 1 own_addr_type
  policy ← pack_u 1 filter_policy
  cmd op_le_set_scan_parameters (type ++ (low ++ (high ++ (addr ++ policy))))

unfoldable cmd_le_set_scan_enable : Bool → Bool → Result Bytes
unfolding cmd
cmd_le_set_scan_enable enable filter_duplicates =
    cmd op_le_set_scan_enable (flag enable ∷ flag filter_duplicates ∷ [])

abbrev evt_command_complete : ℕ
evt_command_complete = 0x0E

abbrev evt_command_status : ℕ
evt_command_status = 0x0F

abbrev evt_le_meta : ℕ
evt_le_meta = 0x3E

abbrev pub subevt_adv_report : ℕ
subevt_adv_report = 0x02

pub record Event : Type 0 where
  pub code : ℕ
  pub params : Bytes

pub record CommandComplete : Type 0 where
  pub opcode : ℕ
  pub status : ℕ
  pub params : Bytes

pub record CommandStatus : Type 0 where
  pub opcode : ℕ
  pub status : ℕ

pub record AdvReport : Type 0 where
  pub event_type : ℕ
  pub addr_type : ℕ
  pub addr : Bytes
  pub data_ : Bytes
  pub rssi : ℤ

unfoldable parse_event : Bytes → Result Event
parse_event (kind ∷ code ∷ plen ∷ rest) = do
  require (kind == hci_event_pkt) Exception.hci_error
  require (length (take plen rest) == plen) Exception.hci_error
  ok (record { code = code; params = take plen rest })
parse_event bs = err Exception.hci_error

unfoldable parse_command_complete : Bytes → Result CommandComplete
parse_command_complete (num ∷ low ∷ high ∷ status ∷ rest) =
    ok (record { opcode = low + 256 * high; status = status; params = rest })
parse_command_complete bs = err Exception.hci_error

unfoldable parse_command_status : Bytes → Result CommandStatus
parse_command_status (status ∷ num ∷ low ∷ high ∷ rest) =
    ok (record { opcode = low + 256 * high; status = status })
parse_command_status bs = err Exception.hci_error

abbrev pub with_rssi : ℕ → ℕ → Bytes → Bytes → Result (ℤ × Bytes) → Option (AdvReport × Bytes)
with_rssi type addr_type addr data_ (err e) = none
with_rssi type addr_type addr data_ (ok (rssi, rest)) = some (
  record { event_type = type; addr_type = addr_type; addr = addr; data_ = data_; rssi = rssi },
  rest,
)

-- One report of a batch, and what is behind it; `none` where it is cut off.
unfoldable pub parse_report : Bytes → Option (AdvReport × Bytes)
parse_report (type ∷ addr_type ∷ a0 ∷ a1 ∷ a2 ∷ a3 ∷ a4 ∷ a5 ∷ dlen ∷ rest) =
    with_rssi type addr_type (a0 ∷ a1 ∷ a2 ∷ a3 ∷ a4 ∷ a5 ∷ []) (take dlen rest)
      (unpack_i8 (drop dlen rest))
parse_report bs = none

-- The loop of `parse_adv_reports`.
unfoldable pub reports_from : ℕ → Bytes → List AdvReport
unfolding parse_report
reports_from zero bs = []
reports_from (suc n) bs = elim (parse_report bs) [ none ↦ [] | some p ↦ p.0 ∷ reports_from n p.1 ]

unfoldable pub parse_adv_reports : Bytes → List AdvReport
unfolding reports_from
parse_adv_reports [] = []
parse_adv_reports (subevent ∷ []) = []
parse_adv_reports (subevent ∷ num ∷ rest) =
    if subevent == subevt_adv_report then reports_from num rest else []
