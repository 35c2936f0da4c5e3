-- ===== src/Serial/FrameType.antt =====
-- `FrameType` of vertex/serial/proto.py.
use Prim.Native.Nat.{ℕ}

abbrev pub network : ℕ
network = 0x4E

abbrev pub algorithm : ℕ
algorithm = 0x41

abbrev pub disturbance : ℕ
disturbance = 0x44

abbrev pub control : ℕ
control = 0x53

abbrev pub adv_tx : ℕ
adv_tx = 0x54

abbrev pub radio : ℕ
radio = 0x52

abbrev pub ping : ℕ
ping = 0x50

abbrev pub stats_req : ℕ
stats_req = 0x51

abbrev pub mg_plant : ℕ
mg_plant = 0x47

abbrev pub mg_virtual : ℕ
mg_virtual = 0x56

abbrev pub mg_iface : ℕ
mg_iface = 0x49

abbrev pub txat : ℕ
txat = 0x74

abbrev pub adv_report : ℕ
adv_report = 0x72

abbrev pub state : ℕ
state = 0x78

abbrev pub ack : ℕ
ack = 0x6B

abbrev pub err : ℕ
err = 0x65

abbrev pub pong : ℕ
pong = 0x70

abbrev pub stats : ℕ
stats = 0x71
