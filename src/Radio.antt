-- ===== src/Radio.antt =====
-- vertex/radio: advertising data (ad.py), and the commands and events of the controller (hci.py).
pub mod Hci
pub mod Ad
pub mod AdRoundTrip
