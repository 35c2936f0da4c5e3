-- ===== src/Radio/Hci/Commands.antt =====
-- The command that carries advertising data.
use vertex_testbed.Radio.Hci.{cmd, cmd_le_set_adv_data, hci_command_pkt}
use vertex_testbed.Common.Bytes.{Bytes, pack_u, le_bytes}
use vertex_testbed.Common.{
  ◌∷◌, ℕ, zero, suc, ok, err, true, false, Exception, ◌++◌, ◌≡◌, ◌≤◌, ◌<◌, ◌-◌, length,
  length-append, take, take-length_append, replicate, leb, refl, arith,
}

length-replicate : (n a : ℕ) → length (replicate n a) ≡ n
length-replicate zero a = omega arith
length-replicate (suc n) a = omega (arith, length-replicate n a)

abbrev adv_params : Bytes → Bytes
adv_params ad = (length ad ∷ ad) ++ replicate (31 - length ad) 0x00

-- The command for advertising data is 36 bytes whatever the data: after the packet's type, the
-- opcode and the length 32 of its parameters, the data's own length and a field of 31 bytes, which
-- starts with the data. Data of more than 31 bytes is refused.
cmd_le_set_adv_data_fixed :
    (ad : Bytes)
    → (length ad ≤ 31
        → (params : Bytes) × (cmd_le_set_adv_data ad
            ≡ ok (hci_command_pkt ∷ 0x08 ∷ 0x20 ∷ 32 ∷ length ad ∷ params))
          × (length params ≡ 31)
          × (take (length ad) params ≡ ad))
      × (31 < length ad → cmd_le_set_adv_data ad ≡ err Exception.hci_error)
unfolding cmd_le_set_adv_data cmd pack_u le_bytes
cmd_le_set_adv_data_fixed ad = (
  (λ h.
      let small : leb (length ad) 31 ≡ true = ground arith in
      let size : length (adv_params ad) ≡ 32 = omega (
        arith,
        length-append ad (replicate (31 - length ad) 0x00),
        length-replicate (31 - length ad) 0x00,
      ) in
      let room : leb (length (adv_params ad)) 255 ≡ true = ground (arith, size) in
      (
        ad ++ replicate (31 - length ad) 0x00,
        rw small (rw room (rw size refl)),
        omega (arith, size),
        take-length_append ad (replicate (31 - length ad) 0x00),
      )),
  (λ h. let large : leb (length ad) 31 ≡ false = ground arith in rw large refl),
)
