-- ===== src/Ar8216/Asic.antt =====
-- What is relied on of an AR8216: its registers keep what is written, an operation of the VLAN
-- translation unit, which starts by a write to `AR8216_REG_VTU`, is over after at most twenty reads
-- of that register, and a port in the mode `AR8216_IN_SECURE` is bound to the VLANs of that unit.
use wair_os.Base.{
  ℕ, ◌-◌, ◌%◌, ◌^◌, ◌<◌, ◌≤◌, ◌≡◌, bit_and, bit_or, Bool, true, ◌&&◌, ◌||◌, ◌+◌, has_bit, leb, ◌==◌,
  if◌then◌else◌, ◌<<◌, update,
}
use wair_os.Ar8216.Mii.{Regs}
use wair_os.Ar8216.Apply.{
  reg_vtu, reg_vtu_data, reg_port_vlan, vtu_op_flush, vtu_op_load, vtu_active,
}

pub record Store : Type 0 where
  pub regs : ℕ → ℕ
  -- the word of a VID in the VLAN translation unit, 0 where there is none
  pub vtu : ℕ → ℕ
  -- the reads of `AR8216_REG_VTU` that still show an operation
  pub busy : ℕ

-- `AR8216_REG_VTU_DATA` and the registers of the ports
abbrev pub is_kept : ℕ → Bool
is_kept a = (a == reg_vtu_data) || leb 0x100 a

pub record Asic {D : Type 0} (b : Regs D) : Type 0 where
  pub store : D → Store
  pub busy_most : (d : D) → (store d).busy ≤ 20
  pub reads :
      (a : ℕ) (d : D)
      → is_kept a ≡ true
      → ((b.read a d).0 ≡ (store d).regs a) × (store (b.read a d).1 ≡ store d)
  pub polls :
      (d : D)
      → (bit_and (b.read reg_vtu d).0 vtu_active ≡ (if (store d).busy == 0 then 0 else vtu_active))
        × (store (b.read reg_vtu d).1 ≡ record (store d) { busy = (store d).busy - 1 })
  pub writes :
      (a x : ℕ) (d : D)
      → is_kept a ≡ true
      → store (b.write a x d) ≡ record (store d) { regs = update (store d).regs a (x % 2 ^ 32) }
  pub flushes :
      (d : D)
      → (store d).busy ≡ 0
      → let w = store (b.write reg_vtu (bit_or vtu_op_flush vtu_active) d) in
        (w.regs ≡ (store d).regs) × (w.vtu ≡ λ v. 0)
  pub loads :
      (vid : ℕ) (d : D)
      → vid < 4096
      → (store d).busy ≡ 0
      → let w = store (b.write reg_vtu (bit_or (bit_or vtu_op_load (vid << 16)) vtu_active) d) in
        (w.regs ≡ (store d).regs) × (w.vtu ≡ update (store d).vtu vid ((store d).regs reg_vtu_data))

-- `AR8216_PORT_VLAN_MODE` of a word of `AR8216_REG_PORT_VLAN` is `AR8216_IN_SECURE`.
abbrev pub is_secure : ℕ → Bool
is_secure word = has_bit word 30 && has_bit word 31

-- The VLANs let a packet of VLAN `vid` that comes in at port `i` go out at port `q`: `passes d vid i
-- q`. A port in the mode `AR8216_IN_SECURE` has its destination bits, and the translation unit must
-- have the VLAN, marked `AR8216_VTUDATA_VALID`, with both ports as members.
pub record Forwarding {D : Type 0} {b : Regs D} (k : Asic b) : Type 0 where
  pub passes : D → ℕ → ℕ → ℕ → Bool
  pub secure :
      (d : D) (vid i q : ℕ)
      → is_secure ((k.store d).regs (reg_port_vlan i)) ≡ true
      → let word = (k.store d).vtu vid in
        passes d vid i q
        ≡ has_bit ((k.store d).regs (reg_port_vlan i)) (16 + q)
          && (has_bit word 11 && (has_bit word i && has_bit word q))
