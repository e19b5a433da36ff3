-- ===== src/Ag71xx/Mdio.antt =====
-- The MDIO access of the ag71xx controller, ag71xx_mdio.c: `ag71xx_mdio_mii_read`,
-- `ag71xx_mdio_mii_write` and the reset, over the registers of the controller. Delays and messages
-- are left out.
use wair_os.Base.{
  ℕ, zero, suc, ◌^◌, bit, bit_and, bit_or, ◌<<◌, Bool, true, false, ◌==◌, if◌then◌else◌, ◌%◌,
}
use wair_os.Ar8216.Mii.{Regs, MiiBus}

abbrev pub reg_mii_cfg : ℕ
reg_mii_cfg = 0x0020

abbrev pub reg_mii_cmd : ℕ
reg_mii_cmd = 0x0024

abbrev pub reg_mii_addr : ℕ
reg_mii_addr = 0x0028

abbrev pub reg_mii_ctrl : ℕ
reg_mii_ctrl = 0x002c

abbrev pub reg_mii_status : ℕ
reg_mii_status = 0x0030

abbrev pub reg_mii_ind : ℕ
reg_mii_ind = 0x0034

abbrev pub mii_cmd_write : ℕ
mii_cmd_write = 0x0

abbrev pub mii_cmd_read : ℕ
mii_cmd_read = 0x1

abbrev pub mii_ind_busy : ℕ
mii_ind_busy = bit 0

abbrev pub mdio_retry : ℕ
mdio_retry = 1000

-- The word for `AG71XX_REG_MII_ADDR`.
abbrev pub mii_addr_word : ℕ → ℕ → ℕ
mii_addr_word addr reg = bit_or (bit_and addr 0xff << 8) (bit_and reg 0xff)

module _ {D : Type 0} (b : Regs D) where
  -- The write, and the read that flushes it.
  unfoldable pub mdio_wr : ℕ → ℕ → D → D
  mdio_wr reg value d = (b.read reg (b.write reg value d)).1

  -- The loop of both functions, with `i` still to count down; it returns whether the time is over.
  unfoldable pub mdio_wait : ℕ → D → Bool × D
  mdio_wait zero d =
      let r = b.read reg_mii_ind d in (if bit_and r.0 mii_ind_busy == 0 then false else true, r.1)
  mdio_wait (suc i) d =
      let r = b.read reg_mii_ind d in
      let rest = mdio_wait i r.1 in if bit_and r.0 mii_ind_busy == 0 then (false, r.1) else rest

  -- The end of `ag71xx_mdio_mii_read`, after the loop.
  unfoldable pub mdio_take : Bool × D → ℕ × D
  mdio_take (true, d) = (0xffff, d)
  mdio_take (false, d) =
      let r = b.read reg_mii_status d in (bit_and r.0 0xffff, mdio_wr reg_mii_cmd mii_cmd_write r.1)

  unfoldable pub mdio_mii_read : ℕ → ℕ → D → ℕ × D
  mdio_mii_read addr reg d =
      let d₁ = mdio_wr reg_mii_cmd mii_cmd_write d in
      let d₂ = mdio_wr reg_mii_addr (mii_addr_word addr reg) d₁ in
      let d₃ = mdio_wr reg_mii_cmd mii_cmd_read d₂ in mdio_take (mdio_wait mdio_retry d₃)

  unfoldable pub mdio_mii_write : ℕ → ℕ → ℕ → D → D
  mdio_mii_write addr reg val d =
      let d₁ = mdio_wr reg_mii_addr (mii_addr_word addr reg) d in
      let d₂ = mdio_wr reg_mii_ctrl (val % 2 ^ 16) d₁ in (mdio_wait mdio_retry d₂).1

  -- Both as a bus.
  abbrev pub mdio_bus : MiiBus D
  mdio_bus = record { read = mdio_mii_read; write = mdio_mii_write }

  -- `t` is `MII_CFG_CLK_DIV_6` for an AR7240 and `MII_CFG_CLK_DIV_28` else.
  unfoldable pub mdio_reset : Bool → D → D
  mdio_reset is_ar7240 d =
      let t = (if is_ar7240 then 2 else 7) in
      mdio_wr reg_mii_cfg t (mdio_wr reg_mii_cfg (bit_or t (bit 31)) d)
