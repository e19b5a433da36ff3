-- ===== src/Ar8216/Attach.antt =====
-- How ar8216.c comes to a switch: ar8216_id_chip, ar8316_hw_init, ar8216_config_init and the part of
-- ar8216_read_status that empties the address table. The answers of the kernel's allocator and of
-- `register_switch` are parameters. Waiting, messages (with the two PHY registers that one of them
-- reads) and the feature flags of the PHY are left out.
use wair_os.Base.{
  ℕ, zero, suc, ◌+◌, ◌-◌, ◌^◌, ◌≡◌, bit_and, bit_or, bit, Bool, true, false, not, ◌&&◌, ◌||◌,
  Bool-cases, inl, inr, refl, ap, ◌∙◌, arith, ◌==◌, if◌then◌else◌, Option, none, some, Outcome, ok,
  err, einval, enomem,
}
use wair_os.Ar8216.{Chip, Priv, ar8216, ar8316, unknown}
use wair_os.Ar8216.Mii.{MiiBus, mii_read, mii_regs}
use wair_os.Ar8216.Apply.{reg_atu, is_ar8216, is_ar8316, wait_bit, reset_switch}

-- `phy->interface`
pub data Interface : Type 0 where
  rgmii gmii another : Interface

abbrev chip_of : ℕ → Chip
chip_of id = if id == 0x0101 then ar8216 else if id == 0x1001 then ar8316 else unknown

-- The value of an initialised switch, which `ar8316_hw_init` writes.
abbrev pub mode_word : Interface → Option ℕ
mode_word rgmii = some 0x81461bea
mode_word gmii = some 0x010e5b71
mode_word another = none

abbrev pub is_another : Interface → Bool
is_another rgmii = false
is_another gmii = false
is_another another = true

abbrev pub is_ok : Outcome (Unit {0}) → Bool
is_ok (ok u) = true
is_ok (err e) = false

abbrev is_rgmii : Interface → Bool
is_rgmii rgmii = true
is_rgmii gmii = false
is_rgmii another = false

module _ {D : Type 0} (bus : MiiBus D) where
  -- The loop that reads the id again.
  unfoldable pub confirm : ℕ → ℕ → D → Chip × D
  confirm id zero d = (chip_of id, d)
  confirm id (suc left) d =
      let r = mii_read bus 0x0000 d in
      let rest = confirm id left r.1 in
      if r.0 == 2 ^ 32 - 1
      then (unknown, r.1)
      else if bit_and r.0 0xffff == id
      then rest
      else (unknown, r.1)

  unfoldable pub id_chip : D → Chip × D
  id_chip d =
      let r = mii_read bus 0x0000 d in
      if r.0 == 2 ^ 32 - 1 then (unknown, r.1) else confirm (bit_and r.0 0xffff) 10 r.1

  -- The set-up of one port.
  abbrev init_port : Interface → ℕ → D → D
  init_port mode i d =
      let d₁ =
        (if (i == 4) && is_rgmii mode
          then bus.write i 0x1e 0x3d47 (
              bus.write i 0x1d 0x5 (
                bus.write i 0x1e 0x824e
                  (bus.write i 0x1d 0x0 (bus.write i 0x1e 0x480c (bus.write i 0x1d 0x12 d)))))
          else d) in
      bus.write i 0 (bit_or 0x8000 0x1000)
        (bus.write i 9 0x200 (bus.write i 4 (bit_or (bit_or 0x01e0 0x400) 0x800) d₁))

  unfoldable pub init_ports : Interface → ℕ → ℕ → D → D
  init_ports mode zero i d = d
  init_ports mode (suc left) i d = init_ports mode left (i + 1) (init_port mode i d)

  -- The outcome, the flag `initialized`, and the device.
  unfoldable pub hw_init : Interface → Bool → D → Outcome (Unit {0}) × Bool × D
  hw_init mode initialized d =
      if initialized
      then (ok tt, true, d)
      else (let r = (mii_regs bus).read 0x8 d in
          elim (mode_word mode) [
            | none ↦ (err einval, false, r.1)
            | some word ↦ if r.0 == word then (ok tt, true, r.1) else (
              ok tt,
              true,
              init_ports mode 5 0
                  ((mii_regs bus).write 0x38 0xc000050e ((mii_regs bus).write 0x8 word r.1)),
            )
          ])

  -- `phydev->addr` is 0. The ATU operation is written when no other one goes on.
  unfoldable pub read_status : D → Bool × D
  read_status d =
      let w = wait_bit (mii_regs bus) reg_atu (bit 3) 0 d in
      if w.0 then w else (false, (mii_regs bus).write reg_atu 0x1 w.1)

-- What ar8216_config_init leaves: whether `priv` is still allocated, whether the switch is
-- registered with swconfig, and whether the packets of the device go through the driver.
pub record Attached (D : Type 0) : Type 0 where
  pub outcome : Outcome (Unit {0})
  pub priv : Priv
  pub allocated : Bool
  pub registered : Bool
  pub phy_ptr : Bool
  pub mangled : Bool
  pub initialized : Bool
  pub dev : D

pub record Kernel : Type 0 where
  -- `kzalloc`
  pub has_memory : Bool
  -- `register_switch`
  pub registers : Outcome (Unit {0})
  pub interface : Interface

abbrev pub blank_priv : Chip → Priv
blank_priv chip = record {
  chip = chip;
  vlan = false;
  vlan_id = λ i. 0;
  vlan_table = λ i. 0;
  vlan_tagged = 0;
  pvid = λ i. 0;
}

module _ {D : Type 0} (bus : MiiBus D) where
  abbrev untouched : Outcome (Unit {0}) → Chip → Bool → D → Attached D
  untouched r chip initialized d = record {
    outcome = r;
    priv = blank_priv chip;
    allocated = false;
    registered = false;
    phy_ptr = false;
    mangled = false;
    initialized = initialized;
    dev = d;
  }

  -- The end of ar8216_config_init, after ar8316_hw_init.
  unfoldable pub finish : Chip → Outcome (Unit {0}) × Bool × D → Attached D
  finish chip (err e, initialized, d) = record (untouched (err e) chip initialized d) {
    registered = true;
  }
  finish chip (ok u, initialized, d) =
      let r = reset_switch (mii_regs bus) (blank_priv chip) d in
      record {
        outcome = ok tt;
        priv = r.0;
        allocated = true;
        registered = true;
        phy_ptr = true;
        mangled = is_ar8216 chip;
        initialized = initialized;
        dev = r.1;
      }

  -- What follows the call of `register_switch`.
  unfoldable pub after_register : Kernel → Bool → Chip → Outcome (Unit {0}) → D → Attached D
  after_register k initialized chip (err e) d = untouched (err e) chip initialized d
  after_register k initialized chip (ok u) d =
      finish chip
        (if is_ar8316 chip then hw_init bus k.interface initialized d else (ok tt, initialized, d))

  -- `addr` is `pdev->addr`.
  unfoldable pub config_init : Kernel → ℕ → Bool → D → Attached D
  config_init k addr initialized d =
      if not k.has_memory
      then untouched (err enomem) unknown initialized d
      else (let c = id_chip bus d in
          if addr == 0
          then after_register k initialized c.0 k.registers c.1
          else untouched (ok tt) c.0 initialized c.1)

  -- The branches in which ar8316_hw_init does not know the interface.
  abbrev pub is_refused : Kernel → Bool → Chip → Bool
  is_refused k initialized chip = is_ar8316 chip && not initialized && is_another k.interface

  abbrev pub is_reached : Kernel → ℕ → Bool
  is_reached k addr = k.has_memory && (addr == 0) && is_ok k.registers

  finish_dangles :
      (chip : Chip) (o : Outcome (Unit {0})) (initialized : Bool) (d : D)
      → let r = finish chip (o, initialized, d) in r.registered && not r.allocated ≡ not (is_ok o)
  unfolding finish
  finish_dangles chip (ok u) initialized d = refl
  finish_dangles chip (err e) initialized d = refl

  hw_init_lem :
      (mode : Interface) (initialized : Bool) (d : D)
      → is_ok (hw_init bus mode initialized d).0 ≡ initialized || not (is_another mode)
  unfolding hw_init
  hw_init_lem mode true d = refl
  hw_init_lem rgmii false d = ground arith
  hw_init_lem gmii false d = ground arith
  hw_init_lem another false d = refl

  init_dangles :
      (mode : Interface) (initialized : Bool) (chip : Chip) (d : D)
      → let o =
          (if is_ar8316 chip then hw_init bus mode initialized d else (ok tt, initialized, d)) in
        let r = finish chip o in
        (r.registered && not r.allocated) ≡ (is_ar8316 chip && not initialized && is_another mode)
  init_dangles mode initialized ar8316 d =
      let o = hw_init bus mode initialized d in
      finish_dangles ar8316 o.0 o.1 o.2
      ∙ ap not (hw_init_lem mode initialized d)
      ∙ not_or initialized (is_another mode)
    where
      not_or : (i a : Bool) → not (i || not a) ≡ (not i && a)
      not_or true a = refl
      not_or false true = refl
      not_or false false = refl
  init_dangles mode initialized ar8216 d = finish_dangles ar8216 (ok tt) initialized d
  init_dangles mode initialized unknown d = finish_dangles unknown (ok tt) initialized d

  after_register_dangles :
      (k : Kernel) (initialized : Bool) (chip : Chip) (o : Outcome (Unit {0})) (d : D)
      → let r = after_register k initialized chip o d in
        (r.registered && not r.allocated) ≡ (is_ok o && is_refused k initialized chip)
  unfolding after_register
  after_register_dangles k initialized chip (err e) d = refl
  after_register_dangles k initialized chip (ok u) d = init_dangles k.interface initialized chip d

  -- `ar8216_config_init` leaves the switch registered with its `struct ar8216_priv` freed exactly
  -- when memory was there, the address is 0, `register_switch` succeeded, the chip is an AR8316, no
  -- AR8316 was initialised before, and its MII interface is not one that the driver knows.
  pub config_init_dangles :
      (k : Kernel) (addr : ℕ) (initialized : Bool) (d : D)
      → let r = config_init k addr initialized d in
        (r.registered && not r.allocated)
        ≡ (is_reached k addr && is_refused k initialized (id_chip bus d).0)
  unfolding config_init after_register
  config_init_dangles k addr initialized d = elim (Bool-cases k.has_memory) [
    | inr e ↦ rw e refl
    | inl e ↦ elim (Bool-cases (addr == 0)) [
      | inr f ↦ rw (e, f) refl
      | inl f ↦
          rw (e, f)
            (after_register_dangles k initialized (id_chip bus d).0 k.registers (id_chip bus d).1)
    ]
  ]
