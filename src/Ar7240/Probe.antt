-- ===== src/Ar7240/Probe.antt =====
-- ar7240_probe, ag71xx_ar7240_init, ag71xx_ar7240_start, ag71xx_ar7240_cleanup and the link test of
-- link_function in ag71xx_ar7240.c. The answers of `kzalloc` and `register_switch` are parameters.
-- Messages, the work queue and the names of the switch are left out.
use wair_os.Base.{
  ℕ, zero, suc, ◌+◌, ◌≡◌, refl, bit_and, ◌>>>◌, Bool, true, false, not, ◌&&◌, ◌==◌, if◌then◌else◌,
  Bool-cases, inl, inr, Option, none, some, Outcome, ok, err, enodev,
}
use wair_os.Ar8216.Mii.{Regs}
use wair_os.Ar7240.{Sw, probed}
use wair_os.Ar7240.Reg.{phy_read}
use wair_os.Ar7240.Apply.{reg_mask_ctrl, reset, set_addr, hw_apply}

-- What a probe leaves: the switch that it returns, whether the memory of one is allocated, and
-- whether one is registered with swconfig.
pub record Probe (D : Type 0) : Type 0 where
  pub switch : Option Sw
  pub allocated : Bool
  pub registered : Bool
  pub dev : D

abbrev pub is_some : Option Sw → Bool
is_some none = false
is_some (some s) = true

module _ {D : Type 0} (b : Regs D) where
  -- The version, and the two ids of PHY 0, are those of an AR7240.
  unfoldable pub version_ok : D → Bool × D
  version_ok d = let ctrl = b.read reg_mask_ctrl d in (bit_and (ctrl.0 >>> 8) 0xff == 1, ctrl.1)

  unfoldable pub ids_ok : D → Bool × D
  ids_ok d =
      let first = phy_read b 0 2 d in
      let second = phy_read b 0 3 first.1 in ((first.0 == 0x004d) && (second.0 == 0xd041), second.1)

  -- What follows the tests: `register_switch`, and the defaults.
  unfoldable pub probe_end : Outcome (Unit {0}) → D → Probe D
  probe_end (err e) d = record { switch = none; allocated = false; registered = false; dev = d }
  probe_end (ok u) d = record { switch = some probed; allocated = true; registered = true; dev = d }

  unfoldable pub probe : Bool → Outcome (Unit {0}) → D → Probe D
  probe has_memory registers d =
      let version = version_ok d in
      let ids = ids_ok version.1 in
      if not has_memory
      then record { switch = none; allocated = false; registered = false; dev = d }
      else if not version.0
      then record { switch = none; allocated = true; registered = false; dev = version.1 }
      else if not ids.0
      then record { switch = none; allocated = true; registered = false; dev = ids.1 }
      else probe_end registers ids.1

  -- The outcome, `ag->phy_priv`, and the device.
  unfoldable pub init_after : Option Sw → D → Outcome (Unit {0}) × Option Sw × D
  init_after none d = (err enodev, none, d)
  init_after (some s) d = (ok tt, some s, (reset b d).1)

  unfoldable pub init : Bool → Outcome (Unit {0}) → D → Outcome (Unit {0}) × Option Sw × D
  init has_memory registers d = let p = probe has_memory registers d in init_after p.switch p.dev

  -- `addr` is the address of the network device. The speed and the duplex mode of `ag` are left out.
  unfoldable pub start : Sw → (ℕ → ℕ) → D → D
  start s addr d = hw_apply b s (set_addr b addr (reset b d).1)

  -- The loop of link_function; `left` are the PHYs to go, and 4 the bit of a link.
  unfoldable pub link_up : ℕ → ℕ → D → Bool × D
  link_up zero i d = (false, d)
  link_up (suc left) i d =
      let link = phy_read b i 1 d in
      let rest = link_up left (i + 1) link.1 in
      if bit_and link.0 0x4 == 0 then rest else (true, link.1)

  -- The chip is one that the driver knows.
  abbrev pub is_known : D → Bool
  is_known d = let version = version_ok d in version.0 && (ids_ok version.1).0

  probe_end_lem :
      (o : Outcome (Unit {0})) (d : D)
      → let p = probe_end o d in
        (p.allocated && not (is_some p.switch) ≡ false) × (p.registered ≡ is_some p.switch)
  unfolding probe_end
  probe_end_lem (ok u) d = (refl, refl)
  probe_end_lem (err e) d = (refl, refl)

  -- `ar7240_probe` registers a switch exactly when it returns one, and it loses the memory that it
  -- has allocated exactly when there was memory and the chip is not known.
  pub probe_leaks :
      (has_memory : Bool) (registers : Outcome (Unit {0})) (d : D)
      → let p = probe has_memory registers d in
        (p.allocated && not (is_some p.switch) ≡ has_memory && not (is_known d))
        × (p.registered ≡ is_some p.switch)
  unfolding probe
  probe_leaks false registers d = (refl, refl)
  probe_leaks true registers d = elim (Bool-cases (version_ok d).0) [
    | inr e ↦ rw e (refl, refl)
    | inl e ↦ elim (Bool-cases (ids_ok (version_ok d).1).0) [
      | inr g ↦ rw (e, g) (refl, refl)
      | inl g ↦ rw (e, g) (probe_end_lem registers (ids_ok (version_ok d).1).1)
    ]
  ]

-- `ag71xx_ar7240_cleanup`: `unregister_switch` and `kfree`, when there is a switch.
unfoldable pub cleanup : {D : Type 0} → Probe D → Probe D
cleanup {D} p =
    if is_some p.switch
    then record p { switch = none; allocated = false; registered = false }
    else p
