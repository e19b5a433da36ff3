-- ===== src/Ar8216/Passes.antt =====
-- Which packets ar8216_hw_apply of ar8216.c lets a chip that behaves as `Asic` and `Forwarding` say
-- pass from port to port.
use wair_os.Base.{ℕ, ◌<◌, ◌≡◌, ◌↔◌, ◌∙◌, sym, arith, true}
use wair_os.Ar8216.{Priv, max_vlans}
use wair_os.Ar8216.Mii.{Regs}
use wair_os.Ar8216.Apply.{hw_apply}
use wair_os.Ar8216.Asic.{Asic, Forwarding}
use wair_os.Ar8216.Filter.{IsDistinct, Carries, Programmed, through_iff}
use wair_os.Ar8216.Applied.{Fits, dest_bit, hw_apply-dest_iff, hw_apply-secure}
use wair_os.Ar8216.Loaded.{hw_apply-vtu, hw_apply-vtu_other}

module _ {D : Type 0} (b : Regs D) (k : Asic b) (p : Priv) (f : Fits p) (d : D) where
  hw_apply-Programmed :
      (vid i q : ℕ)
      → IsDistinct p.vlan_id p.vlan_table max_vlans
      → p.vlan ≡ true
      → i < 6
      → q < 6
      → Programmed p.vlan_id p.vlan_table max_vlans vid i q
          (dest_bit b k (hw_apply b p d) i q)
          ((k.store (hw_apply b p d)).vtu vid)
  hw_apply-Programmed vid i q distinct on hi hq =
      let dest = hw_apply-dest_iff b k p f d on i q hi hq in
      record {
        own = λ u hu full same.
            rw (sym same)
              (hw_apply-vtu b k p f d u on hu full (λ v hv some e. distinct v u hv hu some full e));
        other = hw_apply-vtu_other b k p f d vid on;
        apart = λ h. let j = dest.0 h in let both = j.members in ground (arith, both);
        met = λ u hu both.
            dest.1
              (record { at = u; from = omega arith; below = omega (arith, hu); members = both });
      }

  -- On a chip that behaves as `Asic` and `Forwarding` say, with VLANs on, VLAN ids below 4096, no id
  -- that two VLANs with members have, and PVIDs of the table: after `ar8216_hw_apply` the VLANs let
  -- a packet of VLAN `vid` pass from one of the six ports to another exactly when the two differ and
  -- are both members of a VLAN of the table whose id is `vid`.
  pub hw_apply-passes_iff :
      (w : Forwarding k) (vid i q : ℕ)
      → IsDistinct p.vlan_id p.vlan_table max_vlans
      → p.vlan ≡ true
      → i < 6
      → q < 6
      → (w.passes (hw_apply b p d) vid i q ≡ true)
        ↔ Carries p.vlan_id p.vlan_table max_vlans vid i q
  hw_apply-passes_iff w vid i q distinct on hi hq =
      let rule = w.secure (hw_apply b p d) vid i q (hw_apply-secure b k p f d i on hi) in
      let spec =
        through_iff p.vlan_id p.vlan_table max_vlans vid i q hi hq _ _
          (hw_apply-Programmed vid i q distinct on hi hq) in
      (λ h. spec.0 (sym rule ∙ h), λ c. rule ∙ spec.1 c)
