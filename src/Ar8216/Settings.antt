-- ===== src/Ar8216/Settings.antt =====
-- The registers of the ports that ar8216_hw_apply of ar8216.c writes, on a chip that behaves as
-- `Asic` says.
use wair_os.Base.{
  ℕ, zero, suc, ◌+◌, ◌*◌, ◌-◌, ◌%◌, ◌^◌, ◌<◌, ◌≤◌, ◌≡◌, ◌≢◌, refl, ◌∙◌, ap, arith, bit_and, bit_or,
  Bool, true, false, ◌&&◌, ◌||◌, ◌==◌, ==_iff, Bool-cases, inl, inr, update, update_self, update_ne,
  has_bit, has_bit-or, has_bit-and, has_bit-word,
}
use wair_os.Ar8216.{Priv}
use wair_os.Ar8216.Mii.{Regs, rmw}
use wair_os.Ar8216.Apply.{
  reg_port_ctrl, reg_port_vlan, port_ctrl_mask, port_vlan_mask, port_ctrl_value, port_vlan_value,
  apply_ports,
}
use wair_os.Ar8216.Asic.{Store, Asic, is_kept}

-- A register after ar8216_rmw.
abbrev pub changed : ℕ → ℕ → ℕ → ℕ
changed old mask val = bit_or (bit_and old (2 ^ 32 - 1 - mask)) val % 2 ^ 32

-- A digit of the mask is the digit of the new value.
pub has_bit-changed :
    (old mask val q : ℕ)
    → q < 32
    → has_bit (2 ^ 32 - 1 - mask) q ≡ false
    → has_bit (changed old mask val) q ≡ has_bit val q
has_bit-changed old mask val q hq out =
    let gone : has_bit (bit_and old (2 ^ 32 - 1 - mask)) q ≡ false =
      has_bit-and old (2 ^ 32 - 1 - mask) q ∙ rw out (and_false (has_bit old q)) in
    has_bit-word _ q hq
    ∙ has_bit-or (bit_and old (2 ^ 32 - 1 - mask)) val q
    ∙ ap (λ (b : Bool). b || has_bit val q) gone
  where
    and_false : (b : Bool) → b && false ≡ false
    and_false true = refl
    and_false false = refl

module _ {D : Type 0} (b : Regs D) (k : Asic b) where
  rmw_lem :
      (a mask val : ℕ) (d : D)
      → is_kept a ≡ true
      → k.store (rmw b a mask val d) ≡ record (k.store d) {
        regs = update (k.store d).regs a (changed ((k.store d).regs a) mask val);
      }
  unfolding rmw
  rmw_lem a mask val d h = let r = k.reads a d h in k.writes a _ (b.read a d).1 h ∙ simp (r.0, r.1)

  -- The registers of the ports from `i` on have their new values, and nothing else has changed.
  pub record Settled (p : Priv) (m : ℕ → ℕ) (left i : ℕ) (d r : D) : Type 0 where
    pub vlans :
        (j : ℕ)
        → i ≤ j
        → j < i + left
        → (k.store r).regs (reg_port_vlan j)
          ≡ changed ((k.store d).regs (reg_port_vlan j)) port_vlan_mask (port_vlan_value p m j)
    pub ctrls :
        (j : ℕ)
        → i ≤ j
        → j < i + left
        → (k.store r).regs (reg_port_ctrl j)
          ≡ changed ((k.store d).regs (reg_port_ctrl j)) port_ctrl_mask (port_ctrl_value p j)
    pub below : (a : ℕ) → a < 0x100 * (i + 1) → (k.store r).regs a ≡ (k.store d).regs a
    pub vtu : (k.store r).vtu ≡ (k.store d).vtu

  module _ (p : Priv) (m : ℕ → ℕ) (i : ℕ) (d : D) where
    abbrev ctrl_done : D
    ctrl_done = rmw b (reg_port_ctrl i) port_ctrl_mask (port_ctrl_value p i) d

    abbrev port_done : D
    port_done = rmw b (reg_port_vlan i) port_vlan_mask (port_vlan_value p m i) ctrl_done

    ctrl_store : k.store ctrl_done ≡ record (k.store d) {
      regs =
          update
            (k.store d).regs
            (reg_port_ctrl i)
            (changed ((k.store d).regs (reg_port_ctrl i)) port_ctrl_mask (port_ctrl_value p i));
    }
    ctrl_store = rmw_lem (reg_port_ctrl i) port_ctrl_mask (port_ctrl_value p i) d (ground arith)

    port_store : k.store port_done ≡ record (k.store ctrl_done) {
      regs = update (k.store ctrl_done).regs (reg_port_vlan i) (
          changed
            ((k.store ctrl_done).regs (reg_port_vlan i))
            port_vlan_mask
            (port_vlan_value p m i));
    }
    port_store =
        rmw_lem (reg_port_vlan i) port_vlan_mask (port_vlan_value p m i) ctrl_done (ground arith)

    -- The registers after the turn of port `i`.
    other_regs :
        (a : ℕ)
        → a ≢ reg_port_ctrl i
        → a ≢ reg_port_vlan i
        → (k.store port_done).regs a ≡ (k.store d).regs a
    other_regs a nc nv =
        ap (λ (s : Store). s.regs a) port_store
        ∙ update_ne (k.store ctrl_done).regs (reg_port_vlan i) a _ nv
        ∙ ap (λ (s : Store). s.regs a) ctrl_store
        ∙ update_ne (k.store d).regs (reg_port_ctrl i) a _ nc

    own_ctrl :
        (k.store port_done).regs (reg_port_ctrl i)
        ≡ changed ((k.store d).regs (reg_port_ctrl i)) port_ctrl_mask (port_ctrl_value p i)
    own_ctrl =
        ap (λ (s : Store). s.regs (reg_port_ctrl i)) port_store
        ∙ update_ne (k.store ctrl_done).regs (reg_port_vlan i) (reg_port_ctrl i) _
            (λ e. omega (arith, e))
        ∙ ap (λ (s : Store). s.regs (reg_port_ctrl i)) ctrl_store
        ∙ update_self (k.store d).regs (reg_port_ctrl i) _

    own_vlan :
        (k.store port_done).regs (reg_port_vlan i)
        ≡ changed ((k.store d).regs (reg_port_vlan i)) port_vlan_mask (port_vlan_value p m i)
    own_vlan =
        ap (λ (s : Store). s.regs (reg_port_vlan i)) port_store
        ∙ update_self (k.store ctrl_done).regs (reg_port_vlan i) _
        ∙ ap (λ (x : ℕ). changed x port_vlan_mask (port_vlan_value p m i))
            (ap (λ (s : Store). s.regs (reg_port_vlan i)) ctrl_store
              ∙ update_ne (k.store d).regs (reg_port_ctrl i) (reg_port_vlan i) _
                  (λ e. omega (arith, e)))

    same_vtu : (k.store port_done).vtu ≡ (k.store d).vtu
    same_vtu = ap (λ (s : Store). s.vtu) port_store ∙ ap (λ (s : Store). s.vtu) ctrl_store

  pub apply_ports-Settled :
      (p : Priv) (m : ℕ → ℕ) (left i : ℕ) (d : D)
      → Settled p m left i d (apply_ports b p m left i d)
  unfolding apply_ports
  apply_ports-Settled p m zero i d = record {
    vlans = λ j le lt. absurd (omega (arith, le, lt));
    ctrls = λ j le lt. absurd (omega (arith, le, lt));
    below = λ a lt. refl;
    vtu = refl;
  }
  apply_ports-Settled p m (suc left) i d =
      let s = apply_ports-Settled p m left (i + 1) (port_done p m i d) in
      record {
        vlans = λ j le lt. elim (Bool-cases (j == i)) [
          | inl e ↦
              rw ((==_iff j i).0 e) (s.below (reg_port_vlan i) (omega arith) ∙ own_vlan p m i d)
          | inr e ↦
              let ne : j ≢ i = λ f. cc (e, (==_iff j i).1 f) in
              s.vlans j (omega (arith, le, ne)) (omega (arith, lt))
              ∙ ap (λ (x : ℕ). changed x port_vlan_mask (port_vlan_value p m j))
                  (other_regs p m i d (reg_port_vlan j) (λ f. omega (arith, f))
                    (λ f. omega (arith, f, ne)))
        ];
        ctrls = λ j le lt. elim (Bool-cases (j == i)) [
          | inl e ↦
              rw ((==_iff j i).0 e) (s.below (reg_port_ctrl i) (omega arith) ∙ own_ctrl p m i d)
          | inr e ↦
              let ne : j ≢ i = λ f. cc (e, (==_iff j i).1 f) in
              s.ctrls j (omega (arith, le, ne)) (omega (arith, lt))
              ∙ ap (λ (x : ℕ). changed x port_ctrl_mask (port_ctrl_value p j))
                  (other_regs p m i d (reg_port_ctrl j) (λ f. omega (arith, f, ne))
                    (λ f. omega (arith, f)))
        ];
        below = λ a lt.
            s.below a (omega (arith, lt))
            ∙ other_regs p m i d a (λ f. omega (arith, f, lt)) (λ f. omega (arith, f, lt));
        vtu = s.vtu ∙ same_vtu p m i d;
      }
