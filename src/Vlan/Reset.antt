-- ===== src/Vlan/Reset.antt =====
-- `rtl8366_enable_vlan`, `rtl8366_enable_vlan4k`, `rtl8366_reset_vlan` and `rtl8366_init_vlan`.
use native.Mathlib.Nat.{zero-add}
use wair_os.Base.{
  ℕ, zero, suc, ◌+◌, ◌<◌, ◌≤◌, ◌≡◌, ◌≢◌, refl, ◌==◌, if◌then◌else◌, Outcome, ok, pure, ◌>>◌,
  and_then-ok, arith, Bool-cases, inl, inr, ap, ◌∙◌, update, update_at,
}
use wair_os.Vlan.{
  Mc, Ops, Smi, cleared, on_dev, set_vlan_flag, set_vlan4k_flag, enable_vlan, enable_vlan4k,
  clear_from, reset_vlan, init_from, init_vlan,
}
use wair_os.Vlan.View.{View, Gives, Tables}
use wair_os.Vlan.Coherent.{IsCoherent}
use wair_os.Vlan.Init.{Setup, init_from-Setup}

module _ {D : Type 0} (o : Ops D) (t : Tables o) where
  -- The call returns 0, with these flags, and the tables are those of `d`.
  pub record Flags (vlan vlan4k : ℕ) (d : D) (r : Outcome (Unit {0}) × Smi D) : Type 0 where
    pub outcome : r.0 ≡ ok tt
    pub vlan_flag : r.1.vlan_enabled ≡ vlan
    pub vlan4k_flag : r.1.vlan4k_enabled ≡ vlan4k
    pub tables : t.view r.1.dev ≡ t.view d

  -- `rtl8366_enable_vlan` returns 0 and sets the VLAN flag; turning VLANs off clears the flag of
  -- the 4K table too, and the tables stay as they are.
  pub enable_vlan_lem :
      (e : ℕ) (s : Smi D)
      → Flags e (if e == 0 then 0 else s.vlan4k_enabled) s.dev (enable_vlan o e s)
  unfolding enable_vlan
  enable_vlan_lem e s =
      rw
        (and_then-ok
          (λ _.
            set_vlan_flag e
            >> (if e == 0 then set_vlan4k_flag 0 >> on_dev (o.enable_vlan4k e) else pure tt))
          (on_dev (o.enable_vlan e) s) g.outcome)
        (elim (Bool-cases (e == 0)) [
          | inl z ↦ ground (arith, g, t.switch_vlan4k e d₁)
          | inr nz ↦ ground (arith, g)
        ])
    where
      d₁ : D
      d₁ = (o.enable_vlan e s.dev).1

      g : Gives t.view (ok tt) (t.view s.dev) (o.enable_vlan e s.dev)
      g = t.switch_vlan e s.dev

  -- `rtl8366_enable_vlan4k` returns 0 and sets the flag of the 4K table; turning the 4K table on
  -- sets the VLAN flag too, and the tables stay as they are.
  pub enable_vlan4k_lem :
      (e : ℕ) (s : Smi D)
      → Flags (if e == 0 then s.vlan_enabled else e) e s.dev (enable_vlan4k o e s)
  unfolding enable_vlan4k
  enable_vlan4k_lem e s = ground (
    arith,
    t.switch_vlan e s.dev,
    t.switch_vlan4k e s.dev,
    t.switch_vlan4k e (o.enable_vlan e s.dev).1,
  )

  clear_from_lem :
      (left i : ℕ) (d : D)
      → i + left ≤ o.num_vlan_mc
      → ((j : ℕ) → j < i → (t.view d).mc j ≡ cleared)
      → ((clear_from o left i d).0 ≡ ok tt)
        × ((j : ℕ) → j < i + left → (t.view (clear_from o left i d).1).mc j ≡ cleared)
  unfolding clear_from
  clear_from_lem zero i d h before = (refl, λ j lt. before j (omega arith))
  clear_from_lem (suc left) i d h before =
      rw (and_then-ok (λ _. clear_from o left (i + 1)) (o.set_vlan_mc i cleared d) g.outcome) (
        let rest = clear_from_lem left (i + 1) d₁ (omega arith) one_more in
        (rest.0, λ j lt. rest.1 j (omega arith)))
    where
      below_of_ne : (j : ℕ) → j < i + 1 → j ≢ i → j < i
      below_of_ne j lt ne = omega arith

      g :
          Gives t.view
            (ok tt)
            (record (t.view d) { mc = update (t.view d).mc i cleared })
            (o.set_vlan_mc i cleared d)
      g = t.set_mc i cleared d (omega arith) (omega arith)

      d₁ : D
      d₁ = (o.set_vlan_mc i cleared d).1

      one_more : (j : ℕ) → j < i + 1 → (t.view d₁).mc j ≡ cleared
      one_more j lt = rw g.tables (
          update_at (λ _ (m : Mc). m ≡ cleared) (t.view d).mc i j cleared refl
            (λ ne. before j (below_of_ne j lt ne)))

  reset_vlan_lem :
      (s : Smi D)
      → ((reset_vlan o s).0 ≡ ok tt)
        × ((reset_vlan o s).1.vlan_enabled ≡ 0)
        × ((reset_vlan o s).1.vlan4k_enabled ≡ 0)
        × ((j : ℕ) → j < o.num_vlan_mc → (t.view (reset_vlan o s).1.dev).mc j ≡ cleared)
  unfolding reset_vlan
  reset_vlan_lem s = (c.0, b.vlan_flag ∙ a.vlan_flag, b.vlan4k_flag, c.1)
    where
      a : Flags 0 0 s.dev (enable_vlan o 0 s)
      a = enable_vlan_lem 0 s

      s₁ : Smi D
      s₁ = (enable_vlan o 0 s).1

      b : Flags s₁.vlan_enabled 0 s₁.dev (enable_vlan4k o 0 s₁)
      b = enable_vlan4k_lem 0 s₁

      d₂ : D
      d₂ = (enable_vlan4k o 0 s₁).1.dev

      c :
          ((clear_from o o.num_vlan_mc 0 d₂).0 ≡ ok tt)
          × ((j : ℕ)
              → j < o.num_vlan_mc
              → (t.view (clear_from o o.num_vlan_mc 0 d₂).1).mc j ≡ cleared)
      c =
          let r = clear_from_lem o.num_vlan_mc 0 d₂ (omega arith) (λ j lt. absurd (omega arith)) in
          (r.0, λ j lt. r.1 j (omega arith))

  -- `rtl8366_reset_vlan` returns 0 from any state, both flags are off after it, and each entry of
  -- the MC table is blank.
  pub reset_vlan-cleared :
      (s : Smi D) (j : ℕ)
      → j < o.num_vlan_mc
      → ((reset_vlan o s).0 ≡ ok tt)
        × ((reset_vlan o s).1.vlan_enabled ≡ 0)
        × ((reset_vlan o s).1.vlan4k_enabled ≡ 0)
        × ((t.view (reset_vlan o s).1.dev).mc j ≡ cleared)
  reset_vlan-cleared s j h = let r = reset_vlan_lem s in (r.0, r.1, r.2, r.3 j h)

  -- A blank MC table is coherent.
  blank-IsCoherent :
      (v : View) → ((j : ℕ) → j < o.num_vlan_mc → v.mc j ≡ cleared) → IsCoherent o.num_vlan_mc v
  blank-IsCoherent v h = record {
    mirrored = λ j lt nz. absurd (nz (ap (λ (m : Mc). m.vid) (h j lt)));
    single = λ j k hj hk nz s. absurd (nz (ap (λ (m : Mc). m.vid) (h j hj)));
  }

  -- `rtl8366_init_vlan` returns 0 from any state, when the MC table has more entries than the
  -- switch has ports: VLANs are on, the 4K table is off, each port has the PVID one above its
  -- number, that VLAN has the ports of the port's mask, and the MC table mirrors the 4K table.
  pub init_vlan-Setup :
      (s : Smi D)
      → o.num_ports < o.num_vlan_mc
      → ((init_vlan o s).0 ≡ ok tt)
        × ((init_vlan o s).1.vlan_enabled ≡ 1)
        × ((init_vlan o s).1.vlan4k_enabled ≡ 0)
        × Setup o t o.num_ports (t.view (init_vlan o s).1.dev)
  unfolding init_vlan
  init_vlan-Setup s more =
      rw
        (
          and_then-ok (λ _. on_dev (init_from o o.num_ports 0) >> enable_vlan o 1) (reset_vlan o s)
              r.0,
          and_then-ok (λ _. enable_vlan o 1) (on_dev (init_from o o.num_ports 0) s₁) i.0,
        )
        (e.outcome, e.vlan_flag, e.vlan4k_flag ∙ r.2, rw e.tables i.1)
    where
      r :
          ((reset_vlan o s).0 ≡ ok tt)
          × ((reset_vlan o s).1.vlan_enabled ≡ 0)
          × ((reset_vlan o s).1.vlan4k_enabled ≡ 0)
          × ((j : ℕ) → j < o.num_vlan_mc → (t.view (reset_vlan o s).1.dev).mc j ≡ cleared)
      r = reset_vlan_lem s

      s₁ : Smi D
      s₁ = (reset_vlan o s).1

      i :
          ((init_from o o.num_ports 0 s₁.dev).0 ≡ ok tt)
          × Setup o t o.num_ports (t.view (init_from o o.num_ports 0 s₁.dev).1)
      i = rw zero-add at (
          init_from-Setup o t o.num_ports 0 s₁.dev more (omega arith) (record {
            pvids = λ j lt. absurd (omega (arith, lt));
            members = λ j lt. absurd (omega (arith, lt));
            untags = λ j lt. absurd (omega (arith, lt));
            coherent = blank-IsCoherent (t.view s₁.dev) r.3;
          }))

      s₂ : Smi D
      s₂ = (on_dev (init_from o o.num_ports 0) s₁).1

      e : Flags 1 s₂.vlan4k_enabled s₂.dev (enable_vlan o 1 s₂)
      e = enable_vlan_lem 1 s₂
