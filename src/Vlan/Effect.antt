-- ===== src/Vlan/Effect.antt =====
-- What `rtl8366_set_pvid` does to the PVID of each port.
use wair_os.Base.{
  ℕ, ◌<◌, ◌≡◌, ◌≢◌, refl, false, ok, ap, sym, ◌∙◌, update, update_self, update_ne, update_at,
}
use wair_os.Vlan.{Mc, Ops, set_pvid, get_pvid}
use wair_os.Vlan.View.{View, Gives, Gives->>=, Tables}
use wair_os.Vlan.Pvid.{is_blank, Choice, kept, filled, replaced, assigned, Assigned, set_pvid_lem}

-- The PVID of a port is the VLAN of its MC entry.
abbrev pub pvid : View → ℕ → ℕ
pvid v p = (v.mc (v.index p)).vid

module _ {ports mcs : ℕ} {v : View} {vid i : ℕ} {e : Mc} where
  pub Choice-vid : Choice ports mcs v vid i e → e.vid ≡ vid
  Choice-vid (kept h eq) = ap (λ (m : Mc). m.vid) eq ∙ h
  Choice-vid (filled h b eq) = ap (λ (m : Mc). m.vid) eq
  Choice-vid (replaced h b u eq) = ap (λ (m : Mc). m.vid) eq

  -- A port whose entry is in use and that is not `port` keeps its PVID.
  pub Choice-keeps :
      (q : ℕ)
      → q < ports
      → is_blank (v.mc (v.index q)) ≡ false
      → Choice ports mcs v vid i e
      → (update v.mc i e (v.index q)).vid ≡ (v.mc (v.index q)).vid
  Choice-keeps q hq nb (kept h eq) =
      update_at (λ j (m : Mc). m.vid ≡ (v.mc j).vid) v.mc i (v.index q) e
        (ap (λ (m : Mc). m.vid) eq) (λ _. refl)
  Choice-keeps q hq nb (filled h b eq) =
      ap (λ (m : Mc). m.vid)
        (update_ne v.mc i (v.index q) e (λ s. cc (nb, b, ap (λ j. is_blank (v.mc j)) s)))
  Choice-keeps q hq nb (replaced h b u eq) =
      ap (λ (m : Mc). m.vid) (update_ne v.mc i (v.index q) e (u q hq))

module _ (v : View) (port i : ℕ) (e : Mc) where
  pub pvid-assigned_self : pvid (assigned v port i e) port ≡ e.vid
  pvid-assigned_self =
      ap (λ (j : ℕ). (update v.mc i e j).vid) (update_self v.index port i)
      ∙ ap (λ (m : Mc). m.vid) (update_self v.mc i e)

  pub pvid-assigned_ne :
      (q : ℕ) → q ≢ port → pvid (assigned v port i e) q ≡ (update v.mc i e (v.index q)).vid
  pvid-assigned_ne q ne = ap (λ (j : ℕ). (update v.mc i e j).vid) (update_ne v.index port q i ne)

module _ {D : Type 0} (o : Ops D) (t : Tables o) where
  pub get_pvid_lem :
      (p : ℕ) (d : D)
      → p < o.num_ports
      → Gives t.view (ok (pvid (t.view d) p)) (t.view d) (get_pvid o p d)
  unfolding get_pvid
  get_pvid_lem p d hp =
      let g = t.get_index p d hp in
      let h =
        rw g.tables at (t.get_mc ((t.view d).index p) (o.get_mc_index p d).1 (t.index_in p d)) in
      Gives->>= (o.get_mc_index p) _ g (
        Gives->>= (o.get_vlan_mc ((t.view d).index p)) _ h
          (record { outcome = refl; tables = h.tables }))

  module _ (port vid : ℕ) (d : D) (hp : port < o.num_ports) (hv : vid < 4096)
      (more : o.num_ports < o.num_vlan_mc) where
    call : Assigned o t port vid d (set_pvid o port vid d)
    call = set_pvid_lem o t port vid d hp hv more

    after_call :
        (q : ℕ)
        → q < o.num_ports
        → (get_pvid o q (set_pvid o port vid d).1).0
          ≡ ok (pvid (assigned (t.view d) port call.slot call.entry) q)
    after_call q hq =
        (rw call.gives.tables at (get_pvid_lem q (set_pvid o port vid d).1 hq)).outcome

    -- For a port of the switch, a VLAN number below 4096, and more MC entries than ports:
    -- `rtl8366_set_pvid` returns 0, and the PVID that `rtl8366_get_pvid` then reads from the port
    -- is `vid`.
    pub get_pvid-set_pvid :
        ((set_pvid o port vid d).0 ≡ ok tt)
        × ((get_pvid o port (set_pvid o port vid d).1).0 ≡ ok vid)
    get_pvid-set_pvid = (
      call.gives.outcome,
      after_call port hp
          ∙ ap ok
              (pvid-assigned_self (t.view d) port call.slot call.entry ∙ Choice-vid call.choice),
    )

    -- For a port of the switch, a VLAN number below 4096, and more MC entries than ports: any
    -- other port whose MC entry is not blank (VLAN 0 with no members) reads the same PVID after
    -- `rtl8366_set_pvid` as before it.
    pub get_pvid-set_pvid_other :
        (q : ℕ)
        → q < o.num_ports
        → q ≢ port
        → is_blank ((t.view d).mc ((t.view d).index q)) ≡ false
        → (get_pvid o q (set_pvid o port vid d).1).0 ≡ (get_pvid o q d).0
    get_pvid-set_pvid_other q hq ne used =
        after_call q hq
        ∙ ap ok (
            pvid-assigned_ne (t.view d) port call.slot call.entry q ne
            ∙ Choice-keeps q hq used call.choice)
        ∙ sym (get_pvid_lem q d hq).outcome
