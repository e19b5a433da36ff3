-- ===== src/Vlan/View.antt =====
-- What a chip driver promises of its tables, as a client of `Ops` sees them.
use wair_os.Base.{ℕ, ◌<◌, ◌≤◌, ◌≡◌, Outcome, ok, Op, and_then-ok, ◌>>=◌, update}
use wair_os.Vlan.{Mc, Vlan4k, Ops}

-- The tables that the switch works by: the MC entries, the MC entry of each port, the 4K table.
pub record View : Type 0 where
  pub mc : ℕ → Mc
  pub index : ℕ → ℕ
  pub vlan : ℕ → Vlan4k

-- What the fields of the chip can hold, where the two port masks are below `w`.
pub record McFits (w : ℕ) (m : Mc) : Type 0 where
  pub vid_fits : m.vid < 4096
  pub priority_fits : m.priority < 8
  pub untag_fits : m.untag < w
  pub member_fits : m.member < w
  pub fid_fits : m.fid < 8

pub record Vlan4kFits (w : ℕ) (v : Vlan4k) : Type 0 where
  pub vid_fits : v.vid < 4096
  pub untag_fits : v.untag < w
  pub member_fits : v.member < w
  pub fid_fits : v.fid < 8

-- `r` is an outcome, with the tables left at `v`.
pub record Gives {D A V : Type 0} (view : D → V) (o : Outcome A) (v : V) (r : Outcome A × D)
    : Type 0 where
  pub outcome : r.0 ≡ o
  pub tables : view r.1 ≡ v

pub record Tables {D : Type 0} (o : Ops D) : Type 0 where
  pub view : D → View
  -- The port masks are below this power of two, of six to eight bits.
  pub masks : ℕ
  pub masks_least : 64 ≤ masks
  pub masks_most : masks ≤ 256
  pub get_mc :
      (i : ℕ) (d : D)
      → i < o.num_vlan_mc
      → Gives view (ok ((view d).mc i)) (view d) (o.get_vlan_mc i d)
  pub set_mc :
      (i : ℕ) (m : Mc) (d : D)
      → i < o.num_vlan_mc
      → McFits masks m
      → Gives view (ok tt) (record (view d) { mc = update (view d).mc i m }) (o.set_vlan_mc i m d)
  pub get_4k :
      (v : ℕ) (d : D) → v < 4096 → Gives view (ok ((view d).vlan v)) (view d) (o.get_vlan_4k v d)
  pub set_4k :
      (v : Vlan4k) (d : D)
      → Vlan4kFits masks v
      → Gives view
          (ok tt)
          (record (view d) { vlan = update (view d).vlan v.vid v })
          (o.set_vlan_4k v d)
  pub get_index :
      (p : ℕ) (d : D)
      → p < o.num_ports
      → Gives view (ok ((view d).index p)) (view d) (o.get_mc_index p d)
  pub set_index :
      (p i : ℕ) (d : D)
      → p < o.num_ports
      → i < o.num_vlan_mc
      → Gives view
          (ok tt)
          (record (view d) { index = update (view d).index p i })
          (o.set_mc_index p i d)
  pub switch_vlan : (e : ℕ) (d : D) → Gives view (ok tt) (view d) (o.enable_vlan e d)
  pub switch_vlan4k : (e : ℕ) (d : D) → Gives view (ok tt) (view d) (o.enable_vlan4k e d)
  -- What the registers can hold.
  pub index_in : (p : ℕ) (d : D) → (view d).index p < o.num_vlan_mc
  pub mc_fits : (i : ℕ) (d : D) → McFits masks ((view d).mc i)
  pub vlan_fits : (v : ℕ) (d : D) → v < 4096 → Vlan4kFits masks ((view d).vlan v)
  pub vlan_vid : (v : ℕ) (d : D) → v < 4096 → ((view d).vlan v).vid ≡ v
  pub few_ports : o.num_ports ≤ 6
  pub cpu_in : o.cpu_port < o.num_ports

pub Gives->>= :
    {D A B V : Type 0} {view : D → V} (m : Op D A) (f : A → Op D B) {d : D} {a : A} {b : Outcome B}
    {v u : V}
    → Gives view (ok a) v (m d)
    → Gives view b u (f a (m d).1)
    → Gives view b u ((m >>= f) d)
Gives->>= m f {d} g h =
    rw (and_then-ok f (m d) g.outcome) (record { outcome = h.outcome; tables = h.tables })
