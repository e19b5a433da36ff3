-- ===== src/Tests/OnAr8216.antt =====
-- An AR8216 that behaves, its registers and its pages on the MII bus, and the theorems of ar8216.c
-- on them.
use wair_os.Base.{
  ℕ, ◌+◌, ◌*◌, ◌/◌, ◌%◌, ◌^◌, ◌<◌, ◌≡◌, ◌≢◌, ◌↔◌, refl, ap, ◌∙◌, arith, bit_or, bit_or_low,
  bit_or-zero, bit_or_above, has_bit, ◌<<◌, Bool, true, false, not, ◌&&◌, ◌==◌, if◌then◌else◌,
  update, List, [], ◌∷◌, ok, some,
}
use Prim.Native.Nat.{max}
use wair_os.Ar8216.{Priv, ar8216, max_vlans, set_ports, get_ports, set_vlan}
use wair_os.Ar8216.Mii.{split_addr, Regs, MiiBus, mii_read, mii_write}
use wair_os.Ar8216.Apply.{reg_port_vlan, reg_vtu, reg_vtu_data, vtu_op_load, vtu_active, reset_priv}
use wair_os.Ar8216.Asic.{Store, Asic, Forwarding, is_kept, is_secure}
use wair_os.Ar8216.Apply.{hw_apply}
use wair_os.Ar8216.Vtu.{member_word}
use wair_os.Ar8216.Applied.{Fits}
use wair_os.Ar8216.Filter.{Carries}
use wair_os.Ar8216.Passes.{hw_apply-passes_iff}
use wair_os.Ar8216.Loaded.{hw_apply-vtu}
use wair_os.Ar8216.Mangle.{mangle_rx, passed}
use wair_os.Ar8216.Headers.{Revlaned, mangle_rx-Revlaned}
use wair_os.Ar8216.Attach.{Kernel, another, id_chip, confirm, config_init, config_init_dangles}
use wair_os.Ag71xx.{Skb}
use wair_os.Ar8216.Paged.{Pages, mii_read-mii_write}
use wair_os.Ar8216.Once.{IsOnce, Calls-IsOnce, reset, mode, ports}
use wair_os.Ar8216.Listing.{listed, get_ports-set_ports}
use wair_os.Rtl8366.Handlers.{SwitchPort, tagged}
use wair_os.Rtl8366.Ports.{AllBelow}

pub record Cells : Type 0 where
  pub regs : ℕ → ℕ
  pub vtu : ℕ → ℕ

abbrev start_op : ℕ → Cells → Cells
start_op x d =
    if x % 8 == 1
    then record d { vtu = λ v. 0 }
    else if x % 8 == 2
    then record d { vtu = update d.vtu (x / 2 ^ 16 % 4096) (d.regs reg_vtu_data) }
    else d

abbrev pub ar : Regs Cells
ar = record {
  read = λ a d. (if a == reg_vtu then 0 else d.regs a, d);
  write = λ a x d.
      if a == reg_vtu then start_op x d else record d { regs = update d.regs a (x % 2 ^ 32) };
}

abbrev store_of : Cells → Store
store_of d = record { regs = d.regs; vtu = d.vtu; busy = 0 }

kept-vtu : (a : ℕ) → is_kept a ≡ true → (a == reg_vtu) ≡ false
kept-vtu a h = ground (arith, h)

or_eight : (a : ℕ) → a % 16 ≡ 2 → bit_or a 8 ≡ a + 8
or_eight a h =
    let s₁ : bit_or a 8 ≡ bit_or (a / 2) 4 * 2 + max (a % 2) 0 = bit_or_low a 8 in
    let s₂ : bit_or (a / 2) 4 ≡ bit_or (a / 2 / 2) 2 * 2 + max (a / 2 % 2) 0 =
      bit_or_low (a / 2) 4 in
    let s₃ : bit_or (a / 2 / 2) 2 ≡ bit_or (a / 2 / 2 / 2) 1 * 2 + max (a / 2 / 2 % 2) 0 =
      bit_or_low (a / 2 / 2) 2 in
    let s₄ : bit_or (a / 2 / 2 / 2) 1
        ≡ bit_or (a / 2 / 2 / 2 / 2) 0 * 2 + max (a / 2 / 2 / 2 % 2) 1 =
      bit_or_low (a / 2 / 2 / 2) 1 in
    omega (arith, h, s₁, s₂, s₃, s₄, bit_or-zero (a / 2 / 2 / 2 / 2))

load_word : (vid : ℕ) → bit_or (bit_or vtu_op_load (vid << 16)) vtu_active ≡ vid * 2 ^ 16 + 10
load_word vid =
    let a = vid * 2 ^ 16 + 2 in
    ap (λ (x : ℕ). bit_or x 8) (bit_or_above 16 vid 2 (omega arith))
    ∙ or_eight a (omega arith)
    ∙ omega arith

pub ar-Asic : Asic ar
ar-Asic = record {
  store = store_of;
  busy_most = λ d. omega arith;
  reads = λ a d h. (rw (kept-vtu a h) refl, refl);
  polls = λ d. (refl, refl);
  writes = λ a x d h. rw (kept-vtu a h) refl;
  flushes = λ d h. (refl, refl);
  loads = λ vid d h i.
      let word = load_word vid in
      let op : (vid * 2 ^ 16 + 10) % 8 ≡ 2 = omega arith in
      let row : (vid * 2 ^ 16 + 10) / 2 ^ 16 % 4096 ≡ vid = omega (arith, h) in
      (rw (word, op) refl, rw (word, op, row) refl);
}

pub ar-idle : (d : Cells) → (ar-Asic.store d).busy ≡ 0
unfolding ar-Asic
ar-idle d = refl

-- The pages.
record Banks : Type 0 where
  page : ℕ
  cell : ℕ → ℕ → ℕ → ℕ

abbrev mii : MiiBus Banks
mii = record {
  read = λ a r d. (d.cell d.page a r, d);
  write = λ a r x d. if a == 0x18 then record d { page = x } else record d {
    cell = λ p b q. if (p == d.page) && (b == a) && (q == r) then x % 2 ^ 16 else d.cell p b q;
  };
}

below-page : (a : ℕ) → a < 0x18 → (a == 0x18) ≡ false
below-page a h = ground (arith, h)

mii-Pages : Pages mii
mii-Pages = record {
  page = λ d. d.page;
  cell = λ d. d.cell;
  selects = λ x d. (refl, refl);
  reads = λ a r d h. (refl, refl, refl);
  writes = λ a r x d h. (rw (below-page a h) refl, rw (below-page a h) refl);
}

abbrev blank : Banks
blank = record { page = 0; cell = λ p b q. 0 }

mii_read-mii_write_example :
    (mii_read mii 0x104 (mii_write mii 0x104 0x12345678 blank)).0 ≡ 0x12345678
mii_read-mii_write_example =
    mii_read-mii_write mii mii-Pages 0x104 0x104 0x12345678 blank (refl, omega arith)
      (refl, omega arith) (omega arith)

-- The CPU port tagged and port 1 untagged, in VLAN 1, and ports 0 and 2 in VLAN 2.
abbrev pub first_ports : List SwitchPort
first_ports = record { id = 0; flags = tagged } ∷ record { id = 1; flags = 0 } ∷ []

abbrev second_ports : List SwitchPort
second_ports = record { id = 2; flags = 0 } ∷ record { id = 0; flags = tagged } ∷ []

pub below_first : AllBelow 6 first_ports
below_first = (omega arith, (omega arith, tt))

below_second : AllBelow 6 second_ports
below_second = (omega arith, (omega arith, tt))

abbrev used : Priv
used = record {
  chip = ar8216;
  vlan = true;
  vlan_id = λ j. 7;
  vlan_table = λ j. 9;
  vlan_tagged = 0;
  pvid = λ j. 5;
}

abbrev configured : Priv
configured = set_ports 2 second_ports (set_ports 1 first_ports (set_vlan 1 (reset_priv used)))

Calls-IsOnce_example : IsOnce configured
Calls-IsOnce_example = Calls-IsOnce 16 configured (omega arith) (
    ports 2 second_ports (omega arith) below_second
      (ports 1 first_ports (omega arith) below_first (mode 1 (reset used))))

get_ports-set_ports_example :
    get_ports 2 (set_ports 2 second_ports used)
    ≡ record { id = 0; flags = tagged } ∷ record { id = 2; flags = 0 } ∷ []
unfolding listed
get_ports-set_ports_example = get_ports-set_ports 2 second_ports used (omega arith) below_second

abbrev pub blank_cells : Cells
blank_cells = record { regs = λ a. 0; vtu = λ v. 9 }

-- VLAN 1 has the ports 0 and 1, VLAN 2 the ports 0 and 2.
abbrev two_vlans : Bool → Priv
two_vlans v = record {
  chip = ar8216;
  vlan = v;
  vlan_id = λ j. j;
  vlan_table = λ j. if j == 1 then 3 else if j == 2 then 5 else 0;
  vlan_tagged = 1;
  pvid = λ j. if j == 1 then 1 else 2;
}

two_vlans-Fits : (v : Bool) → Fits (two_vlans v)
two_vlans-Fits v = record { ids = λ j h. omega (arith, h); pvid_in = λ q h. ground arith }

-- The ports of the chip: in the mode `AR8216_IN_SECURE` the translation unit decides too.
abbrev ar_passes : Cells → ℕ → ℕ → ℕ → Bool
ar_passes d vid i q =
    let dest = has_bit (d.regs (reg_port_vlan i)) (16 + q) in
    let word = d.vtu vid in
    let known = has_bit word 11 && (has_bit word i && has_bit word q) in
    if is_secure (d.regs (reg_port_vlan i)) then dest && known else dest

pub ar-Forwarding : Forwarding ar-Asic
unfolding ar-Asic
ar-Forwarding = record { passes = ar_passes; secure = λ d vid i q h. rw h refl }

hw_apply-passes_iff_example :
    let p = two_vlans true in
    (ar-Forwarding.passes (hw_apply ar p blank_cells) 1 1 0 ≡ true)
    ↔ Carries p.vlan_id p.vlan_table max_vlans 1 1 0
hw_apply-passes_iff_example =
    hw_apply-passes_iff ar ar-Asic (two_vlans true) (two_vlans-Fits true) blank_cells ar-Forwarding
      1 1 0 (λ u v hu hv fu fv e. e) refl (omega arith) (omega arith)

only_two : (v : ℕ) → v < max_vlans → (two_vlans true).vlan_table v ≢ 0 → v ≡ 2 → v ≡ 2
only_two v h ne e = e

hw_apply-vtu_example :
    (ar-Asic.store (hw_apply ar (two_vlans true) blank_cells)).vtu 2 ≡ member_word 5
hw_apply-vtu_example =
    hw_apply-vtu ar ar-Asic (two_vlans true) (two_vlans-Fits true) blank_cells 2 refl (omega arith)
      (omega arith) only_two

-- A packet from port 2 with the header and the VLAN tag of port 2, priority 5.
abbrev arrived : Skb
arrived = record {
  bytes = λ k. if k == 0 then 2 else if k == 14 then 0x81 else if k == 16 then 0xa0 else 0;
  len = 64;
}

mangle_rx-Revlaned_example :
    (r : Skb) × (mangle_rx (some (two_vlans true)) arrived ≡ passed r) × Revlaned 2 arrived r
mangle_rx-Revlaned_example =
    mangle_rx-Revlaned (two_vlans true) arrived refl refl refl refl (omega arith) (omega arith)
      (omega arith)

-- A bus on which the words of an AR8316 stand.
abbrev id_bus : MiiBus Unit
id_bus = record { read = λ a r d. (if r == 0 then 0x1001 else 0, d); write = λ a r x d. d }

abbrev with_memory : Kernel
with_memory = record { has_memory = true; registers = ok tt; interface = another }

config_init_dangles_example :
    let r = config_init id_bus with_memory 0 false tt in (r.registered && not r.allocated) ≡ true
unfolding id_chip confirm mii_read split_addr
config_init_dangles_example = config_init_dangles id_bus with_memory 0 false tt
