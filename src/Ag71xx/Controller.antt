-- ===== src/Ag71xx/Controller.antt =====
-- ag71xx_mdio.c on a controller that behaves: its accesses are those of the bus behind it.
use wair_os.Base.{
  ℕ, zero, suc, ◌+◌, ◌-◌, ◌*◌, ◌/◌, ◌%◌, ◌^◌, ◌<◌, ◌≤◌, ◌≡◌, refl, ◌∙◌, ap, arith, bit_and, bit_or,
  bit_and_mask, bit_or_below, ◌<<◌, Bool, true, false, ◌||◌, ◌==◌, ==_iff, Bool-cases, inl, inr,
  if◌then◌else◌,
}
use wair_os.Ar8216.Mii.{Regs, MiiBus}
use wair_os.Ag71xx.Mdio.{
  reg_mii_cmd, reg_mii_addr, reg_mii_ctrl, reg_mii_status, reg_mii_ind, mii_cmd_write, mii_cmd_read,
  mii_ind_busy, mdio_retry, mii_addr_word, mdio_wr, mdio_wait, mdio_take, mdio_mii_read,
  mdio_mii_write,
}

pub record View (E : Type 0) : Type 0 where
  -- the word of `AG71XX_REG_MII_ADDR`, and the last one read from the bus
  pub addr : ℕ
  pub status : ℕ
  -- the reads of `AG71XX_REG_MII_IND` that still show an operation
  pub busy : ℕ
  -- what is on the bus
  pub dev : E

-- A read command reads from the bus, and a write to `AG71XX_REG_MII_CTRL` writes to it; either is
-- over after at most a thousand reads of `AG71XX_REG_MII_IND`.
pub record Controller {D E : Type 0} (b : Regs D) (wire : MiiBus E) : Type 0 where
  pub view : D → View E
  pub busy_most : (d : D) → (view d).busy ≤ mdio_retry
  pub polls :
      (d : D)
      → (bit_and (b.read reg_mii_ind d).0 mii_ind_busy
          ≡ (if (view d).busy == 0 then 0 else mii_ind_busy))
        × (view (b.read reg_mii_ind d).1 ≡ record (view d) { busy = (view d).busy - 1 })
  pub keeps :
      (reg : ℕ) (d : D)
      → (reg == reg_mii_cmd)
          || (reg == reg_mii_addr)
          || (reg == reg_mii_ctrl)
          || (reg == reg_mii_status)
        ≡ true
      → view (b.read reg d).1 ≡ view d
  pub gives : (d : D) → (b.read reg_mii_status d).0 ≡ (view d).status
  pub stops : (d : D) → view (b.write reg_mii_cmd mii_cmd_write d) ≡ view d
  pub selects :
      (x : ℕ) (d : D)
      → (view d).busy ≡ 0
      → view (b.write reg_mii_addr x d) ≡ record (view d) { addr = x }
  pub starts_read :
      (d : D)
      → (view d).busy ≡ 0
      → let w = view (b.write reg_mii_cmd mii_cmd_read d) in
        let r = wire.read ((view d).addr / 256) ((view d).addr % 256) (view d).dev in
        (w.status ≡ r.0) × (w.dev ≡ r.1)
  pub starts_write :
      (x : ℕ) (d : D)
      → (view d).busy ≡ 0
      → (view (b.write reg_mii_ctrl x d)).dev
        ≡ wire.write ((view d).addr / 256) ((view d).addr % 256) x (view d).dev

-- The parts of the address word.
addr_word_lem : (a r : ℕ) → a < 256 → r < 256 → mii_addr_word a r ≡ a * 256 + r
addr_word_lem a r ha hr =
    let first : bit_and a 0xff ≡ a = bit_and_mask 8 a ∙ omega (arith, ha) in
    let second : bit_and r 0xff ≡ r = bit_and_mask 8 r ∙ omega (arith, hr) in
    ap (λ (x : ℕ). bit_or (x << 8) (bit_and r 0xff)) first
    ∙ ap (bit_or (a << 8)) second
    ∙ bit_or_below 8 a r hr
    ∙ omega arith

module _ {D E : Type 0} (b : Regs D) (wire : MiiBus E) (k : Controller b wire) where
  -- The wait ends, and only the count of reads has changed.
  record Waited (d : D) (r : Bool × D) : Type 0 where
    in_time : r.0 ≡ false
    status : (k.view r.1).status ≡ (k.view d).status
    dev : (k.view r.1).dev ≡ (k.view d).dev
    idle : (k.view r.1).busy ≡ 0

  mdio_wait-Waited : (i : ℕ) (d : D) → (k.view d).busy ≤ i → Waited d (mdio_wait b i d)
  unfolding mdio_wait
  mdio_wait-Waited zero d h =
      let none_left : (k.view d).busy ≡ 0 = omega (arith, h) in
      let polled = (k.polls d).1 in
      rw ((k.polls d).0, none_left)
        (record {
          in_time = refl;
          status = ap (λ (s : View E). s.status) polled;
          dev = ap (λ (s : View E). s.dev) polled;
          idle = ap (λ (s : View E). s.busy) polled ∙ omega (arith, none_left);
        })
  mdio_wait-Waited (suc i) d h =
      let polled = (k.polls d).1 in
      elim (Bool-cases ((k.view d).busy == 0)) [
        | inl e ↦
            rw ((k.polls d).0, e)
              (record {
                in_time = refl;
                status = ap (λ (s : View E). s.status) polled;
                dev = ap (λ (s : View E). s.dev) polled;
                idle = ap (λ (s : View E). s.busy) polled ∙ omega (arith, (==_iff _ _).0 e);
              })
        | inr e ↦
            let less : (k.view (b.read reg_mii_ind d).1).busy ≤ i =
              omega (arith, h, ap (λ (s : View E). s.busy) polled) in
            let w = mdio_wait-Waited i (b.read reg_mii_ind d).1 less in
            rw ((k.polls d).0, e)
              (record {
                in_time = w.in_time;
                status = w.status ∙ ap (λ (s : View E). s.status) polled;
                dev = w.dev ∙ ap (λ (s : View E). s.dev) polled;
                idle = w.idle;
              })
      ]

  stop_lem : (d : D) → k.view (mdio_wr b reg_mii_cmd mii_cmd_write d) ≡ k.view d
  unfolding mdio_wr
  stop_lem d = k.keeps reg_mii_cmd _ refl ∙ k.stops d

  select_lem :
      (x : ℕ) (d : D)
      → (k.view d).busy ≡ 0
      → k.view (mdio_wr b reg_mii_addr x d) ≡ record (k.view d) { addr = x }
  unfolding mdio_wr
  select_lem x d h = k.keeps reg_mii_addr _ refl ∙ k.selects x d h

  module _ (a r : ℕ) (hr : r < 256) (d : D) (idle : (k.view d).busy ≡ 0)
      (e : (k.view d).addr ≡ a * 256 + r) where
    address : (k.view d).addr / 256 ≡ a
    address = ap (λ (x : ℕ). x / 256) e ∙ omega (arith, hr)

    register : (k.view d).addr % 256 ≡ r
    register = ap (λ (x : ℕ). x % 256) e ∙ omega (arith, hr)

    read_lem :
        let w = k.view (mdio_wr b reg_mii_cmd mii_cmd_read d) in
        let g = wire.read a r (k.view d).dev in (w.status ≡ g.0) × (w.dev ≡ g.1)
    unfolding mdio_wr
    read_lem =
        let kept = k.keeps reg_mii_cmd (b.write reg_mii_cmd mii_cmd_read d) refl in
        let started = k.starts_read d idle in
        let same =
          ap (λ (x : ℕ). wire.read x ((k.view d).addr % 256) (k.view d).dev) address
          ∙ ap (λ (x : ℕ). wire.read a x (k.view d).dev) register in
        (
          ap (λ (v : View E). v.status) kept ∙ started.0 ∙ ap (λ (g : ℕ × E). g.0) same,
          ap (λ (v : View E). v.dev) kept ∙ started.1 ∙ ap (λ (g : ℕ × E). g.1) same,
        )

    write_lem :
        (x : ℕ) → (k.view (mdio_wr b reg_mii_ctrl x d)).dev ≡ wire.write a r x (k.view d).dev
    unfolding mdio_wr
    write_lem x =
        ap (λ (v : View E). v.dev) (k.keeps reg_mii_ctrl (b.write reg_mii_ctrl x d) refl)
        ∙ k.starts_write x d idle
        ∙ ap (λ (n : ℕ). wire.write n ((k.view d).addr % 256) x (k.view d).dev) address
        ∙ ap (λ (n : ℕ). wire.write a n x (k.view d).dev) register

  -- What a read leaves: the word, the bus, and no operation that goes on.
  pub record Answered (word : ℕ) (e : E) (r : ℕ × D) : Type 0 where
    pub value : r.0 ≡ word % 2 ^ 16
    pub dev : (k.view r.1).dev ≡ e
    pub idle : (k.view r.1).busy ≡ 0

  take_lem :
      (d : D) (r : Bool × D)
      → Waited d r
      → Answered (k.view d).status (k.view d).dev (mdio_take b r)
  unfolding mdio_take
  take_lem d (true, d') w = absurd (cc (w.in_time))
  take_lem d (false, d') w =
      let read = b.read reg_mii_status d' in
      let kept = stop_lem read.1 ∙ k.keeps reg_mii_status d' refl in
      record {
        value = bit_and_mask 16 read.0 ∙ ap (λ (x : ℕ). x % 2 ^ 16) (k.gives d' ∙ w.status);
        dev = ap (λ (s : View E). s.dev) kept ∙ w.dev;
        idle = ap (λ (s : View E). s.busy) kept ∙ w.idle;
      }

  -- `ag71xx_mdio_mii_read` at an address and a register below 256, when no operation goes on: it
  -- does not run out of time, returns sixteen bits of the word that the bus gives there, and leaves
  -- the bus as that read does, with no operation going on.
  pub mdio_mii_read-Answered :
      (a r : ℕ) (d : D)
      → a < 256
      → r < 256
      → (k.view d).busy ≡ 0
      → let w = wire.read a r (k.view d).dev in Answered w.0 w.1 (mdio_mii_read b a r d)
  unfolding mdio_mii_read
  mdio_mii_read-Answered a r d ha hr h =
      let d₁ = mdio_wr b reg_mii_cmd mii_cmd_write d in
      let d₂ = mdio_wr b reg_mii_addr (mii_addr_word a r) d₁ in
      let d₃ = mdio_wr b reg_mii_cmd mii_cmd_read d₂ in
      let at₂ : k.view d₂ ≡ record (k.view d) { addr = mii_addr_word a r } =
        select_lem _ d₁ (ap (λ (s : View E). s.busy) (stop_lem d) ∙ h)
        ∙ ap (λ (s : View E). record s { addr = mii_addr_word a r }) (stop_lem d) in
      let started =
        read_lem a r hr d₂ (ap (λ (s : View E). s.busy) at₂ ∙ h)
          (ap (λ (s : View E). s.addr) at₂ ∙ addr_word_lem a r ha hr) in
      let here : (k.view d₂).dev ≡ (k.view d).dev = ap (λ (s : View E). s.dev) at₂ in
      let took = take_lem d₃ _ (mdio_wait-Waited mdio_retry d₃ (k.busy_most d₃)) in
      record {
        value =
            took.value
            ∙ ap (λ (n : ℕ). n % 2 ^ 16) (started.0 ∙ ap (λ (e : E). (wire.read a r e).0) here);
        dev = took.dev ∙ started.1 ∙ ap (λ (e : E). (wire.read a r e).1) here;
        idle = took.idle;
      }

  -- `ag71xx_mdio_mii_write` at an address and a register below 256, when no operation goes on,
  -- leaves the bus as the write of the word there does, with no operation going on.
  pub mdio_mii_write_lem :
      (a r x : ℕ) (d : D)
      → a < 256
      → r < 256
      → (k.view d).busy ≡ 0
      → let v = k.view (mdio_mii_write b a r x d) in
        (v.dev ≡ wire.write a r (x % 2 ^ 16) (k.view d).dev) × (v.busy ≡ 0)
  unfolding mdio_mii_write
  mdio_mii_write_lem a r x d ha hr h =
      let d₁ = mdio_wr b reg_mii_addr (mii_addr_word a r) d in
      let d₂ = mdio_wr b reg_mii_ctrl (x % 2 ^ 16) d₁ in
      let at₁ = select_lem (mii_addr_word a r) d h in
      let wrote =
        write_lem a r hr d₁ (ap (λ (s : View E). s.busy) at₁ ∙ h)
          (ap (λ (s : View E). s.addr) at₁ ∙ addr_word_lem a r ha hr) (x % 2 ^ 16) in
      let waited = mdio_wait-Waited mdio_retry d₂ (k.busy_most d₂) in
      (
        waited.dev
            ∙ wrote
            ∙ ap (λ (e : E). wire.write a r (x % 2 ^ 16) e) (ap (λ (s : View E). s.dev) at₁),
        waited.idle,
      )
