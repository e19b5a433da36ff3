-- ===== src/Rtl8366rb/Rates.antt =====
-- The bandwidth limits of rtl8366rb.c, as they read back.
use wair_os.Base.{
  ℕ, ◌+◌, ◌-◌, ◌*◌, ◌/◌, ◌%◌, ◌^◌, ◌<◌, ◌≡◌, ◌∙◌, ap, arith, bit_and, bit_or, ◌<<◌, bit_and_mask,
  bit_or_above, bit_and-mod, bit_or-mod, leb, ltb, ◌&&◌, if◌then◌else◌, true, false, ok, ◌>>=◌,
  pure, update_self,
}
use wair_os.Rtl8366.{Bus, rmwr, read_or}
use wair_os.Rtl8366rb.Asic.{Store, Asic, is_storage, is_readable}
use wair_os.Rtl8366rb.Access.{rmwr-Gives}
use wair_os.Rtl8366rb.Control.{
  rate_word, rate_value, bdth_mask, bdth_sw_max, bdth_unit, sw_set_port_rate_in,
  sw_get_port_rate_in, sw_set_port_rate_out, sw_get_port_rate_out,
}

rate_word-lt : (i : ℕ) → rate_word i < 2 ^ 14
unfolding rate_word
rate_word-lt i = ground arith

-- A limit in kbit/s as the chip can hold it: the next multiple of 64, or no limit.
abbrev pub rounded : ℕ → ℕ
rounded i =
    if ltb 0 i && ltb i bdth_sw_max then ((i - 1) / bdth_unit + 1) * bdth_unit else bdth_sw_max

rate_value-rate_word : (i x : ℕ) → x % 2 ^ 14 ≡ rate_word i → rate_value x ≡ rounded i
unfolding rate_word rate_value
rate_value-rate_word i x e =
    let field : bit_and x bdth_mask ≡ x % 2 ^ 14 = bit_and_mask 14 x in rw (field, e) (ground arith)

-- The masked write leaves the new limit in the low fourteen bits.
written_in :
    (t i : ℕ)
    → bit_or (bit_and t ((2 ^ 18 - 2) * 2 ^ 14)) (bit_or (rate_word i) (1 << 14)) % 2 ^ 16 % 2 ^ 14
      ≡ rate_word i
written_in t i =
    let small = rate_word-lt i in
    let old = bit_and t ((2 ^ 18 - 2) * 2 ^ 14) in
    let new = bit_or (rate_word i) (1 << 14) in
    let sum : new ≡ 1 * 2 ^ 14 + rate_word i = bit_or_above 14 1 (rate_word i) small in
    let low : bit_or old new % 2 ^ 14 ≡ new % 2 ^ 14 =
      bit_or-mod 14 old new (bit_and-mod 14 t (2 ^ 18 - 2)) in
    omega (arith, sum, low, small)

written_out :
    (t i : ℕ)
    → bit_or (bit_and t ((2 ^ 18 - 1) * 2 ^ 14)) (rate_word i) % 2 ^ 16 % 2 ^ 14 ≡ rate_word i
written_out t i =
    let small = rate_word-lt i in
    let old = bit_and t ((2 ^ 18 - 1) * 2 ^ 14) in
    let low : bit_or old (rate_word i) % 2 ^ 14 ≡ rate_word i % 2 ^ 14 =
      bit_or-mod 14 old (rate_word i) (bit_and-mod 14 t (2 ^ 18 - 1)) in
    omega (arith, low, small)

module _ {D : Type 0} (b : Bus D) (k : Asic b) where
  -- What the get handlers make of a register.
  limit_of :
      (a held i : ℕ) (u : D)
      → is_readable a ≡ true
      → (k.store u).regs a % 2 ^ 14 ≡ rate_word i
      → ((read_or b held a >>= λ w. pure (rate_value w)) u).0 ≡ ok (rounded i)
  limit_of a held i u p e =
      rw (k.reads a u p).outcome (ap ok (rate_value-rate_word i ((k.store u).regs a) e))

  -- The register after a masked write.
  after_rmwr :
      (a mask x : ℕ) (d : D)
      → is_storage a ≡ true
      → is_readable a ≡ true
      → (k.store (rmwr b a mask x d).1).regs a
        ≡ bit_or (bit_and ((k.store d).regs a) (2 ^ 32 - 1 - mask)) x % 2 ^ 16
  after_rmwr a mask x d p q =
      ap (λ (s : Store). s.regs a) (rmwr-Gives b k a mask x d p q).tables
      ∙ update_self (k.store d).regs a _

  module _ (p : ℕ) (h : p < 6) (i held : ℕ) (d : D) where
    port_good : leb 6 p ≡ false
    port_good = ground arith

    rate_in :
        ((sw_set_port_rate_in b p i d).0 ≡ ok tt)
        × ((sw_get_port_rate_in b held p (sw_set_port_rate_in b p i d).1).0 ≡ ok (rounded i))
    unfolding sw_set_port_rate_in sw_get_port_rate_in
    rate_in =
        let x = bit_or (rate_word i) (1 << 14) in
        let a = 0x200 + p in
        let stores : is_storage a ≡ true = ground arith in
        let reads : is_readable a ≡ true = ground arith in
        let u = (rmwr b a 0x7fff x d).1 in
        let new : (k.store u).regs a % 2 ^ 14 ≡ rate_word i =
          rw (after_rmwr a 0x7fff x d stores reads) (written_in ((k.store d).regs a) i) in
        rw port_good
          ((rmwr-Gives b k a 0x7fff x d stores reads).outcome, limit_of a held i u reads new)

    rate_out :
        ((sw_set_port_rate_out b p i d).0 ≡ ok tt)
        × ((sw_get_port_rate_out b held p (sw_set_port_rate_out b p i d).1).0 ≡ ok (rounded i))
    unfolding sw_set_port_rate_out sw_get_port_rate_out
    rate_out =
        let a = 0x2d1 + p in
        let stores : is_storage a ≡ true = ground arith in
        let reads : is_readable a ≡ true = ground arith in
        let d₁ = (rmwr b 0x2f8 512 512 d).1 in
        let u = (rmwr b a 0x3fff (rate_word i) d₁).1 in
        let new : (k.store u).regs a % 2 ^ 14 ≡ rate_word i =
          rw (after_rmwr a 0x3fff (rate_word i) d₁ stores reads)
            (written_out ((k.store d₁).regs a) i) in
        rw port_good (
          (rmwr-Gives b k a 0x3fff (rate_word i) d₁ stores reads).outcome,
          limit_of a held i u reads new,
        )

    -- For one of six ports of an RTL8366RB, setting the ingress limit or the egress limit succeeds,
    -- and the limit reads back as the next multiple of 64 kbit/s, or as 1048512, which stands for
    -- none, when the value is 0 or at least 1048512.
    pub get_port_rate-set_port_rate :
        ((sw_set_port_rate_in b p i d).0 ≡ ok tt)
        × ((sw_get_port_rate_in b held p (sw_set_port_rate_in b p i d).1).0 ≡ ok (rounded i))
        × ((sw_set_port_rate_out b p i d).0 ≡ ok tt)
        × ((sw_get_port_rate_out b held p (sw_set_port_rate_out b p i d).1).0 ≡ ok (rounded i))
    get_port_rate-set_port_rate = (rate_in.0, rate_in.1, rate_out.0, rate_out.1)
