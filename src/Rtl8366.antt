-- ===== src/Rtl8366.antt =====
-- What the chip drivers rtl8366s.c and rtl8366_smi.c (target/linux/generic-2.6/files/drivers/net/phy)
-- use of the register access of rtl8366_smi.c: reads, writes, and a masked change.
pub mod Handlers
pub mod Ports
pub mod Listing
pub mod Roundtrip
pub mod Startup
pub mod Claimed
pub mod Fids
use wair_os.Base.{ℕ, ◌-◌, ◌^◌, bit_and, bit_or, Outcome, ok, err, on_err, eio, Op, ◌>>=◌, pure}
use wair_os.Smi.{Wire, read_reg, write_reg}

pub record Bus (D : Type 0) : Type 0 where
  pub read_reg : ℕ → Op D ℕ
  pub write_reg : ℕ → ℕ → Op D (Unit {0})

-- The two GPIO lines are a bus.
abbrev pub smi_bus : Bus Wire
smi_bus = record { read_reg = read_reg; write_reg = write_reg }

module _ {D : Type 0} (b : Bus D) where
  -- `rtl8366_smi_rmwr`
  unfoldable pub rmwr : ℕ → ℕ → ℕ → Op D (Unit {0})
  rmwr addr mask data_word = do
    t ← b.read_reg addr
    b.write_reg addr (bit_or (bit_and t (2 ^ 32 - 1 - mask)) data_word)

  -- A read whose error is not looked at: the variable keeps `held`.
  abbrev pub read_or : ℕ → ℕ → Op D ℕ
  read_or held addr s = let (r, s₁) = b.read_reg addr s in (on_err (λ e. ok held) r, s₁)

  -- A read whose error becomes `-EIO`.
  abbrev pub read_or_eio : ℕ → Op D ℕ
  read_or_eio addr s = let (r, s₁) = b.read_reg addr s in (on_err (λ e. err eio) r, s₁)
