-- ===== src/Smi/Chip.antt =====
-- What a slave on the bus makes of the recorded pin changes: a description of the wire protocol
-- that is independent of the driver.
use wair_os.Base.{
  ℕ, ◌+◌, ◌-◌, ◌*◌, ◌/◌, List, [], ◌∷◌, Bool, true, false, ◌==◌, ◌&&◌, if◌then◌else◌, Option, some,
}
use wair_os.Smi.{sda, sck, Event, set_value, direction_output, direction_input}

pub record Chip : Type 0 where
  -- whether the host drives SDA, and the levels of the two wires
  pub driven : Bool
  pub sda_level : ℕ
  pub sck_level : ℕ
  -- the digits clocked in since the last START, and how many there are
  pub shift : ℕ
  pub count : ℕ
  -- the digits between the last START and STOP
  pub frame : Option (ℕ × ℕ)

-- A change of SDA while SCK is high is a START (falling) or a STOP (rising). The clock pulse in
-- which a STOP falls carries no digit.
unfoldable pub sda_to : ℕ → Chip → Chip
sda_to v c =
    if c.sck_level == 1 && (c.sda_level == 1 && v == 0)
    then record c { sda_level = v; shift = 0; count = 0 }
    else if c.sck_level == 1 && (c.sda_level == 0 && v == 1)
    then record c { sda_level = v; frame = some (c.shift / 2, c.count - 1) }
    else record c { sda_level = v }

-- A rising edge of SCK clocks one digit in, while the host drives SDA.
unfoldable pub sck_to : ℕ → Chip → Chip
sck_to v c =
    if c.driven && (c.sck_level == 0 && v == 1)
    then record c { sck_level = v; shift = c.shift * 2 + c.sda_level; count = c.count + 1 }
    else record c { sck_level = v }

unfoldable pub react : Event → Chip → Chip
unfolding sda_to sck_to
react (set_value sda v) c = sda_to v c
react (set_value sck v) c = sck_to v c
react (direction_output sda v) c = sda_to v (record c { driven = true })
react (direction_output sck v) c = sck_to v c
react (direction_input sda) c = record c { driven = false }
react (direction_input sck) c = c

-- The chip after a trace, newest event first, from any state.
unfoldable pub after : Chip → List Event → Chip
unfolding react
after c [] = c
after c (e ∷ older) = react e (after c older)
