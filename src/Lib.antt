-- ===== src/Lib.antt =====
-- Verification of network drivers of the router firmware: the RTL8366 Ethernet switches
-- (target/linux/generic-2.6/files/drivers/net/phy/rtl8366_smi.c, rtl8366_smi.h, rtl8366s.c and
-- rtl8366rb.c), the switches AR8216 and AR8316 (ar8216.c and ar8216.h there), and the ag71xx
-- Ethernet controller (target/linux/ar71xx/files/drivers/net/ag71xx).
--
-- The program's parts, and how they interact. A router drives the switch chip through two GPIO
-- lines. rtl8366_smi.c turns register accesses into pin changes; a chip driver (rtl8366s.c or
-- rtl8366rb.c) turns table entries into register accesses and hands its operations to
-- rtl8366_smi.c as `struct rtl8366_smi_ops`; the VLAN code of rtl8366_smi.c works on these
-- operations, and its `rtl8366_sw_*` handlers are what swconfig calls. The processor sends and
-- receives through the ag71xx controller: the kernel hands packets to `ag71xx_hard_start_xmit`,
-- an interrupt schedules `ag71xx_poll`, and driver and device pass the descriptors of two rings
-- to each other. ar8216.c reaches its switch through the MII bus; it keeps the VLANs that
-- swconfig sets in its own state and brings them to the chip in `ar8216_hw_apply`, and it
-- changes the packets between the switch and ag71xx. The switch inside an AR7240 is reached in
-- the same way, through the MDIO registers of ag71xx.
--
-- Base: shared names. Tests, Bits, Digits and Nibble are Boolean tests and the words of C on
--   native numbers; Ops is the result of a kernel function (a value or a negative error code, with
--   the state left in both cases). Masks is single digits of a word, Maps loops over an array.
-- Smi: rtl8366_smi.c, lines 25 to 271, `rtl8366_smi_start` to `rtl8366_smi_write_reg`. The state
--   records the calls of the GPIO library, and the level that each sample of SDA reads is an
--   arbitrary function. Chip is a decoder of the wire protocol that knows nothing of the driver;
--   Frame and Access say what it receives; Ack, Reads and Nack say how many samples a call takes
--   and what it returns.
-- Vlan: rtl8366_smi.c, lines 289 to 558, over the record `Ops` for `struct rtl8366_smi_ops`.
--   View says what a chip driver promises of its tables (`Tables`); Scan, Search and Pigeonhole
--   are the loops over the MC table; Pvid and Effect are `rtl8366_set_pvid`; SetVlan is
--   `rtl8366_set_vlan`; Coherent and Invariant are the invariant of the two tables; Init and Reset
--   are `rtl8366_init_vlan` and the flags.
-- Rtl8366: the register access as an interface (`Bus`), which Smi fills. Handlers is the
--   `rtl8366_sw_*` functions of rtl8366_smi.c; Ports, Listing and Roundtrip are about the two that
--   handle the ports of a VLAN. Startup is `rtl8366_smi_init`, `rtl8366_smi_detect` and
--   `rtl8366_smi_cleanup`, with what the GPIO and MDIO libraries answer as a parameter, and
--   Claimed is what they hold when they return; Fids is about the two handlers of a FID.
-- Rtl8366s: rtl8366s.c over a bus: the tables here, Counters the MIB and PHY registers (Width is
--   the value of a counter), Control reset, set-up, detection and handlers. Asic is what is relied
--   on of the chip; Words, Fields, Entries and Slots are the encodings, Access and Window the
--   accesses, and Implements fills `Tables` from them, which Readback and Boot use.
-- Rtl8366rb: rtl8366rb.c in the same way: the tables here, Control reset, PHY, counters and
--   handlers. Asic is what is relied on of this chip; Codec, Entries and Access are the encodings
--   and accesses, Implements fills `Tables` a second time, so that what Vlan proves holds on both
--   chips, Boot is its instance of the start, and Rates the bandwidth limits.
-- Ag71xx: the structs of ag71xx.h and the switch header of ag71xx_ar8216.c. Tx is the transmit
--   ring of ag71xx_main.c (`ag71xx_ring_tx_init`, `ag71xx_hard_start_xmit`, `ag71xx_tx_packets`,
--   `ag71xx_ring_tx_clean`); Slots is the ring as a queue of packets, which Xmit, Reap, Sent and
--   Empty prove of the functions, and Traffic of all runs of them with a device that writes to
--   descriptors of packets in flight. Rx is the receive ring (`ag71xx_ring_rx_init`,
--   `ag71xx_ring_rx_refill`, `ag71xx_rx_packets`); Window is the part of it that waits for new
--   packets, Receive and Refill are the two loops, Received is the whole call, Prepared is the
--   ring at the start. Poll is `ag71xx_poll`, `ag71xx_interrupt` and the timer over both rings,
--   with Awake and Polled about them. Memory is the memory of both rings, `ag71xx_open` and
--   `ag71xx_stop`; Packets is which packets `ag71xx_ring_rx_clean` frees; Release is what the
--   second gives back; Granted is `ag71xx_ring_alloc` by the answers of the allocators, Ending the
--   two ways in which the first ends, and Opened the whole call. Mdio is `ag71xx_mdio_mii_read`
--   and `ag71xx_mdio_mii_write` of ag71xx_mdio.c, and Controller what is relied on of the
--   controller, with the bus behind it.
-- Ar8216: ar8216.c. Here are `struct ar8216_priv` and the handlers of swconfig; Members and Once
--   are about `ar8216_set_ports` (each port, and the invariant over all calls), Listing about
--   setting and listing. Mii is `split_addr`, `ar8216_mii_read`, `ar8216_mii_write` and
--   `ar8216_rmw` over a bus, and Paged the round trip on a bus with pages. Apply is
--   `ar8216_vtu_op`, `ar8216_hw_apply` and `ar8216_reset_switch` over the registers, and Asic what
--   is relied on of the chip, its forwarding included; Vtu, Forward, Settings, Applied and Loaded
--   are the operations, the masks, the registers of the ports, their destinations and modes, and
--   what the translation unit then holds; Filter and Passes put these together to which packets
--   pass from port to port. Mangle is `ar8216_mangle_tx` and `ar8216_mangle_rx`, and Headers about
--   the second. Attach is `ar8216_id_chip`, `ar8316_hw_init` and `ar8216_config_init`.
-- Ar7240: ag71xx_ar7240.c. Here are `struct ar7240sw` and the handlers of swconfig; Same
--   compares them with those of ar8216.c, and Once is the invariant of the tables. Reg is
--   `mk_phy_addr` to `ar7240sw_phy_write`, and Access compares their access over ag71xx_mdio.c
--   with that of ar8216.c. Apply is `ar7240sw_setup` to `ar7240_hw_apply`, Dest the masks,
--   Forwards the destinations and modes of the ports, Loaded the translation unit, and Passes
--   which packets pass from port to port. Probe is `ar7240_probe`, `ag71xx_ar7240_init`,
--   `ag71xx_ar7240_start` and `ag71xx_ar7240_cleanup`.
-- Tests: an executable chip, and each theorem applied to a concrete input.
--
-- Bounds and fuel. Loops run down from their number of rounds, so no fuel can run out: the
-- acknowledge is sampled at most six times, the reset is polled at most ten times, the
-- translation unit of an AR8216 at most 21 times, that of an AR7240 five times, the MDIO
-- controller 1001 times. The loops over a ring get `ring->curr - ring->dirty` turns, and have no
-- result if these do not end them, which the theorems exclude. Registers have 16 bits,
-- read-modify-write works on 32. A chip has at most 6 ports, and port masks of six or of eight
-- bits. The counters of a ring and the statistics wrap at 2 ^ 32.
--
-- Not modelled: delays, locks and messages; the GPIO library and the chip, which are a recorded
-- trace or a parameter, and the hypotheses `Asic` and `Forwarding`; the text that debugfs and
-- two of the handlers print; module registration. Of the ag71xx driver, the set-up of the chip,
-- link changes, the PHY, probe and remove of the MDIO bus, ethtool and debugfs; what
-- `dev_alloc_skb` answers is a parameter, `skb_put` is taken to have room, and the device writes
-- to any descriptor in flight. Of ar8216.c, the link state in `ar8216_read_status`,
-- `ar8216_config_aneg`, probe, remove and registration; of ag71xx_ar7240.c, the periodic work
-- beyond its test of the PHYs. The other drivers of the repository are not modelled.
pub mod Ag71xx
pub mod Ar8216
pub mod Ar7240
pub mod Base
pub mod Smi
pub mod Vlan
pub mod Rtl8366
pub mod Rtl8366s
pub mod Rtl8366rb
pub mod Tests
