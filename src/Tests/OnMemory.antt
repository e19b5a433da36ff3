-- ===== src/Tests/OnMemory.antt =====
-- Opening and stopping the ag71xx driver on concrete devices.
use wair_os.Base.{◌≡◌, refl, false, true, none, some, [], ◌∷◌}
use wair_os.Ag71xx.Memory.{
  Pointer, null, valid, use_after_free, and_also, Memory, Device, Grant, OpenHost, dev_open,
  dev_stop,
}
use wair_os.Ag71xx.Release.{Pointers, Stopped, dev_stop-Stopped}
use wair_os.Ag71xx.Ending.{OpenEnds}
use wair_os.Ag71xx.Opened.{dev_open-OpenEnds, dev_open-dev_stop}
use wair_os.Tests.OnEth.{new_tx, new_ring, switch, rx_on, eth, on_wire, one_sent-Pending}

abbrev memory : Pointer → Memory
memory p = record { buf = p; descs = p; size = 0; lost = 0 }

abbrev new_device : Device
new_device = record {
  eth = record eth { tx = new_tx; rx = rx_on new_ring };
  tx_mem = memory null;
  rx_mem = memory null;
  napi = false;
  carrier = false;
}

abbrev open_device : Device
open_device = record {
  eth = eth;
  tx_mem = memory valid;
  rx_mem = memory valid;
  napi = true;
  carrier = true;
}

abbrev granted : Grant
granted = record {
  dma = some (0x2000, λ i. record { addr = 0; ctrl = 0; next = 0 });
  zalloc = true;
}

abbrev plenty : OpenHost
plenty = record {
  cache_line_size = 32;
  tx_grant = granted;
  rx_grant = granted;
  kernel = switch;
  mac = λ k. k;
  stop_desc_dma = 0x3000;
}

abbrev scarce : OpenHost
scarce = record plenty { tx_grant = record { dma = none; zalloc = true } }

all_of : (p : Pointer) (d : Device) → d.tx_mem ≡ memory p → d.rx_mem ≡ memory p → Pointers p d
all_of p d e f = record { tx_buf = simp e; tx_descs = simp e; rx_buf = simp f; rx_descs = simp f }

dev_open-OpenEnds_example : OpenEnds plenty new_device (dev_open plenty new_device)
dev_open-OpenEnds_example =
    dev_open-OpenEnds plenty new_device
      (record { pointers = all_of null new_device refl refl; level = refl })

dev_stop-Stopped_example : Stopped open_device (on_wire ∷ []) (dev_stop plenty open_device)
dev_stop-Stopped_example =
    dev_stop-Stopped plenty open_device (on_wire ∷ []) (all_of valid open_device refl refl)
      one_sent-Pending.holds.keeps

dev_open-dev_stop_example :
    and_also (dev_stop plenty open_device) (dev_open scarce) ≡ use_after_free
dev_open-dev_stop_example =
    dev_open-dev_stop plenty scarce open_device (on_wire ∷ []) (all_of valid open_device refl refl)
      one_sent-Pending.holds.keeps refl
