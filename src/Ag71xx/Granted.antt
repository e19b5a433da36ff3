-- ===== src/Ag71xx/Granted.antt =====
-- ag71xx_ring_alloc of ag71xx_main.c, by what the allocators answer.
use wair_os.Base.{ℕ, ◌≡◌, true, false, none, some, ok, err, enomem}
use wair_os.Ag71xx.{Ring, Desc}
use wair_os.Ag71xx.Memory.{Memory, Grant, desc_size_for, zeroed, null, valid, ring_alloc}

-- What ag71xx_ring_alloc leaves of a ring, by the answers.
module _ (line size : ℕ) (g : Grant) (r : Ring) (m : Memory) where
  abbrev pub sized : Ring
  sized = record r { desc_size = desc_size_for line }

  pub refused_descs :
      g.dma ≡ none
      → m.descs ≡ null
      → ring_alloc line size g (r, m) ≡ (err enomem, (sized, record m { descs = null }))
  unfolding ring_alloc
  refused_descs e f = simp (ring_alloc, e, f)

  module _ (dma : ℕ) (descs : ℕ → Desc) where
    abbrev pub placed : Ring
    placed = record sized { descs_dma = dma }

    pub refused_buf :
        g.dma ≡ some (dma, descs)
        → g.zalloc ≡ false
        → m.descs ≡ null
        → m.buf ≡ null
        → ring_alloc line size g (r, m)
          ≡ (err enomem, (placed, record m { descs = valid; size = size; buf = null }))
    unfolding ring_alloc
    refused_buf e z f b = simp (ring_alloc, e, z, f, b)

    pub granted :
        g.dma ≡ some (dma, descs)
        → g.zalloc ≡ true
        → m.descs ≡ null
        → m.buf ≡ null
        → ring_alloc line size g (r, m) ≡ (
          ok tt,
          (
            record placed { buf = zeroed descs },
            record m { descs = valid; size = size; buf = valid },
          ),
        )
    unfolding ring_alloc
    granted e z f b = simp (ring_alloc, e, z, f, b)
