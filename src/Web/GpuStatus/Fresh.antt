-- ===== src/Web/GpuStatus/Fresh.antt =====
-- How old a reading can be (src/web/gpu_status.py).
use lb_note.Base.{ℕ, ◌+◌, ◌≡◌, ◌≤◌, ◌<◌, refl, Option, none, some, true, false, lt→ltb, le→ltb}
use lb_note.Web.GpuStatus.{Reading, Settings, Cache, cached, cached_raw}

forced : (s : Settings) (now at : ℕ) (raw : Option Reading) → cached s true now at raw ≡ none
forced s now at none = refl
forced s now at (some r) = refl

-- A reading is used again for less than the time to live and not longer: after nvidia-smi was asked
-- and has answered, a read that is not forced gives the same answer and asks nothing before that time
-- is over, and asks again from then on.
pub cached_raw_ttl :
    (s : Settings) (now later : ℕ) (r : Reading) (answer : Option Reading) (c : Cache)
    → (later < now + s.ttl
        → cached_raw s false later answer (cached_raw s true now (some r) c).1
          ≡ (some r, record { at = now; raw = some r }))
      × (now + s.ttl ≤ later
          → cached_raw s false later answer (cached_raw s true now (some r) c).1
            ≡ (answer, record { at = later; raw = answer }))
unfolding cached_raw
cached_raw_ttl s now later r answer c = (
  λ h. rw (forced s now c.at c.raw, lt→ltb later (now + s.ttl) h) refl,
  λ h. rw (forced s now c.at c.raw, le→ltb later (now + s.ttl) h) refl,
)
