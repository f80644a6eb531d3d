-- ===== src/Web/GpuStatus.antt =====
-- The watch on the memory of the GPU (src/web/gpu_status.py). The clock is in milliseconds, and what
-- nvidia-smi answers, in MiB, is an argument.
pub mod Fresh
mod Tests
use lb_note.Base.{
  ℕ, ◌+◌, ◌-◌, ◌*◌, ◌≡◌, ◌≤◌, ◌<◌, ◌↔◌, refl, Option, none, some, Bool, true, false, not, ◌&&◌,
  if◌then◌else◌, ltb, max, arith,
}

abbrev pub Reading : Type 0
Reading = ℕ × ℕ

pub record Settings : Type 0 where
  pub monitor_enabled : Bool
  pub model_vram : ℕ
  pub context_vram : ℕ
  pub chunk_vram : ℕ
  pub tight_ratio : ℕ × ℕ
  pub ttl : ℕ

-- `_cache`.
pub record Cache : Type 0 where
  pub at : ℕ
  pub raw : Option Reading

-- `reset_cache`, also the cache at the start.
abbrev pub reset_cache : Cache
reset_cache = record { at = 0; raw = none }

-- `required_mb`.
unfoldable pub required_mb : Settings → ℕ → ℕ
required_mb s batch_size = s.model_vram + s.context_vram + s.chunk_vram * max 1 batch_size

abbrev pub cached : Settings → Bool → ℕ → ℕ → Option Reading → Option Reading
cached s force now at none = none
cached s force now at (some r) = if not force && ltb now (at + s.ttl) then some r else none

abbrev pub read : ℕ → Option Reading → Cache → Option Reading → Option Reading × Cache
read now answer c (some r) = (some r, c)
read now answer c none = (answer, record { at = now; raw = answer })

-- `_cached_raw`.
unfoldable pub cached_raw : Settings → Bool → ℕ → Option Reading → Cache → Option Reading × Cache
cached_raw s force now answer c = read now answer c (cached s force now c.at c.raw)

pub data Pressure : Type 0 where
  fine tight insufficient unknown : Pressure

pub record Snapshot : Type 0 where
  pub available : Bool
  pub pressure : Pressure
  pub free : ℕ
  pub total : ℕ
  pub used : ℕ
  pub required : ℕ

abbrev pub pressure_of : Settings → ℕ → ℕ → Pressure
pressure_of s free req =
    if ltb free req
    then insufficient
    else (if ltb (free * s.tight_ratio.1) (req * s.tight_ratio.0) then tight else fine)

abbrev pub describe : Settings → ℕ → Option Reading → Snapshot
describe s req none = record {
  available = false;
  pressure = unknown;
  free = 0;
  total = 0;
  used = 0;
  required = req;
}
describe s req (some (free, total)) = record {
  available = true;
  pressure = pressure_of s free req;
  free = free;
  total = total;
  used = total - free;
  required = req;
}

-- `snapshot`; where nothing can be read the fields of a reading are 0, for the keys that are missing.
unfoldable pub snapshot : Settings → ℕ → Bool → ℕ → Option Reading → Cache → Snapshot × Cache
unfolding required_mb cached_raw
snapshot s batch_size force now answer c =
    if s.monitor_enabled
    then (let (raw, c') = cached_raw s force now answer c in
        (describe s (required_mb s batch_size) raw, c'))
    else (describe s (required_mb s batch_size) none, c)

-- The two warnings, with the free and the required memory.
pub data Warning : Type 0 where
  lacking scarce : ℕ → ℕ → Warning

abbrev pub warning_of : Pressure → ℕ → ℕ → Option Warning
warning_of insufficient free req = some (lacking free req)
warning_of tight free req = some (scarce free req)
warning_of fine free req = none
warning_of unknown free req = none

-- `warning_text`.
unfoldable pub warning_text : Snapshot → Option Warning
warning_text snap = warning_of snap.pressure snap.free snap.required
