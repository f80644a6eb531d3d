-- ===== src/Web/GpuStatus/Tests.antt =====
-- A run of src/web/gpu_status.py, and its theorem at a concrete input.
use lb_note.Base.{◌+◌, ◌≡◌, ◌≤◌, ◌<◌, refl, none, some, true, false}
use lb_note.Web.GpuStatus.{Settings, Cache, cached_raw, required_mb, snapshot, tight}
use lb_note.Web.GpuStatus.Fresh.{cached_raw_ttl}

abbrev settings : Settings
settings = record {
  monitor_enabled = true;
  model_vram = 4000;
  context_vram = 1500;
  chunk_vram = 100;
  tight_ratio = (3, 2);
  ttl = 5000;
}

abbrev empty : Cache
empty = record { at = 0; raw = none }

tight_run : (snapshot settings 16 false 10 (some (9000, 96000)) empty).0.pressure ≡ tight
unfolding snapshot required_mb cached_raw
tight_run = refl

cached_raw_ttl_example :
    (4000 < 1000 + 5000
      → cached_raw settings false 4000 none
          (cached_raw settings true 1000 (some (9000, 96000)) empty).1
        ≡ (some (9000, 96000), record { at = 1000; raw = some (9000, 96000) }))
    × (1000 + 5000 ≤ 4000
        → cached_raw settings false 4000 none
            (cached_raw settings true 1000 (some (9000, 96000)) empty).1
          ≡ (none, record { at = 4000; raw = none }))
cached_raw_ttl_example = cached_raw_ttl settings 1000 4000 (9000, 96000) none empty
