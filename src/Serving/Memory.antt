-- ===== src/Serving/Memory.antt =====
-- src/serving/vllm_engine.py: the GPU memory that the engine reports.
use multie_layer_kache.Prelude.{Option, none, some, if◌then◌else◌}
use multie_layer_kache.Prelude.Floats.{Double, nought}

pub record GpuMemory (W : Type 0) : Type 0 where
  pub gpu_mem_used_mb : W
  pub gpu_mem_free_mb : W
  pub gpu_mem_total_mb : W
  pub gpu_mem_pressure : W

module _ {W : Type 0} ⦃d : Double W⦄ where
  -- bytes in MB: `/ 1024**2`
  abbrev in_mb : W × W → W × W
  in_mb (used, free) = (d.div used (d.of_int 1_048_576), d.div free (d.of_int 1_048_576))

  -- the bytes that pynvml and psutil report, if they are there and do not raise
  unfoldable pub get_gpu_memory_mb : Option (W × W) → Option (W × W) → W × W
  get_gpu_memory_mb (some info) vm = in_mb info
  get_gpu_memory_mb none (some vm) = in_mb vm
  get_gpu_memory_mb none none = (nought, nought)

  unfoldable pub get_gpu_memory_stats : Option (W × W) → Option (W × W) → GpuMemory W
  unfolding get_gpu_memory_mb
  get_gpu_memory_stats info vm =
      let used = (get_gpu_memory_mb info vm).0 in
      let free = (get_gpu_memory_mb info vm).1 in
      let total = d.add used free in
      record {
        gpu_mem_used_mb = used;
        gpu_mem_free_mb = free;
        gpu_mem_total_mb = total;
        gpu_mem_pressure = if d.lt nought total then d.div used total else nought;
      }
