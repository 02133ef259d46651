-- ===== src/Telemetry/Collector/Conservation.antt =====
-- What becomes of the records between the engine and the storage, whatever the storage does.
use multie_layer_kache.Prelude.{
  ◌+◌, String, ◌≡◌, ◌∙◌, refl, sym, ap, subst, true, none, List, [], ◌∷◌, ◌++◌, arith, leb, length,
  length-append, inl, inr, ◌⊎◌, either_branch, if_true,
}
use mathlib.Core.List.{append_assoc, append-nil}
use multie_layer_kache.Prelude.Floats.{Double}
use multie_layer_kache.Telemetry.Schema.{
  BlockState, BlockDecision, TelemetryRecord, RequestMetrics, from_block_state,
}
use multie_layer_kache.Telemetry.Collector.{
  WriteEnd, wrote, write_failed, Storage, Collector, EventContext, flush_batch, flush_locked,
  buffer_record, record_block_event, record_request_completion, metric, score_of,
}

-- A write that returns has put the batch behind what was stored, and one that raises has left it.
record IsAppending {W S : Type 0} (st : Storage W S) : Type 0 where
  stored : S → List (TelemetryRecord W)
  appends :
      (batch : List (TelemetryRecord W)) (s s' : S)
      → st.write_batch batch s ≡ wrote s'
      → stored s' ≡ stored s ++ batch
  keeps :
      (batch : List (TelemetryRecord W)) (s s' : S)
      → st.write_batch batch s ≡ write_failed s'
      → stored s' ≡ stored s

-- A storage with a log of the records that it was given by the writes that returned.
module _ {W S : Type 0} where
  abbrev logged :
      List (TelemetryRecord W)
      → List (TelemetryRecord W)
      → WriteEnd S
      → WriteEnd (S × List (TelemetryRecord W))
  logged batch log (wrote s) = wrote (s, log ++ batch)
  logged batch log (write_failed s) = write_failed (s, log)

  abbrev pub recording : Storage W S → Storage W (S × List (TelemetryRecord W))
  recording st = record { write_batch = λ batch s. logged batch s.1 (st.write_batch batch s.0) }

  logged-appends :
      (batch log : List (TelemetryRecord W)) (o : WriteEnd S) (s' : S × List (TelemetryRecord W))
      → logged batch log o ≡ wrote s'
      → s'.1 ≡ log ++ batch
  logged-appends batch log (wrote s) s' h = sym (ground (arith, h))
  logged-appends batch log (write_failed s) s' h = absurd (ground (arith, h))

  logged-keeps :
      (batch log : List (TelemetryRecord W)) (o : WriteEnd S) (s' : S × List (TelemetryRecord W))
      → logged batch log o ≡ write_failed s'
      → s'.1 ≡ log
  logged-keeps batch log (wrote s) s' h = absurd (ground (arith, h))
  logged-keeps batch log (write_failed s) s' h = sym (ground (arith, h))

  abbrev recording-IsAppending : (st : Storage W S) → IsAppending (recording st)
  recording-IsAppending st = record {
    stored = λ s. s.1;
    appends = λ batch s s' h. logged-appends batch s.1 (st.write_batch batch s.0) s' h;
    keeps = λ batch s s' h. logged-keeps batch s.1 (st.write_batch batch s.0) s' h;
  }

write_cases :
    {S : Type 0} (o : WriteEnd S) → ((s : S) × (o ≡ write_failed s)) ⊎ ((s : S) × (o ≡ wrote s))
write_cases (write_failed s) = inl (s, refl)
write_cases (wrote s) = inr (s, refl)

-- The calls that reach a collector, each with the time it reads; the flush thread and `stop` flush.
pub data Event (W : Type 0) : Type 0 where
  block : W → BlockState W → BlockDecision → EventContext W → Event W
  completion : RequestMetrics W → Event W
  flush : Event W

module _ {W S : Type 0} ⦃d : Double W⦄ (st : Storage W S) where
  unfoldable pub handle : Collector W S → Event W → Collector W S
  unfolding record_block_event record_request_completion flush_locked
  handle c (block now b decision x) = record_block_event st now c b decision x
  handle c (completion m) = record_request_completion c m
  handle c flush = flush_locked st c

  unfoldable pub handle_all : Collector W S → List (Event W) → Collector W S
  unfolding handle
  handle_all c [] = c
  handle_all c (e ∷ es) = handle_all (handle c e) es

module _ {W : Type 0} ⦃d : Double W⦄ where
  -- the row that a block event stands for
  abbrev pub row : String → W → BlockState W → BlockDecision → EventContext W → TelemetryRecord W
  row model_name now b decision x = from_block_state now b decision (record {
    model_name = model_name;
    workload_type = x.workload_type;
    prompt_tokens = x.prompt_tokens;
    generated_tokens = x.generated_tokens;
    context_length = x.context_length;
    queue_depth = x.queue_depth;
    cpu_mem_used_mb = x.cpu_mem_used_mb;
    latency_ms = metric (λ m. RequestMetrics.latency_ms m) x.request_metrics;
    ttft_ms = metric (λ m. RequestMetrics.ttft_ms m) x.request_metrics;
    tpot_ms = metric (λ m. RequestMetrics.tpot_ms m) x.request_metrics;
    task_score = score_of x.request_metrics;
    timestamp = none;
  })

  abbrev pub rows : String → List (Event W) → List (TelemetryRecord W)
  rows model_name [] = []
  rows model_name (block now b decision x ∷ es) =
      row model_name now b decision x ∷ rows model_name es
  rows model_name (completion m ∷ es) = rows model_name es
  rows model_name (flush ∷ es) = rows model_name es

  rows-cons :
      (n : String) (e : Event W) (es : List (Event W))
      → rows n (e ∷ es) ≡ rows n (e ∷ []) ++ rows n es
  rows-cons n (block now b decision x) es = refl
  rows-cons n (completion m) es = refl
  rows-cons n flush es = refl

module _ {W S : Type 0} ⦃d : Double W⦄ (st : Storage W S) (a : IsAppending st) where
  -- what was stored, and what waits in the buffer
  abbrev collected : Collector W S → List (TelemetryRecord W)
  collected c = a.stored c.storage ++ c.buffer

  -- The step from `c` to `c'` has collected the records `rs`, and nothing else has changed that
  -- decides what is collected next.
  record Adds (c c' : Collector W S) (rs : List (TelemetryRecord W)) : Type 0 where
    all : collected c' ≡ collected c ++ rs
    total : c'.total_records ≡ c.total_records + length rs
    enabled : c'.enabled ≡ c.enabled
    model_name : c'.model_name ≡ c.model_name

  Adds-none : (c : Collector W S) → Adds c c []
  Adds-none c = record {
    all = sym (append-nil (collected c));
    total = omega arith;
    enabled = refl;
    model_name = refl;
  }

  Adds-trans :
      {c c' c'' : Collector W S} {rs ss : List (TelemetryRecord W)}
      → Adds c c' rs
      → Adds c' c'' ss
      → Adds c c'' (rs ++ ss)
  Adds-trans {c} {c'} {c''} {rs} {ss} h k = record {
    all = k.all ∙ ap (λ l. l ++ ss) h.all ∙ append_assoc (collected c) rs ss;
    total = omega (arith, h.total, k.total, length-append rs ss);
    enabled = k.enabled ∙ h.enabled;
    model_name = k.model_name ∙ h.model_name;
  }

  flush_batch-Adds :
      (batch : List (TelemetryRecord W)) (c : Collector W S)
      → c.buffer ≡ batch
      → Adds c (flush_batch st batch c) []
  unfolding flush_batch
  flush_batch-Adds [] c h = Adds-none c
  flush_batch-Adds (r ∷ rs) c h = elim (write_cases (st.write_batch (r ∷ rs) c.storage)) [
    | inl (s', raised) ↦ rw raised (record {
      all =
          ap (λ l. l ++ c.buffer) (a.keeps (r ∷ rs) c.storage s' raised)
          ∙ sym (append-nil (collected c));
      total = omega arith;
      enabled = refl;
      model_name = refl;
    })
    | inr (s', returned) ↦ rw returned (record {
      all =
          append-nil (a.stored s')
          ∙ a.appends (r ∷ rs) c.storage s' returned
          ∙ ap (λ l. a.stored c.storage ++ l) (sym h)
          ∙ sym (append-nil (collected c));
      total = omega arith;
      enabled = refl;
      model_name = refl;
    })
  ]

  flush_locked-Adds : (c : Collector W S) → Adds c (flush_locked st c) []
  unfolding flush_locked
  flush_locked-Adds c = flush_batch-Adds c.buffer c refl

  buffer_record-Adds :
      (c : Collector W S) (r : TelemetryRecord W) → Adds c (buffer_record st c r) (r ∷ [])
  unfolding buffer_record
  buffer_record-Adds c r =
      let c' = record c { buffer = c.buffer ++ r ∷ []; total_records = c.total_records + 1 } in
      let grown : Adds c c' (r ∷ []) = record {
        all = sym (append_assoc (a.stored c.storage) c.buffer (r ∷ []));
        total = omega arith;
        enabled = refl;
        model_name = refl;
      } in
      either_branch (λ z. Adds c z (r ∷ [])) (leb c'.max_buffer_size (length c'.buffer)) _ _
        (Adds-trans grown (flush_locked-Adds c')) grown

  handle-Adds :
      (c : Collector W S) (e : Event W)
      → c.enabled ≡ true
      → Adds c (handle st c e) (rows c.model_name (e ∷ []))
  unfolding handle
  handle-Adds c (block now b decision x) on =
      subst (λ z. Adds c z (row c.model_name now b decision x ∷ []))
        (sym (if_true c.enabled _ c on)) (buffer_record-Adds c (row c.model_name now b decision x))
  handle-Adds c (completion m) on =
      subst (λ z. Adds c z []) (sym (if_true c.enabled _ c on))
        (record {
          all = sym (append-nil (collected c));
          total = omega arith;
          enabled = refl;
          model_name = refl;
        })
  handle-Adds c flush on = flush_locked-Adds c

  handle_all-Adds :
      (c : Collector W S) (es : List (Event W))
      → c.enabled ≡ true
      → Adds c (handle_all st c es) (rows c.model_name es)
  unfolding handle_all
  handle_all-Adds c [] on = Adds-none c
  handle_all-Adds c (e ∷ es) on =
      let first = handle-Adds c e on in
      let rest = handle_all-Adds (handle st c e) es (first.enabled ∙ on) in
      let renamed =
        subst (λ n. Adds (handle st c e) (handle_all st (handle st c e) es) (rows n es))
          first.model_name rest in
      subst (λ l. Adds c (handle_all st (handle st c e) es) l) (sym (rows-cons c.model_name e es))
        (Adds-trans first renamed)

module _ {W S : Type 0} ⦃d : Double W⦄ (st : Storage W S) where
  -- For an enabled collector over any storage, with a log of the batches whose write returned: after any
  -- calls and flushes the log followed by what waits in the buffer is what they were, followed by one
  -- record for each block event, in order; and the record counter has grown by the number of these. So
  -- a batch whose write raises is in the buffer again, whatever the storage has done with it.
  pub handle_all_conserves :
      (c : Collector W (S × List (TelemetryRecord W))) (es : List (Event W))
      → c.enabled ≡ true
      → let c' = handle_all (recording st) c es in
        (c'.storage.1 ++ c'.buffer ≡ (c.storage.1 ++ c.buffer) ++ rows c.model_name es)
        × (c'.total_records ≡ c.total_records + length (rows c.model_name es))
  handle_all_conserves c es on =
      let sum = handle_all-Adds (recording st) (recording-IsAppending st) c es on in
      (sum.all, sum.total)
