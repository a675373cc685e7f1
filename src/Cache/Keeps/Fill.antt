-- ===== src/Cache/Keeps/Fill.antt =====
-- `handle_fill` returns, and keeps what holds of a cache.
use proba_artifact.Prelude.{
  ℕ, ◌≡◌, inl, inr, refl, sym, subst, Bool, true, false, Option, some, if◌then◌else◌,
  get_elem?_of_lt, length-set, All-set, All-take, All-drop, All-get_elem?, Bool-cases, ◌∙◌, ap,
}
use proba_artifact.CacheQueues.Packet.{Packet}
use proba_artifact.Cache.State.{
  CacheBlock, CacheState, MemoryBelow, Modules, get_set_index, get_set_span, write_way, align,
}
use proba_artifact.Cache.Addressed.{
  HasAddress, Prefetched-QueuesAddressed, Prefetches, AnswersAddressed,
}
use proba_artifact.Cache.Shape.{IsShape, FindsVictim, chosen-lt}
use proba_artifact.Cache.Fill.{
  handle_fill, fill_at, fill_way, ask_write_back, writeback, replace_block, notify_fill, count_fill,
  fill_metadata, fill_block, finish_fill, is_prefetch,
}
use proba_artifact.Cache.Filled.{chosen, is_dirty}
use proba_artifact.Cache.Keeps.{BlockAddressed, IsReady, Returns}

valid-of_dirty : (b : CacheBlock) → is_dirty b ≡ true → b.valid ≡ true
valid-of_dirty b h = elim (Bool-cases b.valid) [ inl e ↦ e | inr e ↦ absurd (cc (rw e at h)) ]

module _ (ways : ℕ) (below : MemoryBelow) (modules : Modules) (policy : FindsVictim ways modules)
    (prefetcher : Prefetches modules) (answers : AnswersAddressed below) (pkt : Packet)
    (v : HasAddress pkt) where
  notify_fill-Returns :
      (way paddress evicted metadata : ℕ) (c : CacheState below.State modules.State)
      → IsReady ways c
      → Returns ways (notify_fill modules pkt way paddress evicted metadata c)
  unfolding notify_fill get_set_index align
  notify_fill-Returns way paddress evicted metadata c g =
      let (r, runs, asked) =
        prefetcher.cache_fill (align c (if c.virtual_prefetch then pkt.v_address else pkt.address))
          (get_set_index c pkt.address) way (is_prefetch pkt) paddress metadata
          (c.modules, c.queues, c.events) in
      let updated =
        modules.update_replacement_state pkt.cpu (get_set_index c pkt.address) way pkt.address
          pkt.ip evicted pkt.type false r.1 in
      (
        (r.0, record c { modules = updated; queues = r.2; events = r.3 }),
        rw runs refl,
        record {
          shaped = g.shaped;
          queues = Prefetched-QueuesAddressed asked g.queues;
          mshr = g.mshr;
          inflight_writes = g.inflight_writes;
          block = g.block;
        },
      )

  replace_block-Returns :
      (way : ℕ) (old : CacheBlock) (c : CacheState below.State modules.State)
      → IsReady ways c
      → (c' : CacheState below.State modules.State) × (replace_block modules pkt way old c
          ≡ some c')
        × IsReady ways c'
  unfolding replace_block count_fill write_way finish_fill fill_block
  replace_block-Returns way old c g =
      let (r, runs, ready) =
        notify_fill-Returns way (align c old.address)
          (align c (if c.ever_seen_data then old.address else old.v_address))
          (fill_metadata pkt old) (count_fill pkt old c)
          (record {
            shaped = g.shaped;
            queues = g.queues;
            mshr = g.mshr;
            inflight_writes = g.inflight_writes;
            block = g.block;
          }) in
      let block = fill_block pkt r.0 in
      (
        finish_fill pkt block.pf_metadata (write_way pkt.address way block r.1),
        rw runs refl,
        record {
          shaped =
              subst (λ (n : ℕ). IsShape ways (r.1.num_set, r.1.num_way, n))
                (sym (length-set r.1.block _ _)) ready.shaped;
          queues = ready.queues;
          mshr = ready.mshr;
          inflight_writes = ready.inflight_writes;
          block = All-set BlockAddressed r.1.block _ _ ready.block (λ _. v);
        },
      )

  ask_write_back-answers :
      (old : CacheBlock) (lower : below.State)
      → BlockAddressed old
      → (r : Bool × below.State) × (ask_write_back below pkt old lower ≡ some r)
  ask_write_back-answers old lower a = elim (Bool-cases (is_dirty old)) [
    | inl e ↦ rw e (answers.add_wq (writeback pkt old) lower (a (valid-of_dirty old e)))
    | inr e ↦ rw e ((true, lower), refl)
  ]

  fill_way-Returns :
      (way : ℕ) (old : CacheBlock) (c : CacheState below.State modules.State)
      → BlockAddressed old
      → IsReady ways c
      → Returns ways (fill_way below modules pkt way old c)
  unfolding fill_way
  fill_way-Returns way old c a g =
      let (asked, wrote) = ask_write_back-answers old c.lower a in
      let written = record c { lower = asked.1 } in
      let ready : IsReady ways written = record {
        shaped = g.shaped;
        queues = g.queues;
        mshr = g.mshr;
        inflight_writes = g.inflight_writes;
        block = g.block;
      } in
      elim (Bool-cases asked.0) [
        | inl e ↦
            let (c', runs, kept) = replace_block-Returns way old written ready in
            ((true, c'), rw (wrote, e, runs) refl, kept)
        | inr e ↦ ((false, written), rw (wrote, e) refl, ready)
      ]

  pub handle_fill-Returns :
      (c : CacheState below.State modules.State)
      → IsReady ways c
      → Returns ways (handle_fill below modules pkt c)
  unfolding handle_fill fill_at get_set_span get_set_index
  handle_fill-Returns c g =
      let way = chosen below modules pkt c in
      let span = get_set_span c pkt.address in
      let (old, there) =
        get_elem?_of_lt span way.0 (chosen-lt below modules ways policy pkt c g.shaped) in
      let entered = record c { cpu = pkt.cpu; modules = way.1 } in
      let in_block =
        All-get_elem? BlockAddressed span way.0
          (All-take BlockAddressed c.num_way _ (All-drop BlockAddressed _ c.block g.block)) there in
      let (r, runs, kept) = fill_way-Returns way.0 old entered in_block (record {
        shaped = g.shaped;
        queues = g.queues;
        mshr = g.mshr;
        inflight_writes = g.inflight_writes;
        block = g.block;
      }) in
      (
        r,
        ap (λ (o : Option CacheBlock). fill_at below modules pkt way.0 o entered) there ∙ runs,
        kept,
      )
