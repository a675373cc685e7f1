-- ===== src/Cache/Keeps/Hit.antt =====
-- `try_hit` returns, and keeps what holds of a cache.
use proba_artifact.Prelude.{
  ℕ, ◌≡◌, inl, inr, refl, sym, subst, Option, none, some, if◌then◌else◌, length-set, All-set,
  All-take, All-drop, Bool-cases,
}
use proba_artifact.CacheQueues.Packet.{Packet}
use proba_artifact.Cache.State.{
  CacheBlock, CacheState, Modules, find_way, get_set_span, write_way, holds_block,
  should_activate_prefetcher, align,
}
use proba_artifact.Cache.Hit.{
  is_some, hits_prefetch, operate_prefetcher, try_hit, hit_found, hit_way, hit_block, count_hit,
}
use proba_artifact.Cache.Addressed.{Prefetched-QueuesAddressed, Prefetches}
use proba_artifact.Cache.Shape.{IsShape, find_way-All}
use proba_artifact.Cache.Keeps.{BlockAddressed, IsReady, Returns}

module _ (ways : ℕ) {L : Type 0} (modules : Modules) (prefetcher : Prefetches modules)
    (pkt : Packet) where
  operate_prefetcher-Returns :
      (found : Option (ℕ × CacheBlock)) (c : CacheState L modules.State)
      → IsReady ways c
      → (r : ℕ × CacheState L modules.State) × (operate_prefetcher modules pkt found c ≡ some r)
        × IsReady ways r.1
        × (r.1.block ≡ c.block)
  unfolding operate_prefetcher
  operate_prefetcher-Returns found c g = elim (Bool-cases (should_activate_prefetcher c pkt)) [
    | inl e ↦
        let (r, runs, asked) =
          prefetcher.cache_operate
            (align c (if c.virtual_prefetch then pkt.v_address else pkt.address)) pkt.ip
            (is_some found) (hits_prefetch pkt found) pkt.type pkt.pf_metadata
            (c.modules, c.queues, c.events) in
        (
          (r.0, record c { modules = r.1; queues = r.2; events = r.3 }),
          rw (e, runs) refl,
          record {
            shaped = g.shaped;
            queues = Prefetched-QueuesAddressed asked g.queues;
            mshr = g.mshr;
            inflight_writes = g.inflight_writes;
            block = g.block;
          },
          refl,
        )
    | inr e ↦ ((pkt.pf_metadata, c), rw e refl, g, refl)
  ]

  hit_found-IsReady :
      (metadata : ℕ) (o : Option (ℕ × CacheBlock)) (c : CacheState L modules.State)
      → ((w : ℕ × CacheBlock) → o ≡ some w → BlockAddressed w.1)
      → IsReady ways c
      → IsReady ways (hit_found modules pkt metadata o c).1
  unfolding hit_found hit_way write_way count_hit hit_block
  hit_found-IsReady metadata none c a g = g
  hit_found-IsReady metadata (some w) c a g = record {
    shaped =
        subst (λ (n : ℕ). IsShape ways (c.num_set, c.num_way, n)) (sym (length-set c.block _ _))
          g.shaped;
    queues = g.queues;
    mshr = g.mshr;
    inflight_writes = g.inflight_writes;
    block = All-set BlockAddressed c.block _ _ g.block (a w refl);
  }

  pub try_hit-Returns :
      (c : CacheState L modules.State) → IsReady ways c → Returns ways (try_hit modules pkt c)
  unfolding try_hit get_set_span
  try_hit-Returns c g =
      let start = record c { cpu = pkt.cpu } in
      let span = get_set_span start pkt.address in
      let found = find_way (holds_block pkt.address c.offset_bits) span in
      let (r, runs, ready, same) = operate_prefetcher-Returns found start (record {
        shaped = g.shaped;
        queues = g.queues;
        mshr = g.mshr;
        inflight_writes = g.inflight_writes;
        block = g.block;
      }) in
      (
        hit_found modules pkt r.0 found r.1,
        rw runs refl,
        hit_found-IsReady r.0 found r.1
            (λ w h.
              find_way-All BlockAddressed (holds_block pkt.address c.offset_bits) span
                (All-take BlockAddressed c.num_way _ (All-drop BlockAddressed _ c.block g.block)) h)
            ready,
      )
