-- ===== src/StreamFilter.antt =====
-- The way of a request through the filters of a stream, src/panda/unievent/StreamFilter.h, StreamFilter.cc,
-- Stream.cc and Request.h. Write, shutdown and connect requests go the same way.
pub mod Mirror
mod Tests
use uni_event.Base.{ℕ, suc, Bool, true, false, List, [], ◌∷◌, ◌++◌}

-- What a filter does with a request that it is given: it passes it on (`StreamFilter::write`), gives the next
-- filter a request of its own with this one as the parent (`subreq_write`), or keeps it for now.
pub data Act : Type 0 where
  passes wraps holds : Act

-- A request under way with its subrequests: their numbers, the innermost first. `last_filter` is that of the
-- innermost one, as the filter with those in front of it; none is the empty list. `fresh` is the
-- next number, `seen` the filters that were given a request, and `finalized` tells whether one has reached
-- the stream's end of the chain.
pub record Underway : Type 0 where
  pub requests : List ℕ
  pub last_filter : List ℕ
  pub fresh : ℕ
  pub seen : List ℕ
  pub finalized : Bool

-- Before the `exec` of a request.
pub create : ℕ → Underway
create r = record {
  requests = r ∷ [];
  last_filter = [];
  fresh = suc r;
  seen = [];
  finalized = false;
}

-- `subreq_write` up to the call of the next filter.
pub subrequest : Underway → Underway
subrequest u = record u { requests = u.fresh ∷ u.requests; fresh = suc u.fresh }

-- `write` of the filters from one on, `front` being those in front of it, the nearest first.
pub write : (ℕ → Act) → List ℕ → List ℕ → Underway → Underway
unfolding subrequest
write act front [] u = record u { finalized = true }
write act front (f ∷ fs) u =
    let v = record u { last_filter = f ∷ front; seen = u.seen ++ f ∷ [] } in
    elim (act f) [
      | passes ↦ write act (f ∷ front) fs v
      | wraps ↦ write act (f ∷ front) fs (subrequest v)
      | holds ↦ v
    ]

-- `WriteRequest::exec` on a stream that is connected for writing.
pub exec : (ℕ → Act) → List ℕ → ℕ → Underway
unfolding write create
exec act chain r = write act [] chain (create r)

-- The filters that are told of the end of a request, and the requests that are left when the stream is
-- told.
pub record Told : Type 0 where
  pub filters : List ℕ
  pub requests : List ℕ

-- `subreq_done` of the innermost request.
pub subreq_done : List ℕ → List ℕ
subreq_done [] = []
subreq_done (r ∷ rs) = rs

-- What a filter does to the requests when it is told: one that has made a subrequest takes it away, and
-- goes on with its parent.
pub handled : Act → List ℕ → List ℕ
unfolding subreq_done
handled passes rs = rs
handled wraps rs = subreq_done rs
handled holds rs = rs

-- `handle_write` of a filter and of those in front of it.
pub handle_write : (ℕ → Act) → List ℕ → List ℕ → Told
unfolding handled
handle_write act [] rs = record { filters = []; requests = rs }
handle_write act (f ∷ front) rs =
    let rest = handle_write act front (handled (act f) rs) in
    record { filters = f ∷ rest.filters; requests = rest.requests }

-- `Request::cancel`, which goes to the innermost request, and the backend's answer to it.
pub handle_event : (ℕ → Act) → Underway → Told
unfolding handle_write
handle_event act u = handle_write act u.last_filter u.requests
