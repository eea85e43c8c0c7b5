-- ===== src/StreamFilter/Tests.antt =====
-- A request on a chain of three filters, and the theorem about it.
use uni_event.Base.{ℕ, ◌≡◌, [], ◌∷◌, if◌then◌else◌, ◌==◌}
use uni_event.StreamFilter.{Act, passes, wraps, exec, handle_event}
use uni_event.StreamFilter.Mirror.{backwards, handle-exec}

-- The second filter makes a subrequest.
abbrev middle : ℕ → Act
middle f = if f == 2 then wraps else passes

handle-exec_example :
    let u = exec middle (1 ∷ 2 ∷ 3 ∷ []) 10 in
    ((handle_event middle u).filters ≡ backwards u.seen)
    × ((handle_event middle u).requests ≡ 10 ∷ [])
handle-exec_example = handle-exec middle (1 ∷ 2 ∷ 3 ∷ []) 10
