-- ===== src/BackendHandle/Tests.antt =====
-- A weak handle, and the theorems at it.
use uni_event.Base.{true, some}
use uni_event.BackendHandle.{BackendHandle, create, get_impl, set_weak, reset}
use uni_event.BackendHandle.Weakness.{Reach, created, uses, weakens, resets}

abbrev again : BackendHandle
again = get_impl (reset (set_weak true create))

again-Reach : Reach again
again-Reach = uses (resets (weakens true created))

abbrev weak_one : BackendHandle
weak_one = record { impl = some true; weak = true }
