-- ===== src/Work/Tests.antt =====
-- A work that was refused, queued and cancelled, and the theorem at it.
use uni_event.Base.{true, none, some}
use uni_event.Work.{Work, create, queue, cancel}
use uni_event.Work.Answers.{Reach, created, queues, cancels}

abbrev stopped : Work
stopped = (cancel true (queue none (queue (some 12) create).0).0).0

stopped-Reach : Reach stopped
stopped-Reach = cancels true (queues none (queues (some 12) created))
