-- ===== src/Stream/Tests.antt =====
-- Streams at concrete flags, and the theorems about them.
use uni_event.Base.{true, none}
use uni_event.Stream.{Stream, create}
use uni_event.Stream.Reading
use uni_event.Stream.Reading.{
  Reach, IsReading, Reach-IsReading, connect-reset, connected, stops, step,
}

-- A stream that connects, and whose user then stops it from reading.
stopped : Stream
unfolding step create
stopped = step stops (step (connected true none) create)

stopped-Reach : Reach stopped
unfolding stopped
stopped-Reach = Reading.next stops tt (Reading.next (connected true none) tt Reading.fresh)

Reach-IsReading_example : IsReading stopped
Reach-IsReading_example = Reach-IsReading stopped-Reach

connected_stream : Stream
unfolding step create
connected_stream = step (connected true none) create
