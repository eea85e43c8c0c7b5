-- ===== src/Udp/Tests.antt =====
-- Handles that send, and the theorems about the size of the queue at them.
use uni_event.Base.{[], ◌∷◌}
use uni_event.Udp.{Udp, create, send, handle_event, reset}
use uni_event.Udp.Sizes.{Counts, Reach, created, sends, finishes, resets, Reach-Counts}

abbrev busy : Udp
busy = reset (handle_event (send (4 ∷ []) (send (1 ∷ 2 ∷ []) (send (3 ∷ []) create))))

busy-Reach : Reach busy
busy-Reach = resets (finishes (sends (4 ∷ []) (sends (1 ∷ 2 ∷ []) (sends (3 ∷ []) created))))

Reach-Counts_example : Counts busy
Reach-Counts_example = Reach-Counts busy-Reach
