-- ===== src/SslBio/Tests.antt =====
-- A buffer with two lines, and the theorems at it.
use uni_event.Base.{◌≡◌, true, false, List, [], ◌∷◌, arith}
use uni_event.SslBio.{Bio, bio_gets, line_length}
use uni_event.SslBio.Transfer.{Op, writes, reads, gets}
use uni_event.SslBio.Lines.{copied, line, bio_gets-line}

abbrev ops : List Op
ops =
    writes true (65 ∷ 10 ∷ [])
    ∷ reads 1
    ∷ writes false (66 ∷ 67 ∷ 10 ∷ 68 ∷ [])
    ∷ gets 9
    ∷ gets 9
    ∷ []

abbrev lines : Bio
lines = record { buf = 65 ∷ 10 ∷ 66 ∷ []; shutdown = 1; retry = true }

bio_gets-line_example : bio_gets 9 lines ≡ copied (65 ∷ 10 ∷ []) (66 ∷ []) lines
unfolding line line_length
bio_gets-line_example = bio_gets-line 9 lines (omega arith) (omega arith) (omega arith)
