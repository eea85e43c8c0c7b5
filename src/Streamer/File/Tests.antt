-- ===== src/Streamer/File/Tests.antt =====
-- Runs of the file ends, and the theorems about them.
use uni_event.Base.{ℕ, refl, none, List, [], ◌∷◌, inl}
use uni_event.Streamer.File.{
  carries_on, FileOutput, FileInput, output_create, output_start, output_write, output_opened,
  input_start, input_opened, input_read,
}
use uni_event.Streamer.File.Writes
use uni_event.Streamer.File.Writes.{IsOrdered, Reach-IsOrdered}
use uni_event.Streamer.File.Reads
use uni_event.Streamer.File.Reads.{created, IsLive, Reach-IsLive}

abbrev hello : List ℕ
hello = 104 ∷ 105 ∷ []

abbrev bye : List ℕ
bye = 98 ∷ []

two_given : FileOutput
unfolding output_start output_create output_write output_opened
two_given =
    output_opened none carries_on
      (output_write bye (output_write hello (output_start output_create)))

two_given-Reach : Writes.Reach two_given
unfolding two_given
two_given-Reach = Writes.opens refl (Writes.gives bye (Writes.gives hello Writes.created))

Reach-IsOrdered_example : IsOrdered two_given
Reach-IsOrdered_example = Reach-IsOrdered two_given-Reach

first_chunk : FileInput
unfolding input_start input_opened input_read
first_chunk =
    input_read none 4 carries_on carries_on (input_opened none carries_on (input_start (created 4)))

Reach-IsLive_example : IsLive first_chunk
unfolding first_chunk
Reach-IsLive_example = Reach-IsLive 4 (
    Reads.reads 4 carries_on carries_on refl refl (inl refl) (inl refl)
      (Reads.opens refl Reads.starts))
