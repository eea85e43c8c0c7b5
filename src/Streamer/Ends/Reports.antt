-- ===== src/Streamer/Ends/Reports.antt =====
-- Which reports of writes a streamer hears of its output stream (src/panda/unievent/streamer/Stream.cc).
use uni_event.Base.{
  ℕ, ◌≡◌, refl, sym, ap, ◌∙◌, true, false, Option, some, List, [], ◌∷◌, ◌++◌, append_assoc,
  append-nil, ◌==◌, All, arith,
}
use uni_event.Streamer.Ends.{
  StreamOutput, output_create, output_start, output_write, is_first, on_write,
}

-- The requests of the streamer's writes, and the reports of the stream: a request with its error.
abbrev pub write_all : List ℕ → StreamOutput → StreamOutput
write_all [] o = o
write_all (r ∷ rs) o = write_all rs (output_write r o)

abbrev pub report_all : List (ℕ × Option ℕ) → StreamOutput → StreamOutput
report_all [] o = o
report_all (r ∷ rs) o = report_all rs (on_write r.1 r.0 o)

abbrev pub errors : List (ℕ × Option ℕ) → List (Option ℕ)
errors [] = []
errors (r ∷ rs) = r.1 ∷ errors rs

write-first : (rs : List ℕ) (o : StreamOutput) (r : ℕ) → o.first_wreq ≡ some r → write_all rs o ≡ o
unfolding output_write
write-first [] o r h = refl
write-first (q ∷ rs) o r h = ground (arith, write-first rs o r h)

on_write-other :
    (o : StreamOutput) (r q : ℕ) (e : Option ℕ)
    → o.first_wreq ≡ some r
    → o.handle_write_started ≡ false
    → (q == r) ≡ false
    → on_write e q o ≡ o
unfolding on_write is_first
on_write-other o r q e h k n = ground arith

on_write-heard :
    (o : StreamOutput) (q : ℕ) (e : Option ℕ)
    → o.handle_write_started ≡ true
    → on_write e q o ≡ record o { handle_write_started = true; given = o.given ++ e ∷ [] }
unfolding on_write
on_write-heard o q e k = ground arith

on_write-first :
    (o : StreamOutput) (r : ℕ) (e : Option ℕ)
    → o.first_wreq ≡ some r
    → on_write e r o ≡ record o { handle_write_started = true; given = o.given ++ e ∷ [] }
unfolding on_write is_first
on_write-first o r e k = ground arith

report-others :
    (qs : List (ℕ × Option ℕ)) (o : StreamOutput) (r : ℕ)
    → o.first_wreq ≡ some r
    → o.handle_write_started ≡ false
    → All (λ q. (q.0 == r) ≡ false) qs
    → report_all qs o ≡ o
report-others [] o r h k a = refl
report-others (q ∷ qs) o r h k a =
    ap (report_all qs) (on_write-other o r q.0 q.1 h k a.0) ∙ report-others qs o r h k a.1

report-heard :
    (qs : List (ℕ × Option ℕ)) (o : StreamOutput)
    → o.handle_write_started ≡ true
    → (report_all qs o).given ≡ o.given ++ errors qs
report-heard [] o k = sym (append-nil o.given)
report-heard (q ∷ qs) o k =
    let next : StreamOutput = record o {
      handle_write_started = true;
      given = o.given ++ q.1 ∷ [];
    } in
    ap (λ p. (report_all qs p).given) (on_write-heard o q.0 q.1 k)
    ∙ report-heard qs next refl
    ∙ append_assoc o.given (q.1 ∷ []) (errors qs)

report-append :
    (ps qs : List (ℕ × Option ℕ)) (o : StreamOutput)
    → report_all (ps ++ qs) o ≡ report_all qs (report_all ps o)
report-append [] qs o = refl
report-append (p ∷ ps) qs o = report-append ps qs (on_write p.1 p.0 o)

-- The output after the streamer's first write.
abbrev waiting : Option ℕ → ℕ → ℕ → StreamOutput
waiting listener self r = record {
  listener = some self;
  prev_lst = listener;
  first_wreq = some r;
  handle_write_started = false;
  given = [];
}

write-waiting :
    (listener : Option ℕ) (self r : ℕ) (rs : List ℕ)
    → write_all (r ∷ rs) (output_start self (output_create listener)) ≡ waiting listener self r
unfolding output_write output_start output_create
write-waiting listener self r rs = write-first rs (waiting listener self r) r refl

-- The reports of requests made before the streamer's first write are not passed on to it, however many
-- there are; all those from the report of that write on are, with their errors and in order.
report-write :
    (listener : Option ℕ) (self r : ℕ) (rs : List ℕ) (e : Option ℕ) (ps qs : List (ℕ × Option ℕ))
    → All (λ p. (p.0 == r) ≡ false) ps
    → (report_all
        (ps ++ (r, e) ∷ qs)
        (write_all (r ∷ rs) (output_start self (output_create listener)))).given
      ≡ e ∷ errors qs
report-write listener self r rs e ps qs a =
    let o : StreamOutput = waiting listener self r in
    let next : StreamOutput = record o { handle_write_started = true; given = e ∷ [] } in
    ap (λ p. (report_all (ps ++ (r, e) ∷ qs) p).given) (write-waiting listener self r rs)
    ∙ ap (λ p. p.given) (report-append ps ((r, e) ∷ qs) o)
    ∙ ap (λ p. (report_all ((r, e) ∷ qs) p).given) (report-others ps o r refl refl a)
    ∙ ap (λ p. (report_all qs p).given) (on_write-first o r e refl)
    ∙ report-heard qs next refl
