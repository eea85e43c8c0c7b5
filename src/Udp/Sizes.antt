-- ===== src/Udp/Sizes.antt =====
-- What `send_queue_size` counts (src/panda/unievent/Udp.cc).
use uni_event.Base.{
  ℕ, ◌+◌, ◌%◌, ◌<◌, ◌≡◌, refl, ◌∙◌, ap, Option, none, some, List, [], ◌∷◌, ◌++◌, arith,
}
use uni_event.Stream.{bytes, word, add_sizes}
use uni_event.Stream.Writes.{add_sizes_lem, sub_sizes_lem}
use uni_event.Udp.{Udp, create, send_exec, push, send, resume, handle_event, reset}

abbrev pub total : List (List ℕ) → ℕ
total [] = 0
total (r ∷ rs) = bytes r + total rs

total-append : (xs ys : List (List ℕ)) → total (xs ++ ys) ≡ total xs + total ys
total-append [] ys = omega arith
total-append (x ∷ xs) ys = omega (arith, total-append xs ys)

pub data Reach : Udp → Type 0 where
  created : Reach create
  sends : {u : Udp} (r : List ℕ) → Reach u → Reach (send r u)
  finishes : {u : Udp} → Reach u → Reach (handle_event u)
  resets : {u : Udp} → Reach u → Reach (reset u)

abbrev pub Counts : Udp → Type 0
Counts u = u.sq_size ≡ (total u.waiting + total u.unsent) % word

push-Counts :
    (q : Option (List ℕ)) (r : List ℕ) (u : Udp) → u.sending ≡ q → Counts u → Counts (send r u)
unfolding send push send_exec
push-Counts none r u e c =
    let small : u.sq_size < word = omega (arith, c) in
    rw e (
      sub_sizes_lem r (add_sizes r u.sq_size) u.sq_size small (add_sizes_lem r u.sq_size small) ∙ c)
push-Counts (some q) r u e c =
    let small : u.sq_size < word = omega (arith, c) in
    rw e (omega (arith, c, add_sizes_lem r u.sq_size small, total-append u.waiting (r ∷ [])))

resume-Counts : (rs : List (List ℕ)) (u : Udp) → u.waiting ≡ rs → Counts u → Counts (handle_event u)
unfolding handle_event resume send_exec
resume-Counts [] u e c = rw e (c ∙ ap (λ l. (total l + total u.unsent) % word) e)
resume-Counts (r ∷ rs) u e c =
    let left = (total rs + total u.unsent) % word in
    let all : u.sq_size ≡ (total (r ∷ rs) + total u.unsent) % word =
      c ∙ ap (λ l. (total l + total u.unsent) % word) e in
    rw e (sub_sizes_lem r u.sq_size left (omega arith) (omega (arith, all)))

-- In every state that sends, ends of the request under way and resets lead to, the size of the send
-- queue is the size of the requests that wait and of all requests that a reset ever cancelled while
-- they waited, modulo 2^64: the latter are never taken off.
pub Reach-Counts : {u : Udp} → Reach u → Counts u
unfolding create reset
Reach-Counts created = refl
Reach-Counts (sends {u} r w) = push-Counts u.sending r u refl (Reach-Counts w)
Reach-Counts (finishes {u} w) = resume-Counts u.waiting u refl (Reach-Counts w)
Reach-Counts (resets {u} w) = omega (arith, Reach-Counts w, total-append u.unsent u.waiting)

-- A request that waits when the handle is reset leaves its size in the size of the send queue: an
-- idle handle that sends two requests and is reset has no request, and counts the second one.
reset-send :
    (u : Udp) (a b : List ℕ)
    → u.sending ≡ none
    → u.waiting ≡ []
    → u.sq_size < word
    → let r = reset (send b (send a u)) in
      (r.sending ≡ none) × (r.waiting ≡ []) × (r.sq_size ≡ (u.sq_size + bytes b) % word)
unfolding reset send push send_exec
reset-send u a b e f h =
    let back = sub_sizes_lem a (add_sizes a u.sq_size) u.sq_size h (add_sizes_lem a u.sq_size h) in
    rw e (refl, refl, rw back (add_sizes_lem b u.sq_size h))
