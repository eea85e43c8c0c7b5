-- ===== src/BackendHandle/Weakness.antt =====
-- What becomes of the weakness of a handle (src/panda/unievent/BackendHandle.h).
use uni_event.Base.{◌≡◌, refl, Bool, true, false, Option, none, some}
use uni_event.BackendHandle.{
  BackendHandle, create, with_impl, get_impl, set_weak, reset, clear_impl, clear,
}

pub data Reach : BackendHandle → Type 0 where
  created : Reach create
  uses : {h : BackendHandle} → Reach h → Reach (get_impl h)
  weakens : {h : BackendHandle} (value : Bool) → Reach h → Reach (set_weak value h)
  resets : {h : BackendHandle} → Reach h → Reach (reset h)
  clears : {h : BackendHandle} → Reach h → Reach (clear h)

-- A handle of the backend is weak exactly if the handle is.
abbrev pub Mirrors : Option Bool → Bool → Type 0
Mirrors none w = Unit
Mirrors (some b) w = b ≡ w

uses-Mirrors :
    (i : Option Bool) (w : Bool)
    → Mirrors i w
    → Mirrors (get_impl (record { impl = i; weak = w })).impl w
unfolding get_impl with_impl
uses-Mirrors none w v = refl
uses-Mirrors (some b) w v = v

weakens-Mirrors :
    (i : Option Bool) (w value : Bool)
    → Mirrors i w
    → let h = set_weak value (record { impl = i; weak = w }) in Mirrors h.impl h.weak
unfolding set_weak
weakens-Mirrors i true true v = v
weakens-Mirrors i false false v = v
weakens-Mirrors i true false v = refl
weakens-Mirrors i false true v = refl

clears-Mirrors :
    (i : Option Bool) (w : Bool)
    → Mirrors i w
    → let h = clear (record { impl = i; weak = w }) in Mirrors h.impl h.weak
unfolding clear clear_impl
clears-Mirrors none w v = tt
clears-Mirrors (some b) w v = tt

get-weak : (i : Option Bool) (w : Bool) → (get_impl (record { impl = i; weak = w })).weak ≡ w
unfolding get_impl with_impl
get-weak none w = refl
get-weak (some b) w = refl

-- In every state of a handle, its backend's handle, if there is one, is weak exactly if the handle is:
-- also one that was created anew after a `reset`.
Reach-Mirrors : {h : BackendHandle} → Reach h → Mirrors h.impl h.weak
unfolding create reset
Reach-Mirrors created = tt
Reach-Mirrors (uses {h} r) =
    rw (get-weak h.impl h.weak) (uses-Mirrors h.impl h.weak (Reach-Mirrors r))
Reach-Mirrors (weakens {h} value r) = weakens-Mirrors h.impl h.weak value (Reach-Mirrors r)
Reach-Mirrors (resets r) = tt
Reach-Mirrors (clears {h} r) = clears-Mirrors h.impl h.weak (Reach-Mirrors r)

-- A handle that is reset and then cleared stays as weak as it was, while one that is cleared at once is
-- as after its creation if its backend's handle exists.
pub clear-reset :
    (h : BackendHandle) (b : Bool)
    → h.impl ≡ some b
    → (clear h ≡ create) × (clear (reset h) ≡ reset h) × ((clear (reset h)).weak ≡ h.weak)
unfolding clear clear_impl reset create
clear-reset h b e = rw e (refl, refl, refl)
