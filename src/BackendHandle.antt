-- ===== src/BackendHandle.antt =====
-- The weakness of a handle and of its backend, src/panda/unievent/Handle.h and BackendHandle.h.
pub mod Weakness
mod Tests
use uni_event.Base.{Bool, true, false, Option, none, some, ◌==◌, if◌then◌else◌}

-- `impl` is whether the backend's handle is weak, or none when there is no such handle.
pub record BackendHandle : Type 0 where
  pub impl : Option Bool
  pub weak : Bool

pub create : BackendHandle
create = record { impl = none; weak = false }

-- `impl()`: a new handle of the backend is not weak, and is made so if this handle is.
pub with_impl : Option Bool → BackendHandle → BackendHandle
with_impl none h = record h { impl = some h.weak }
with_impl (some b) h = h

pub get_impl : BackendHandle → BackendHandle
unfolding with_impl
get_impl h = with_impl h.impl h

abbrev pub equal : Bool → Bool → Bool
equal true b = b
equal false true = false
equal false false = true

-- `weak(value)`.
pub set_weak : Bool → BackendHandle → BackendHandle
unfolding get_impl
set_weak value h =
    if equal h.weak value then h else record (get_impl h) { impl = some value; weak = value }

pub reset : BackendHandle → BackendHandle
reset h = record h { impl = none }

-- The tail of `clear` behind its test.
pub clear_impl : Option Bool → BackendHandle → BackendHandle
clear_impl none h = h
clear_impl (some b) h = record { impl = none; weak = false }

pub clear : BackendHandle → BackendHandle
unfolding clear_impl
clear h = clear_impl h.impl h
